-- ===== src/Scheduler/RangeResource/Picking.antt =====
-- The loop of a random allocation draws distinct items that were held.
use katsdpcontroller.Prelude.{
  one_if, string_eq, some_inj, sum_of-append, zero, refl, ap, suc, some, arith, ◌&&◌, length,
  get_elem?, map, ℕ, ◌+◌, ◌≤◌, ◌<◌, ◌≡◌, List, [], ◌∷◌, sum_of, leb, ◌==◌, nat_eq,
}
use katsdpcontroller.Errors.{ok}
use katsdpcontroller.Scheduler.RangeResource.{
  replace_at, size, total, pick_items, Range, without_item, Generator,
}

-- The documented behaviour of `random.Random`.
pub record IsGenerator (g : Generator) : Type 0 where
  -- `choices` picks an index whose weight is not zero, if there is one.
  pub choices_weighted :
      (drawn weights : List ℕ)
      → 0 < sum_of (λ w. w) weights
      → (w : ℕ) × (get_elem? weights (g.choices drawn weights) ≡ some w) × (0 < w)
  -- `randint` stays between its bounds.
  pub randint_low : (drawn : List ℕ) (low high : ℕ) → low ≤ high → low ≤ g.randint drawn low high
  pub randint_high : (drawn : List ℕ) (low high : ℕ) → low ≤ high → g.randint drawn low high ≤ high

-- How many ranges hold a number.
abbrev pub covers : ℕ → Range → ℕ
covers x r = one_if (leb r.begin x && leb x r.last)

abbrev pub held : ℕ → List Range → ℕ
held x = sum_of (covers x)

-- How often a number stands in a list.
abbrev pub occurs : ℕ → List ℕ → ℕ
occurs x = sum_of (λ y. one_if (x == y))

total-without_item :
    (r : Range) (item : ℕ)
    → r.begin ≤ item
    → item ≤ r.last
    → total (without_item r item) + 1 ≡ size r
unfolding without_item
total-without_item r item low high = ground arith

held-without_item :
    (x : ℕ) (r : Range) (item : ℕ)
    → r.begin ≤ item
    → item ≤ r.last
    → held x (without_item r item) + one_if (x == item) ≡ covers x r
unfolding without_item
held-without_item x r item low high = ground arith

sum_of-replace_at {ℓ} :
    {A : Type ℓ} (μ : A → ℕ) (xs : List A) (i : ℕ) (new : List A) {x : A}
    → get_elem? xs i ≡ some x
    → sum_of μ (replace_at xs i new) + μ x ≡ sum_of μ xs + sum_of μ new
sum_of-replace_at μ [] i new e = absurd (cc)
sum_of-replace_at μ (y ∷ xs) zero new e =
    let same : y ≡ _ = some_inj e in omega (arith, sum_of-append μ new xs, ap μ same)
sum_of-replace_at μ (y ∷ xs) (suc i) new e = omega (arith, sum_of-replace_at μ xs i new e)

sum_of-map {ℓ κ} :
    {A : Type ℓ} {B : Type κ} (μ : B → ℕ) (f : A → B) (xs : List A)
    → sum_of μ (map f xs) ≡ sum_of (λ x. μ (f x)) xs
sum_of-map μ f [] = refl
sum_of-map μ f (x ∷ xs) = omega (arith, sum_of-map μ f xs)

get_elem?-map_inv :
    (rs : List Range) (i w : ℕ)
    → get_elem? (map size rs) i ≡ some w
    → (r : Range) × (get_elem? rs i ≡ some r) × (size r ≡ w)
get_elem?-map_inv [] i w e = absurd (cc)
get_elem?-map_inv (r ∷ rs) zero w e = (r, refl, some_inj e)
get_elem?-map_inv (r ∷ rs) (suc i) w e = get_elem?-map_inv rs i w e

pub record Picked (g : Generator) (n : ℕ) (drawn : List ℕ) (rs : List Range) : Type 0 where
  pub items : List ℕ
  pub kept : List Range
  pub done : pick_items g n drawn rs ≡ ok (items, kept)
  pub as_many : length items ≡ length drawn + n
  pub left : total kept + n ≡ total rs
  pub shared : (x : ℕ) → held x kept + occurs x items ≡ held x rs + occurs x drawn

pub pick_items_total :
    (g : Generator) (law : IsGenerator g) (n : ℕ) (drawn : List ℕ) (rs : List Range)
    → n ≤ total rs
    → Picked g n drawn rs
unfolding pick_items
pick_items_total g law zero drawn rs fits = record {
  items = drawn;
  kept = rs;
  done = refl;
  as_many = omega arith;
  left = omega arith;
  shared = λ x. refl;
}
pick_items_total g law (suc n) drawn rs fits =
    let weights = map size rs in
    let pos = g.choices drawn weights in
    let (w, found, pos_w) =
      law.choices_weighted drawn weights (omega (arith, sum_of-map (λ w. w) size rs)) in
    let (r, at_pos, size_r) = get_elem?-map_inv rs pos w found in
    let item = g.randint drawn r.begin r.last in
    let low = law.randint_low drawn r.begin r.last (omega arith) in
    let high = law.randint_high drawn r.begin r.last (omega arith) in
    let new = without_item r item in
    let rs' = replace_at rs pos new in
    let smaller = sum_of-replace_at size rs pos new at_pos in
    let one_less = total-without_item r item low high in
    let ih = pick_items_total g law n (item ∷ drawn) rs' (omega arith) in
    record {
      items = ih.items;
      kept = ih.kept;
      done = ground (arith, at_pos, ih.done);
      as_many = omega (arith, ih.as_many);
      left = omega (arith, ih.left);
      shared = λ x. omega (
        arith,
        ih.shared x,
        held-without_item x r item low high,
        sum_of-replace_at (covers x) rs pos new at_pos,
      );
    }
