-- ===== src/Scheduler/RangeResource/RandomItems.antt =====
-- The random allocation of `RangeResource`, whatever the generator answers.
use katsdpcontroller.Prelude.{
  one_if, nat_eq, string_eq, length, sum_of, ◌==◌, ℕ, ◌+◌, ◌≤◌, ◌≡◌, refl, some, List, [], ◌∷◌, map,
  arith,
}
use katsdpcontroller.Scheduler.Resource.Laws.{allocate_total, allocate_measure}
use katsdpcontroller.Scheduler.Resource.Loop.{IsLawful, IsMeasure}
use katsdpcontroller.Scheduler.RangeResource.Picking.{
  IsGenerator, covers, held, occurs, pick_items_total,
}
use katsdpcontroller.Scheduler.Resource.{Range, IsInSync}
use katsdpcontroller.Scheduler.RangeResource.{
  size, total, Generator, insert_desc, sort_desc, singleton, part_allocate, range_hooks,
  RangeResource, range_allocate,
}
use katsdpcontroller.Errors.{ok}

-- How many ranges of a resource hold a number.
abbrev pub holdings : ℕ → RangeResource → ℕ
holdings x self = sum_of (λ p. held x p.value) self.parts

sum_of-insert_desc :
    (μ : ℕ → ℕ) (x : ℕ) (xs : List ℕ) → sum_of μ (insert_desc x xs) ≡ μ x + sum_of μ xs
unfolding insert_desc
sum_of-insert_desc μ x [] = refl
sum_of-insert_desc μ x (y ∷ ys) = ground (arith, sum_of-insert_desc μ x ys)

sum_of-sort_desc : (μ : ℕ → ℕ) (xs : List ℕ) → sum_of μ (sort_desc xs) ≡ sum_of μ xs
unfolding sort_desc
sum_of-sort_desc μ [] = refl
sum_of-sort_desc μ (x ∷ xs) =
    omega (arith, sum_of-insert_desc μ x (sort_desc xs), sum_of-sort_desc μ xs)

length-sum_of {ℓ} : {A : Type ℓ} (xs : List A) → sum_of (λ x. 1) xs ≡ length xs
length-sum_of [] = refl
length-sum_of (x ∷ xs) = omega (arith, length-sum_of xs)

size-singleton : (x : ℕ) → size (singleton x) ≡ 1
size-singleton x = omega arith

covers-singleton : (x y : ℕ) → covers x (singleton y) ≡ one_if (x == y)
covers-singleton x y = ground arith

total-singletons : (xs : List ℕ) → total (map singleton xs) ≡ length xs
total-singletons [] = refl
total-singletons (x ∷ xs) = omega (arith, total-singletons xs)

held-singletons : (x : ℕ) (ys : List ℕ) → held x (map singleton ys) ≡ occurs x ys
held-singletons x [] = refl
held-singletons x (y ∷ ys) = omega (arith, covers-singleton x y, held-singletons x ys)

module _ (g : Generator) (law : IsGenerator g) where
  pub random-IsLawful : IsLawful range_hooks (some g)
  unfolding part_allocate
  random-IsLawful = record {
    splits = λ stored amount fits.
        let p = pick_items_total g law amount [] stored fits in
        (
          map singleton (sort_desc p.items),
          p.kept,
          rw p.done,
          omega (
            arith,
            total-singletons (sort_desc p.items),
            length-sum_of (sort_desc p.items),
            length-sum_of p.items,
            sum_of-sort_desc (λ x. 1) p.items,
            p.as_many,
          ),
          p.left,
        );
  }

  held_split :
      (x : ℕ) (stored : List Range) (amount : ℕ) (piece left : List Range)
      → amount ≤ total stored
      → part_allocate (some g) stored amount ≡ ok (piece, left)
      → held x piece + held x left ≡ held x stored
  unfolding part_allocate
  held_split x stored amount piece left fits e =
      let p = pick_items_total g law amount [] stored fits in
      let eq = rw p.done at e in
      let piece_is : piece ≡ map singleton (sort_desc p.items) = cc in
      let left_is : left ≡ p.kept = cc in
      rw (piece_is, left_is)
        (omega (
          arith,
          held-singletons x (sort_desc p.items),
          sum_of-sort_desc (λ y. one_if (x == y)) p.items,
          p.shared x,
        ))

  held_nothing : (x : ℕ) (rs : List Range) → total rs ≡ 0 → held x rs ≡ 0
  held_nothing x [] h = refl
  held_nothing x (r ∷ rs) h = ground (arith, held_nothing x rs)

  pub held-IsMeasure : (x : ℕ) → IsMeasure range_hooks (some g) (held x)
  held-IsMeasure x = record { split = held_split x; nothing = held_nothing x }

-- Whatever the generator answers, an allocation that fits returns that many items, and every number
-- goes to the allocation or stays, as often as it was held.
pub record SharesOut (g : Generator) (amount : ℕ) (self : RangeResource) : Type 0 where
  pub out : RangeResource
  pub rest : RangeResource
  pub done : range_allocate (some g) amount self ≡ ok (out, rest)
  pub out_has : out.available ≡ amount
  pub rest_has : rest.available + amount ≡ self.available
  pub shared : (x : ℕ) → holdings x out + holdings x rest ≡ holdings x self
  pub out_in_sync : IsInSync range_hooks out
  pub rest_in_sync : IsInSync range_hooks rest

-- A random allocation from a range resource whose books are in step, of at most what is
-- available, returns with any generator whose choices picks a positive weight and whose randint
-- stays in its bounds: the result has the amount that was asked for, what is left is the rest,
-- every number is held as often by the result and the rest together as before, and both have
-- their books in step.
pub range_allocate-SharesOut :
    (g : Generator) (amount : ℕ) (self : RangeResource)
    → IsGenerator g
    → IsInSync range_hooks self
    → amount ≤ self.available
    → SharesOut g amount self
unfolding range_allocate
range_allocate-SharesOut g amount self law sync fits =
    let a = allocate_total range_hooks (some g) (random-IsLawful g law) amount self sync fits in
    record {
      out = a.out;
      rest = a.rest;
      done = a.done;
      out_has = a.out_has;
      rest_has = a.rest_has;
      shared = λ x.
          allocate_measure range_hooks (some g) (held x) (held-IsMeasure g law x) amount self a.out
            a.rest a.done;
      out_in_sync = a.out_in_sync;
      rest_in_sync = a.rest_in_sync;
    }
