-- ===== src/Scheduler/RangeResource.antt =====
-- `RangeResource` of scheduler.py. A part holds its ranges in reverse, so that the first range is
-- taken first from the end.
pub mod Counting
pub mod Sequential
pub mod Iteration
pub mod Picking
pub mod RandomItems
pub mod Subset
use katsdpcontroller.Prelude.{
  String, string_eq, ℕ, zero, suc, ◌+◌, ◌-◌, min, Bool, true, false, ◌||◌, Option, none, some, List,
  [], ◌∷◌, ◌++◌, map, reverse, ltb, ◌==◌, nat_eq, get_elem?, sum_of, flat_map, if◌then◌else◌,
}
use katsdpcontroller.Errors.{Result, ok, err, type_error, index_error, ◌>>=◌}
use katsdpcontroller.Scheduler.Resource.{
  Range, Value, ranges, Part, Hooks, Resource, allocate, available_of,
}

-- `r.end - r.begin + 1`
abbrev pub size : Range → ℕ
size r = r.last + 1 - r.begin

abbrev pub total : List Range → ℕ
total = sum_of size

unfoldable pub transform : Value → Result (List Range)
transform (ranges rs) = ok (reverse rs)
transform _ = err type_error

unfoldable pub untransform : List Range → Value
untransform stored = ranges (reverse stored)

-- The sequential loop of `_allocate`, over the ranges from the end of the stored list: the ranges
-- that are taken, and those that are left.
unfoldable pub carve : ℕ → List Range → Result (List Range × List Range)
carve amount [] = if ltb 0 amount then err index_error else ok ([], [])
carve amount (r ∷ rs) =
    let taken = min amount (size r) in
    let rest = carve (amount - taken) rs in
    let left : Range = record r { begin = r.begin + taken } in
    if ltb 0 amount
    then (do
      (out, kept) ← rest
      ok (
        record { begin = r.begin; last = r.begin + taken - 1 } ∷ out,
        if ltb left.last left.begin then kept else left ∷ kept,
      ))
    else ok ([], r ∷ rs)

-- A `random.Random`: its answers depend on the items that were drawn before, and its methods take
-- what the source gives them (`choices` picks an index by weight).
pub record Generator : Type 0 where
  pub choices : (drawn weights : List ℕ) → ℕ
  pub randint : (drawn : List ℕ) (low high : ℕ) → ℕ

-- The element at a place is replaced by a list; out of range nothing changes.
abbrev pub replace_at {ℓ} : {A : Type ℓ} → List A → ℕ → List A → List A
replace_at [] i new = []
replace_at (x ∷ xs) zero new = new ++ xs
replace_at (x ∷ xs) (suc i) new = x ∷ replace_at xs i new

-- What becomes of a range when `item` is taken from it, in stored order.
unfoldable pub without_item : Range → ℕ → List Range
without_item r item =
    if r.begin == r.last
    then []
    else if item == r.begin
    then record r { begin = r.begin + 1 } ∷ []
    else if item == r.last
    then record r { last = r.last - 1 } ∷ []
    else record { begin = item + 1; last = r.last } ∷ record r { last = item - 1 } ∷ []

-- The random loop of `_allocate`: the items, the latest first, and the ranges that are left.
unfoldable pub pick_items : Generator → ℕ → List ℕ → List Range → Result (List ℕ × List Range)
pick_items g zero items rs = ok (items, rs)
pick_items g (suc n) items rs =
    let pos = g.choices items (map size rs) in
    elim (get_elem? rs pos) [
      | none ↦ err index_error
      | some r ↦
          let item = g.randint items r.begin r.last in
          pick_items g n (item ∷ items) (replace_at rs pos (without_item r item))
    ]

-- `items.sort(reverse=True)`
unfoldable pub insert_desc : ℕ → List ℕ → List ℕ
insert_desc x [] = x ∷ []
insert_desc x (y ∷ ys) = if ltb x y then y ∷ insert_desc x ys else x ∷ y ∷ ys

unfoldable pub sort_desc : List ℕ → List ℕ
unfolding insert_desc
sort_desc [] = []
sort_desc (x ∷ xs) = insert_desc x (sort_desc xs)

abbrev pub singleton : ℕ → Range
singleton item = record { begin = item; last = item }

unfoldable pub part_allocate : Option Generator → List Range → ℕ → Result (List Range × List Range)
part_allocate none stored amount = do
  (out, kept) ← carve amount (reverse stored)
  ok (reverse out, reverse kept)
part_allocate (some g) stored amount = do
  (items, kept) ← pick_items g amount [] stored
  ok (map singleton (sort_desc items), kept)

abbrev pub is_some {ℓ} : {A : Type ℓ} → Option A → Bool
is_some none = false
is_some (some _) = true

-- `use_random` is the keyword argument of `allocate`.
abbrev pub range_hooks : Hooks (Option Generator) (List Range)
range_hooks = record {
  has_kwargs = is_some;
  transform = transform;
  untransform = untransform;
  part_available = total;
  part_allocate = part_allocate;
}

abbrev pub RangeResource : Type 0
RangeResource = Resource (List Range)

unfoldable pub range_allocate :
    Option Generator → ℕ → RangeResource → Result (RangeResource × RangeResource)
range_allocate use_random amount self = allocate range_hooks use_random amount self

-- range(begin, end)
unfoldable pub range_up : ℕ → ℕ → List ℕ
range_up begin zero = []
range_up begin (suc n) = let rest = range_up begin n in if ltb n begin then [] else rest ++ n ∷ []

-- range(end - 1, begin - 1, -1)
unfoldable pub range_down : ℕ → ℕ → List ℕ
range_down begin zero = []
range_down begin (suc n) = let rest = range_down begin n in if ltb n begin then [] else n ∷ rest

abbrev pub numbers : Range → List ℕ
numbers r = range_up r.begin (r.last + 1)

abbrev pub part_items : List Range → List ℕ
part_items stored = flat_map numbers (reverse stored)

-- `__iter__`
unfoldable pub iter : RangeResource → List ℕ
iter self = flat_map (λ p. part_items p.value) (reverse self.parts)

abbrev pub contains : ℕ → List ℕ → Bool
contains x [] = false
contains x (y ∷ ys) = x == y || contains x ys

abbrev pub select : (ℕ → Bool) → List ℕ → List ℕ
select wanted [] = []
select wanted (x ∷ xs) = let rest = select wanted xs in if wanted x then x ∷ rest else rest

unfoldable pub subset_part : List ℕ → List Range → List Range
subset_part group stored =
    flat_map (λ r. map singleton (select (λ i. contains i group) (range_down r.begin (r.last + 1))))
      stored

-- A part is kept if it has any ranges.
abbrev pub if_any : Option String → List Range → List (Part (List Range)) → List (Part (List Range))
if_any role [] ps = ps
if_any role (r ∷ rs) ps = record { role = role; value = r ∷ rs } ∷ ps

abbrev pub subset_parts : List ℕ → List (Part (List Range)) → List (Part (List Range))
subset_parts group [] = []
subset_parts group (p ∷ ps) = if_any p.role (subset_part group p.value) (subset_parts group ps)

unfoldable pub subset : List ℕ → RangeResource → RangeResource
unfolding subset_part
subset group self =
    let parts = subset_parts group self.parts in
    record { name = self.name; parts = parts; available = sum_of (available_of range_hooks) parts }
