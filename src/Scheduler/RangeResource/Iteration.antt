-- ===== src/Scheduler/RangeResource/Iteration.antt =====
-- What a client sees of a `RangeResource`: the numbers that iterating over it gives.
use katsdpcontroller.Scheduler.RangeResource.Counting.{count_up, numbers-count_up}
use katsdpcontroller.Scheduler.RangeResource.Sequential.{sequential-IsLawful, sequential-IsView}
use katsdpcontroller.Scheduler.Resource.Laws.{allocate_total, allocate_view}
use katsdpcontroller.Scheduler.Resource.{IsInSync}
use katsdpcontroller.Prelude.{
  zero, refl, ◌∙◌, length-append, sum_of-reverse, sum_of, ap, suc, flat_map, ℕ, ◌+◌, ◌≤◌, ◌≡◌, none,
  List, [], ◌∷◌, ◌++◌, length, reverse, arith,
}
use katsdpcontroller.Errors.{ok}
use katsdpcontroller.Scheduler.RangeResource.{
  size, available_of, total, numbers, part_items, Range, Part, RangeResource, iter, range_allocate,
  range_hooks,
}

length-count_up : (b n : ℕ) → length (count_up b n) ≡ n
length-count_up b zero = refl
length-count_up b (suc n) = ap suc (length-count_up (b + 1) n)

length-numbers : (rs : List Range) → length (flat_map numbers rs) ≡ total rs
length-numbers [] = refl
length-numbers (r ∷ rs) = omega (
  arith,
  length-append (numbers r) (flat_map numbers rs),
  ap length (numbers-count_up r),
  length-count_up r.begin (size r),
  length-numbers rs,
)

length-part_items : (stored : List Range) → length (part_items stored) ≡ total stored
length-part_items stored =
    omega (arith, length-numbers (reverse stored), sum_of-reverse size stored)

length-items :
    (parts : List (Part (List Range)))
    → length (flat_map (λ p. part_items p.value) parts) ≡ sum_of (available_of range_hooks) parts
length-items [] = refl
length-items (p ∷ ps) = omega (
  arith,
  length-append (part_items p.value) (flat_map (λ q. part_items q.value) ps),
  length-part_items p.value,
  length-items ps,
)

-- For a range resource whose books are in step, the number of items that iteration gives, going
-- through each range from its beginning to its end, is what the resource counts as available from
-- the differences of ends and beginnings.
pub length-iter :
    (self : RangeResource) → IsInSync range_hooks self → length (iter self) ≡ self.available
unfolding iter
length-iter self sync =
    omega (
      arith,
      length-items (reverse self.parts),
      sum_of-reverse (available_of range_hooks) self.parts,
    )

-- A sequential allocation that fits returns the first items and leaves the others, in order.
pub record TakesFirst (amount : ℕ) (self : RangeResource) : Type 0 where
  pub out : RangeResource
  pub rest : RangeResource
  pub done : range_allocate none amount self ≡ ok (out, rest)
  pub in_order : iter out ++ iter rest ≡ iter self
  pub as_many : length (iter out) ≡ amount
  pub out_in_sync : IsInSync range_hooks out
  pub rest_in_sync : IsInSync range_hooks rest

-- A sequential allocation from a range resource whose books are in step, of at most what is
-- available, returns: iterating over the result and then over what is left gives what iterating
-- gave before, the result has as many items as were asked for, and both have their books in step.
pub range_allocate-TakesFirst :
    (amount : ℕ) (self : RangeResource)
    → IsInSync range_hooks self
    → amount ≤ self.available
    → TakesFirst amount self
unfolding range_allocate iter
range_allocate-TakesFirst amount self sync fits =
    let a = allocate_total range_hooks none sequential-IsLawful amount self sync fits in
    record {
      out = a.out;
      rest = a.rest;
      done = a.done;
      in_order =
          allocate_view range_hooks none part_items sequential-IsLawful sequential-IsView amount
            self a.out a.rest a.done;
      as_many = length-iter a.out a.out_in_sync ∙ a.out_has;
      out_in_sync = a.out_in_sync;
      rest_in_sync = a.rest_in_sync;
    }
