-- ===== src/Scheduler/RangeResource/Subset.antt =====
-- `RangeResource.subset` filters what iteration gives.
use katsdpcontroller.Prelude.{
  String, sym, ◌∙◌, Option, reverse-append, Bool-cases, flat_map-append, ◌-◌, inl, inr, append-nil,
  reverse-cons, flat_map, ℕ, zero, suc, ◌+◌, ◌≡◌, refl, ap, Bool, List, [], ◌∷◌, ◌++◌, map, reverse,
  arith,
}
use katsdpcontroller.Scheduler.Resource.{Range, Part, IsInSync}
use katsdpcontroller.Scheduler.RangeResource.{
  size, if_any, range_hooks, RangeResource, part_items, iter, contains, subset_part, subset_parts,
  subset, singleton, numbers, select,
}
use katsdpcontroller.Scheduler.RangeResource.Counting.{
  count_up, count_down, count_up-snoc, numbers-count_up, down-count_down,
}

select-append :
    (test : ℕ → Bool) (xs ys : List ℕ) → select test (xs ++ ys) ≡ select test xs ++ select test ys
select-append test [] ys = refl
select-append test (x ∷ xs) ys = ground (arith, select-append test xs ys)

numbers-singleton : (x : ℕ) → numbers (singleton x) ≡ x ∷ []
numbers-singleton x =
    let e : x + 1 - x ≡ 1 = omega arith in numbers-count_up (singleton x) ∙ rw e refl

-- The singletons that one range leaves, read from the end, are its numbers that are kept.
select-count_down :
    (test : ℕ → Bool) (b n : ℕ)
    → flat_map numbers (reverse (map singleton (select test (count_down b n))))
      ≡ select test (count_up b n)
select-count_down test b zero = refl
select-count_down test b (suc n) =
    let x = b + n in
    let down = select test (count_down b n) in
    let ih = select-count_down test b n in
    let last : flat_map numbers (reverse (map singleton (select test (count_down b (suc n)))))
        ≡ select test (count_up b n) ++ select test (x ∷ []) =
      elim (Bool-cases (test x)) [
        | inl wanted ↦ rw (
          wanted,
          reverse-cons (singleton x) (map singleton down),
          flat_map-append numbers (reverse (map singleton down)) (singleton x ∷ []),
          ih,
          numbers-singleton x,
        )
        | inr other ↦ rw (other, append-nil) ih
      ] in
    last
    ∙ sym (select-append test (count_up b n) (x ∷ []))
    ∙ ap (select test) (sym (count_up-snoc b n))

-- One part.
part_items-subset_part :
    (group : List ℕ) (stored : List Range)
    → part_items (subset_part group stored) ≡ select (λ i. contains i group) (part_items stored)
unfolding subset_part
part_items-subset_part group [] = refl
part_items-subset_part group (r ∷ rs) =
    let test = λ (i : ℕ). contains i group in
    let here = map singleton (select test (count_down r.begin (size r))) in
    let down = down-count_down r in
    let there = subset_part group rs in
    rw (
      down,
      reverse-append here there,
      flat_map-append numbers (reverse there) (reverse here),
      part_items-subset_part group rs,
      select-count_down test r.begin (size r),
      reverse-cons r rs,
      flat_map-append numbers (reverse rs) (r ∷ []),
      append-nil (numbers r),
      select-append test (part_items rs) (numbers r),
      numbers-count_up r,
    )

items-if_any :
    (role : Option String) (stored : List Range) (parts : List (Part (List Range)))
    → flat_map (λ p. part_items p.value) (reverse (if_any role stored parts))
      ≡ flat_map (λ p. part_items p.value) (reverse parts) ++ part_items stored
items-if_any role [] parts = sym (append-nil _)
items-if_any role (r ∷ rs) parts =
    let p : Part (List Range) = record { role = role; value = r ∷ rs } in
    rw (
      reverse-cons p parts,
      flat_map-append (λ (q : Part (List Range)). part_items q.value) (reverse parts) (p ∷ []),
      append-nil (part_items (r ∷ rs)),
    )

subset_parts_items :
    (group : List ℕ) (parts : List (Part (List Range)))
    → flat_map (λ p. part_items p.value) (reverse (subset_parts group parts))
      ≡ select (λ i. contains i group) (flat_map (λ p. part_items p.value) (reverse parts))
subset_parts_items group [] = refl
subset_parts_items group (p ∷ ps) =
    let test = λ (i : ℕ). contains i group in
    rw (
      items-if_any p.role (subset_part group p.value) (subset_parts group ps),
      subset_parts_items group ps,
      part_items-subset_part group p.value,
      reverse-cons p ps,
      flat_map-append (λ (q : Part (List Range)). part_items q.value) (reverse ps) (p ∷ []),
      append-nil (part_items p.value),
      select-append test (flat_map (λ q. part_items q.value) (reverse ps)) (part_items p.value),
    )

-- Iterating over RangeResource.subset gives, in the same order, those items of the resource that
-- are in the group, and what the subset counts as available is the sum over its parts.
pub iter-subset :
    (group : List ℕ) (self : RangeResource)
    → (iter (subset group self) ≡ select (λ i. contains i group) (iter self))
      × IsInSync range_hooks (subset group self)
unfolding iter subset
iter-subset group self = (subset_parts_items group self.parts, refl)
