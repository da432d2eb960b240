-- ===== src/Scheduler/Resource/Roles.antt =====
-- `Resource.add`: the order of the parts, and the sum.
use katsdpcontroller.Prelude.{
  nat_eq, ℕ, ◌+◌, ◌≤◌, ◌≡◌, List, [], ◌∷◌, arith, sum_of, Bool-cases, inl, inr, String, ◌==◌,
  string_eq, subst,
}
use katsdpcontroller.Errors.{ok, ok-injective, Result-cases}
use katsdpcontroller.Scheduler.Resource.{
  Part, Hooks, Resource, Message, available_of, role_length, add, insert_part, IsInSync, empty,
}

-- The most specifically reserved parts stand at the end.
abbrev pub IsOrdered : {V : Type 0} → List (Part V) → Type 0
IsOrdered [] = Unit
IsOrdered (p ∷ []) = Unit
IsOrdered (p ∷ q ∷ ps) = (role_length p ≤ role_length q) × IsOrdered (q ∷ ps)

insert_part-IsOrdered :
    {V : Type 0} (p : Part V) (ps : List (Part V)) → IsOrdered ps → IsOrdered (insert_part p ps)
unfolding insert_part
insert_part-IsOrdered p [] h = tt
insert_part-IsOrdered p (q ∷ []) h = ground arith
insert_part-IsOrdered p (q ∷ r ∷ ps) h = ground (arith, insert_part-IsOrdered p (r ∷ ps) h.1)

sum_of-insert_part :
    {V : Type 0} (μ : Part V → ℕ) (p : Part V) (ps : List (Part V))
    → sum_of μ (insert_part p ps) ≡ μ p + sum_of μ ps
unfolding insert_part
sum_of-insert_part μ p [] = omega arith
sum_of-insert_part μ p (q ∷ qs) = ground (arith, sum_of-insert_part μ p qs)

-- What holds of a resource that messages are collected in.
pub record IsCollected {K V : Type 0} (hooks : Hooks K V) (self : Resource V) : Type 0 where
  pub in_sync : IsInSync hooks self
  pub ordered : IsOrdered self.parts

pub empty-IsCollected :
    {K V : Type 0} (hooks : Hooks K V) (name : String) → IsCollected hooks (empty name)
empty-IsCollected hooks name = omega arith

insert-IsCollected :
    {K V : Type 0} (hooks : Hooks K V) (part : Part V) (self : Resource V)
    → IsCollected hooks self
    → IsCollected hooks (record self {
      parts = insert_part part self.parts;
      available = self.available + hooks.part_available part.value;
    })
insert-IsCollected hooks part self inv = record {
  in_sync = omega (arith, sum_of-insert_part (available_of hooks) part self.parts, inv.in_sync);
  ordered = insert_part-IsOrdered part self.parts inv.ordered;
}

-- If Resource.add returns, it keeps two invariants: what is available is the sum over the parts,
-- and the parts are ordered by the length of their role, so that the most specific reservations
-- come last.
pub add-IsCollected :
    {K V : Type 0} (hooks : Hooks K V) (message : Message) (self after : Resource V)
    → IsCollected hooks self
    → add hooks message self ≡ ok after
    → IsCollected hooks after
unfolding add
add-IsCollected hooks message self after inv e = elim (Bool-cases (message.name == self.name)) [
  | inl same ↦ elim (Result-cases (hooks.transform message.value)) [
    | inl (value, transformed) ↦
        let part : Part _ = record { role = message.role; value = value } in
        subst (IsCollected hooks) (ok-injective (rw (same, transformed) at e))
          (insert-IsCollected hooks part self inv)
    | inr (error, failed) ↦ absurd (cc (rw (same, failed) at e))
  ]
  | inr other ↦ absurd (cc (rw other at e))
]
