-- ===== src/Scheduler/Resource/Laws.antt =====
-- `Resource.allocate` and `Resource.add`: the books stay balanced.
use katsdpcontroller.Prelude.{
  ◌⊎◌, ◌∙◌, ap₂, ℕ, ◌+◌, ◌-◌, ◌≤◌, ◌<◌, ◌≡◌, refl, List, reverse, arith, ap, ltb, lt→ltb, le→ltb,
  sum_of, sum_of-reverse, reverse-reverse, flat_map, Bool-cases, string_eq, ◌++◌, inl, inr,
}
use katsdpcontroller.Errors.{ok, err, value_error, >>=-eq-ok}
use katsdpcontroller.Scheduler.Resource.View.{IsView, draw_view}
use katsdpcontroller.Scheduler.Resource.{
  Part, Hooks, Resource, draw, available_of, allocate, allocatable, IsInSync,
}
use katsdpcontroller.Scheduler.Resource.Loop.{IsLawful, draw_total, IsMeasure, draw_measure}

-- What a successful allocation gives.
pub record Allocated {K V : Type 0} (hooks : Hooks K V) (kwargs : K) (amount : ℕ)
    (self : Resource V) : Type 0 where
  pub out : Resource V
  pub rest : Resource V
  pub done : allocate hooks kwargs amount self ≡ ok (out, rest)
  pub out_has : out.available ≡ amount
  pub rest_has : rest.available + amount ≡ self.available
  pub out_in_sync : IsInSync hooks out
  pub rest_in_sync : IsInSync hooks rest

module _ {K V : Type 0} (hooks : Hooks K V) (kwargs : K) where
  -- With the books in step the two ways to compute what is available agree.
  allocatable_in_sync :
      (self : Resource V) → IsInSync hooks self → allocatable hooks kwargs self ≡ self.available
  allocatable_in_sync self sync = ground arith

  pub allocate_total :
      (law : IsLawful hooks kwargs) (amount : ℕ) (self : Resource V)
      → IsInSync hooks self
      → amount ≤ self.available
      → Allocated hooks kwargs amount self
  unfolding allocate
  allocate_total law amount self sync fits =
      let parts = reverse self.parts in
      let whole = sum_of-reverse (available_of hooks) self.parts in
      let d = draw_total hooks kwargs law amount parts (omega (arith, whole)) in
      record {
        out = record { name = self.name; parts = reverse d.out; available = amount };
        rest = record self { parts = reverse d.kept; available = self.available - amount };
        done = rw (allocatable_in_sync self sync, le→ltb self.available amount fits, d.done);
        out_has = refl;
        rest_has = omega arith;
        out_in_sync = omega (arith, sum_of-reverse (available_of hooks) d.out, d.taken);
        rest_in_sync = omega (arith, sum_of-reverse (available_of hooks) d.kept, d.left, whole);
      }

  allocate_too_much :
      (amount : ℕ) (self : Resource V)
      → IsInSync hooks self
      → self.available < amount
      → allocate hooks kwargs amount self ≡ err value_error
  unfolding allocate
  allocate_too_much amount self sync over =
      rw (allocatable_in_sync self sync, lt→ltb self.available amount over)

  -- Resource.allocate of a resource whose books are in step, with an _allocate that splits off
  -- exactly what it is asked for when there is that much, has two outcomes. Either the amount is
  -- at most what is available, and it returns a resource with that amount and leaves the rest,
  -- both with their books in step, so the assertion in its loop holds; or the amount is more than
  -- what is available, and it raises ValueError.
  pub allocate_outcome :
      (law : IsLawful hooks kwargs) (amount : ℕ) (self : Resource V)
      → IsInSync hooks self
      → ((amount ≤ self.available) × Allocated hooks kwargs amount self)
        ⊎ ((self.available < amount) × (allocate hooks kwargs amount self ≡ err value_error))
  allocate_outcome law amount self sync = elim (Bool-cases (ltb self.available amount)) [
    | inl over ↦ inr (ground arith, allocate_too_much amount self sync (ground arith))
    | inr fits ↦ inl (ground arith, allocate_total law amount self sync (ground arith))
  ]

  -- The draw behind an allocation that returned.
  pub allocate-draw :
      (amount : ℕ) (self out rest : Resource V)
      → allocate hooks kwargs amount self ≡ ok (out, rest)
      → (used : ℕ) × (drawn : List (Part V)) × (kept : List (Part V)) × (draw hooks kwargs amount
            (reverse self.parts)
          ≡ ok (drawn, kept, used))
        × (out.parts ≡ reverse drawn)
        × (rest.parts ≡ reverse kept)
  unfolding allocate
  allocate-draw amount self out rest e =
      elim (Bool-cases (ltb (allocatable hooks kwargs self) amount)) [
        | inl over ↦ absurd (cc (rw over at e))
        | inr fits ↦
            let ((drawn, kept, used), d, e1) = >>=-eq-ok _ _ (rw fits at e) in
            (used, drawn, kept, d, cc, cc)
      ]

  -- A measure of the parts is shared out between what is returned and what is left.
  pub allocate_measure :
      (μ : V → ℕ) (measure : IsMeasure hooks kwargs μ) (amount : ℕ) (self out rest : Resource V)
      → allocate hooks kwargs amount self ≡ ok (out, rest)
      → sum_of (λ p. μ p.value) out.parts + sum_of (λ p. μ p.value) rest.parts
        ≡ sum_of (λ p. μ p.value) self.parts
  allocate_measure μ measure amount self out rest e =
      let (used, drawn, kept, d, out_is, rest_is) = allocate-draw amount self out rest e in
      let total : List (Part V) → ℕ = sum_of (λ p. μ p.value) in
      omega (
        arith,
        draw_measure hooks kwargs μ measure amount (reverse self.parts) drawn kept used d,
        sum_of-reverse (λ (p : Part V). μ p.value) drawn,
        sum_of-reverse (λ (p : Part V). μ p.value) kept,
        sum_of-reverse (λ (p : Part V). μ p.value) self.parts,
        ap total out_is,
        ap total rest_is,
      )

  -- In the order of iteration, from the last part to the first, the items that are returned come
  -- first and those that are left follow.
  pub allocate_view {ℓ} :
      {X : Type ℓ} (view : V → List X) (law : IsLawful hooks kwargs)
      (is_view : IsView hooks kwargs view) (amount : ℕ) (self out rest : Resource V)
      → allocate hooks kwargs amount self ≡ ok (out, rest)
      → flat_map (λ p. view p.value) (reverse out.parts)
          ++ flat_map (λ p. view p.value) (reverse rest.parts)
        ≡ flat_map (λ p. view p.value) (reverse self.parts)
  allocate_view view law is_view amount self out rest e =
      let (used, drawn, kept, d, out_is, rest_is) = allocate-draw amount self out rest e in
      let out_back = ap reverse out_is ∙ reverse-reverse drawn in
      let rest_back = ap reverse rest_is ∙ reverse-reverse kept in
      let items : List (Part V) → List _ = flat_map (λ p. view p.value) in
      ap₂ (λ o r. items o ++ items r) out_back rest_back
      ∙ draw_view hooks kwargs view law is_view amount (reverse self.parts) drawn kept used d
