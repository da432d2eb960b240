-- ===== src/Scheduler/Resource/Loop.antt =====
-- The loop of `Resource.allocate`, for hooks that keep_part their contract.
use katsdpcontroller.Prelude.{
  ℕ, ◌+◌, ◌-◌, ◌≤◌, min, ◌≡◌, ◌⊎◌, inl, inr, refl, List, [], ◌∷◌, arith, ltb, nat_eq, sum_of,
  Bool-cases,
}
use katsdpcontroller.Errors.{ok, >>=-eq-ok}
use katsdpcontroller.Scheduler.Resource.{Part, Hooks, draw, available_of, keep_part}

-- The documented contract of `_allocate`: an amount of at most `_available` is split off, no more
-- and no less.
pub record IsLawful {K V : Type 0} (hooks : Hooks K V) (kwargs : K) : Type 0 where
  pub splits :
      (value : V) (amount : ℕ)
      → amount ≤ hooks.part_available value
      → (piece : V) × (left : V) × (hooks.part_allocate kwargs value amount ≡ ok (piece, left))
        × (hooks.part_available piece ≡ amount)
        × (hooks.part_available left + amount ≡ hooks.part_available value)

-- The shape of one result of the loop.
pub record Drawn {K V : Type 0} (hooks : Hooks K V) (kwargs : K) (amount : ℕ)
    (parts : List (Part V)) : Type 0 where
  pub out : List (Part V)
  pub kept : List (Part V)
  pub done : draw hooks kwargs amount parts ≡ ok (out, kept, amount)
  pub taken : sum_of (available_of hooks) out ≡ amount
  pub left : sum_of (available_of hooks) kept + amount ≡ sum_of (available_of hooks) parts

module _ {K V : Type 0} (hooks : Hooks K V) (kwargs : K) (law : IsLawful hooks kwargs) where
  -- The loop ends with the amount, if the parts together have it.
  pub draw_total :
      (amount : ℕ) (parts : List (Part V))
      → amount ≤ sum_of (available_of hooks) parts
      → Drawn hooks kwargs amount parts
  unfolding draw
  draw_total amount [] fits = record {
    out = [];
    kept = [];
    done = ground arith;
    taken = omega arith;
    left = omega arith;
  }
  draw_total amount (part ∷ parts) fits =
      let taken = min (hooks.part_available part.value) amount in
      let (piece, left, split, piece_has, left_has) = law.splits part.value taken (omega arith) in
      let ih = draw_total (amount - taken) parts (omega arith) in
      elim (Bool-cases (ltb 0 amount)) [
        | inl more ↦ record {
          out = record part { value = piece } ∷ ih.out;
          kept = keep_part hooks (record part { value = left }) ih.kept;
          done = ground (arith, split, ih.done);
          taken = omega (arith, ih.taken);
          left = ground (arith, ih.left);
        }
        | inr done ↦ record {
          out = [];
          kept = part ∷ parts;
          done = ground arith;
          taken = ground arith;
          left = ground arith;
        }
      ]

-- A measure that each split keeps, and that is 0 for a part with nothing left.
pub record IsMeasure {K V : Type 0} (hooks : Hooks K V) (kwargs : K) (μ : V → ℕ) : Type 0 where
  pub split :
      (value : V) (amount : ℕ) (piece left : V)
      → amount ≤ hooks.part_available value
      → hooks.part_allocate kwargs value amount ≡ ok (piece, left)
      → μ piece + μ left ≡ μ value
  pub nothing : (value : V) → hooks.part_available value ≡ 0 → μ value ≡ 0

-- One round of the loop that has ended well.
pub record Round {K V : Type 0} (hooks : Hooks K V) (kwargs : K) (amount : ℕ) (part : Part V)
    (parts out kept : List (Part V)) : Type 0 where
  pub piece : V
  pub left : V
  pub out' : List (Part V)
  pub kept' : List (Part V)
  pub used' : ℕ
  pub taken : ℕ
  pub taken_is : taken ≡ min (hooks.part_available part.value) amount
  pub split : hooks.part_allocate kwargs part.value taken ≡ ok (piece, left)
  pub rest : draw hooks kwargs (amount - taken) parts ≡ ok (out', kept', used')
  pub out_is : out ≡ record part { value = piece } ∷ out'
  pub kept_is : kept ≡ keep_part hooks (record part { value = left }) kept'

module _ {K V : Type 0} (hooks : Hooks K V) (kwargs : K) where
  pub draw_cases :
      (amount : ℕ) (part : Part V) (parts out kept : List (Part V)) (used : ℕ)
      → draw hooks kwargs amount (part ∷ parts) ≡ ok (out, kept, used)
      → (out ≡ []) × (kept ≡ part ∷ parts) ⊎ Round hooks kwargs amount part parts out kept
  unfolding draw
  draw_cases amount part parts out kept used e = elim (Bool-cases (ltb 0 amount)) [
    | inl more ↦
        let taken = min (hooks.part_available part.value) amount in
        let ((piece, left), split, e1) = >>=-eq-ok _ _ (rw more at e) in
        let ((out', kept', used'), rest, e2) = >>=-eq-ok _ _ e1 in
        inr (record {
          piece = piece;
          left = left;
          out' = out';
          kept' = kept';
          used' = used';
          taken = taken;
          taken_is = refl;
          split = split;
          rest = rest;
          out_is = cc;
          kept_is = cc;
        })
    | inr done ↦ inl (ground arith, ground arith)
  ]

module _ {K V : Type 0} (hooks : Hooks K V) (kwargs : K) (μ : V → ℕ)
    (measure : IsMeasure hooks kwargs μ) where
  abbrev total : List (Part V) → ℕ
  total = sum_of (λ p. μ p.value)

  total-keep_part :
      (part : Part V) (kept : List (Part V))
      → total (keep_part hooks part kept) ≡ μ part.value + total kept
  total-keep_part part kept = ground (arith, measure.nothing part.value)

  -- What is taken and what is kept have together what was there.
  pub draw_measure :
      (amount : ℕ) (parts out kept : List (Part V)) (used : ℕ)
      → draw hooks kwargs amount parts ≡ ok (out, kept, used)
      → total out + total kept ≡ total parts
  unfolding draw
  draw_measure amount [] out kept used e = ground arith
  draw_measure amount (part ∷ parts) out kept used e =
      elim (draw_cases hooks kwargs amount part parts out kept used e) [
        | inl (none_out, all_kept) ↦ rw (none_out, all_kept) (omega arith)
        | inr r ↦
            rw (r.out_is, r.kept_is, total-keep_part)
              (omega (
                arith,
                measure.split part.value r.taken r.piece r.left (omega (arith, r.taken_is)) r.split,
                draw_measure (amount - r.taken) parts r.out' r.kept' r.used' r.rest,
              ))
      ]
