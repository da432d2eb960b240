-- ===== src/Scheduler/Resource/View.antt =====
-- The loop of `Resource.allocate` on a list view of the parts.
use katsdpcontroller.Prelude.{
  string_eq, join_last, join_spent, ℕ, ◌-◌, ◌<◌, ◌≡◌, inl, inr, refl, List, [], ◌∷◌, ◌++◌, arith,
  ap, ◌==◌, nat_eq, flat_map, Bool-cases,
}
use katsdpcontroller.Errors.{ok}
use katsdpcontroller.Scheduler.Resource.{Part, Hooks, draw, keep_part}
use katsdpcontroller.Scheduler.Resource.Loop.{IsLawful, Round, draw_cases}

-- A list view that each split cuts in two, the piece first.
pub record IsView {ℓ} {K V : Type 0} {X : Type ℓ} (hooks : Hooks K V) (kwargs : K)
    (view : V → List X) : Type ℓ where
  pub cut :
      (value : V) (amount : ℕ) (piece left : V)
      → hooks.part_allocate kwargs value amount ≡ ok (piece, left)
      → view piece ++ view left ≡ view value
  pub nothing : (value : V) → hooks.part_available value ≡ 0 → view value ≡ []

module _ {ℓ} {K V : Type 0} {X : Type ℓ} (hooks : Hooks K V) (kwargs : K) (view : V → List X)
    (law : IsLawful hooks kwargs) (is_view : IsView hooks kwargs view) where
  abbrev items : List (Part V) → List X
  items = flat_map (λ p. view p.value)

  items-keep_part :
      (part : Part V) (kept : List (Part V))
      → items (keep_part hooks part kept) ≡ view part.value ++ items kept
  items-keep_part part kept = ground (arith, is_view.nothing part.value)

  draw_zero : (parts : List (Part V)) → draw hooks kwargs 0 parts ≡ ok ([], parts, 0)
  unfolding draw
  draw_zero [] = refl
  draw_zero (part ∷ parts) = refl

  -- Nothing more is taken behind a part that has something left.
  stops :
      (amount : ℕ) (part : Part V) (parts out kept : List (Part V))
      (r : Round hooks kwargs amount part parts out kept)
      → 0 < hooks.part_available r.left
      → (r.out' ≡ []) × (r.kept' ≡ parts)
  stops amount part parts out kept r some_left =
      let (piece, left, split, _, left_has) =
        law.splits part.value r.taken (omega (arith, r.taken_is)) in
      let same : left ≡ r.left = cc in
      let spent : amount - r.taken ≡ 0 = omega (arith, r.taken_is, ap hooks.part_available same) in
      let end = rw spent at r.rest in (cc (draw_zero parts), cc (draw_zero parts))

  -- The loop takes the first items, in order.
  pub draw_view :
      (amount : ℕ) (parts out kept : List (Part V)) (used : ℕ)
      → draw hooks kwargs amount parts ≡ ok (out, kept, used)
      → items out ++ items kept ≡ items parts
  unfolding draw
  draw_view amount [] out kept used e = ground arith
  draw_view amount (part ∷ parts) out kept used e =
      elim (draw_cases hooks kwargs amount part parts out kept used e) [
        | inl (none_out, all_kept) ↦ rw (none_out, all_kept)
        | inr r ↦
            let cut = is_view.cut part.value r.taken r.piece r.left r.split in
            rw (r.out_is, r.kept_is, items-keep_part)
              (elim (Bool-cases (hooks.part_available r.left == 0)) [
                | inl nothing_left ↦
                    let ih = draw_view (amount - r.taken) parts r.out' r.kept' r.used' r.rest in
                    let gone = is_view.nothing r.left (ground arith) in
                    join_spent _ _ _ _ _ _ cut gone ih
                | inr some_left ↦
                    let (no_more, all_kept) = stops amount part parts out kept r (ground arith) in
                    join_last _ _ _ _ _ _ cut (ap items no_more) (ap items all_kept)
              ])
      ]
