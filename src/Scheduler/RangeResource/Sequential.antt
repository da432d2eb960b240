-- ===== src/Scheduler/RangeResource/Sequential.antt =====
-- The sequential allocation of `RangeResource`.
use katsdpcontroller.Prelude.{
  ap₂, sym, ◌∙◌, ℕ, zero, suc, ◌+◌, ◌-◌, ◌≤◌, ◌<◌, min, ◌≡◌, refl, ap, none, List, [], ◌∷◌, ◌++◌,
  reverse, reverse-reverse, ltb, sum_of-reverse, flat_map, Bool-cases, inl, inr, arith, join_spent,
  join_last,
}
use katsdpcontroller.Errors.{ok, Result-cases}
use katsdpcontroller.Scheduler.Resource.{Range}
use katsdpcontroller.Scheduler.Resource.Loop.{IsLawful}
use katsdpcontroller.Scheduler.Resource.View.{IsView}
use katsdpcontroller.Scheduler.RangeResource.{
  size, total, carve, part_allocate, range_hooks, numbers, part_items,
}
use katsdpcontroller.Scheduler.RangeResource.Counting.{count_up, numbers-count_up}

record Carved (amount : ℕ) (rs : List Range) : Type 0 where
  out : List Range
  kept : List Range
  done : carve amount rs ≡ ok (out, kept)
  taken : total out ≡ amount
  left : total kept + amount ≡ total rs

carve_total : (amount : ℕ) (rs : List Range) → amount ≤ total rs → Carved amount rs
unfolding carve
carve_total amount [] fits = record {
  out = [];
  kept = [];
  done = ground arith;
  taken = omega arith;
  left = omega arith;
}
carve_total amount (r ∷ rs) fits =
    let taken = min amount (size r) in
    let left : Range = record r { begin = r.begin + taken } in
    let ih = carve_total (amount - taken) rs (omega arith) in
    elim (Bool-cases (ltb 0 amount)) [
      | inl more ↦ elim (Bool-cases (ltb left.last left.begin)) [
        | inl gone ↦ record {
          out = record { begin = r.begin; last = r.begin + taken - 1 } ∷ ih.out;
          kept = ih.kept;
          done = rw (more, ih.done, gone);
          taken = ground (arith, ih.taken);
          left = ground (arith, ih.left);
        }
        | inr some_left ↦ record {
          out = record { begin = r.begin; last = r.begin + taken - 1 } ∷ ih.out;
          kept = left ∷ ih.kept;
          done = rw (more, ih.done, some_left);
          taken = ground (arith, ih.taken);
          left = ground (arith, ih.left);
        }
      ]
      | inr done ↦ record {
        out = [];
        kept = r ∷ rs;
        done = ground arith;
        taken = ground arith;
        left = ground arith;
      }
    ]

count_up-append : (b n m : ℕ) → count_up b n ++ count_up (b + n) m ≡ count_up b (n + m)
count_up-append b zero m =
    let e : b + 0 ≡ b = omega arith in let f : 0 + m ≡ m = omega arith in rw (e, f)
count_up-append b (suc n) m =
    let e : b + suc n ≡ (b + 1) + n = omega arith in
    let f : suc n + m ≡ suc (n + m) = omega arith in
    rw (e, f) (ap (λ l. b ∷ l) (count_up-append (b + 1) n m))

-- A range cut behind its first `taken` numbers.
numbers-cut :
    (b e taken : ℕ)
    → taken ≤ e + 1 - b
    → 0 < b + taken
    → numbers (record { begin = b; last = b + taken - 1 })
        ++ numbers (record { begin = b + taken; last = e })
      ≡ numbers (record { begin = b; last = e })
numbers-cut b e taken fits pos =
    let p : b + taken - 1 + 1 - b ≡ taken = omega arith in
    let q : taken + (e + 1 - (b + taken)) ≡ e + 1 - b = omega arith in
    let counts : count_up b (b + taken - 1 + 1 - b) ++ count_up (b + taken) (e + 1 - (b + taken))
        ≡ count_up b (e + 1 - b) =
      rw (p, ← q) (count_up-append b taken (e + 1 - (b + taken))) in
    ap₂ (λ xs ys. xs ++ ys) (numbers-count_up (record { begin = b; last = b + taken - 1 }))
      (numbers-count_up (record { begin = b + taken; last = e }))
    ∙ counts
    ∙ sym (numbers-count_up (record { begin = b; last = e }))

numbers-gone : (b e : ℕ) → e < b → numbers (record { begin = b; last = e }) ≡ []
numbers-gone b e h =
    let z : e + 1 - b ≡ 0 = omega arith in
    numbers-count_up (record { begin = b; last = e }) ∙ rw z refl

carve_zero : (rs : List Range) → carve 0 rs ≡ ok ([], rs)
unfolding carve
carve_zero [] = refl
carve_zero (r ∷ rs) = refl

carve_view :
    (amount : ℕ) (rs out kept : List Range)
    → carve amount rs ≡ ok (out, kept)
    → flat_map numbers out ++ flat_map numbers kept ≡ flat_map numbers rs
unfolding carve
carve_view amount [] out kept e = ground arith
carve_view amount (r ∷ rs) out kept e =
    let taken = min amount (size r) in
    let left : Range = record r { begin = r.begin + taken } in
    let piece : Range = record { begin = r.begin; last = r.begin + taken - 1 } in
    elim (Bool-cases (ltb 0 amount)) [
      | inl more ↦ elim (Result-cases (carve (amount - taken) rs)) [
        | inl ((out', kept'), rest) ↦
            let cut = numbers-cut r.begin r.last taken (omega arith) (ground arith) in
            elim (Bool-cases (ltb left.last left.begin)) [
              | inl gone ↦
                  let ih = carve_view (amount - taken) rs out' kept' rest in
                  let eq = rw (more, rest, gone) at e in
                  let out_is : out ≡ piece ∷ out' = cc in
                  let kept_is : kept ≡ kept' = cc in
                  rw (out_is, kept_is)
                    (join_spent (numbers piece) [] (numbers r) (flat_map numbers out')
                      (flat_map numbers kept') (flat_map numbers rs)
                      (rw (numbers-gone left.begin left.last (ground arith)) at cut) refl ih)
              | inr some_left ↦
                  let eq = rw (more, rest, some_left) at e in
                  let out_is : out ≡ piece ∷ out' = cc in
                  let kept_is : kept ≡ left ∷ kept' = cc in
                  let spent : amount - taken ≡ 0 = ground arith in
                  let end = rw spent at rest in
                  let no_more : out' ≡ [] = cc (carve_zero rs) in
                  let all_kept : kept' ≡ rs = cc (carve_zero rs) in
                  rw (out_is, kept_is)
                    (join_last (numbers piece) (numbers left) (numbers r) (flat_map numbers out')
                      (flat_map numbers kept') (flat_map numbers rs) cut
                      (ap (flat_map numbers) no_more) (ap (flat_map numbers) all_kept))
            ]
        | inr (error, failed) ↦ absurd (cc (rw (more, failed) at e))
      ]
      | inr done ↦ ground arith
    ]

pub sequential-IsLawful : IsLawful range_hooks none
unfolding part_allocate
sequential-IsLawful = record {
  splits = λ stored amount fits.
      let c = carve_total amount (reverse stored) (omega (arith, sum_of-reverse size stored)) in
      (
        reverse c.out,
        reverse c.kept,
        rw c.done,
        omega (arith, c.taken, sum_of-reverse size c.out),
        omega (arith, c.left, sum_of-reverse size c.kept, sum_of-reverse size stored),
      );
}

part_items_cut :
    (stored : List Range) (amount : ℕ) (piece left : List Range)
    → part_allocate none stored amount ≡ ok (piece, left)
    → part_items piece ++ part_items left ≡ part_items stored
unfolding part_allocate
part_items_cut stored amount piece left e = elim (Result-cases (carve amount (reverse stored))) [
  | inl ((out, kept), done) ↦
      let eq = rw done at e in
      let piece_is : piece ≡ reverse out = cc in
      let left_is : left ≡ reverse kept = cc in
      rw (piece_is, left_is, reverse-reverse out, reverse-reverse kept)
        (carve_view amount (reverse stored) out kept done)
  | inr (error, failed) ↦ absurd (cc (rw failed at e))
]

numbers_nothing : (rs : List Range) → total rs ≡ 0 → flat_map numbers rs ≡ []
numbers_nothing [] h = refl
numbers_nothing (r ∷ rs) h =
    let here : size r ≡ 0 = omega arith in
    let gone : numbers r ≡ [] = numbers-count_up r ∙ rw here refl in
    rw gone (numbers_nothing rs (omega arith))

pub sequential-IsView : IsView range_hooks none part_items
sequential-IsView = record {
  cut = part_items_cut;
  nothing =
      λ stored gone. numbers_nothing (reverse stored) (omega (arith, sum_of-reverse size stored));
}
