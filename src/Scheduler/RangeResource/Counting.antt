-- ===== src/Scheduler/RangeResource/Counting.antt =====
-- Python's ranges, by their first number and how many there are.
use katsdpcontroller.Prelude.{
  ℕ, zero, suc, ◌+◌, ◌-◌, ◌≡◌, refl, ap, sym, List, [], ◌∷◌, ◌++◌, ltb, Bool-cases, inl, inr, arith,
}
use katsdpcontroller.Scheduler.Resource.{Range}
use katsdpcontroller.Scheduler.RangeResource.{range_up, range_down, numbers, size}

abbrev pub count_up : ℕ → ℕ → List ℕ
count_up b zero = []
count_up b (suc n) = b ∷ count_up (b + 1) n

abbrev pub count_down : ℕ → ℕ → List ℕ
count_down b zero = []
count_down b (suc n) = (b + n) ∷ count_down b n

pub count_up-snoc : (b n : ℕ) → count_up b (suc n) ≡ count_up b n ++ (b + n) ∷ []
count_up-snoc b zero = let e : b + 0 ≡ b = omega arith in rw e
count_up-snoc b (suc n) =
    let e : b + suc n ≡ b + 1 + n = omega arith in rw e (ap (λ l. b ∷ l) (count_up-snoc (b + 1) n))

range_up-count_up : (b n : ℕ) → range_up b n ≡ count_up b (n - b)
unfolding range_up
range_up-count_up b zero = let none_left : 0 - b ≡ 0 = omega arith in rw none_left refl
range_up-count_up b (suc n) = elim (Bool-cases (ltb n b)) [
  | inl before ↦ let none_left : suc n - b ≡ 0 = ground arith in rw (before, none_left) refl
  | inr there ↦
      let one_more : suc n - b ≡ suc (n - b) = ground arith in
      let last : b + (n - b) ≡ n = ground arith in
      let step = count_up-snoc b (n - b) in
      rw (there, one_more, range_up-count_up b n) (sym (rw last at step))
]

range_down-count_down : (b n : ℕ) → range_down b n ≡ count_down b (n - b)
unfolding range_down
range_down-count_down b zero = let none_left : 0 - b ≡ 0 = omega arith in rw none_left refl
range_down-count_down b (suc n) = elim (Bool-cases (ltb n b)) [
  | inl before ↦ let none_left : suc n - b ≡ 0 = ground arith in rw (before, none_left) refl
  | inr there ↦
      let one_more : suc n - b ≡ suc (n - b) = ground arith in
      let last : b + (n - b) ≡ n = ground arith in
      rw (there, one_more, last, range_down-count_down b n) refl
]

pub numbers-count_up : (r : Range) → numbers r ≡ count_up r.begin (size r)
numbers-count_up r = range_up-count_up r.begin (r.last + 1)

pub down-count_down : (r : Range) → range_down r.begin (r.last + 1) ≡ count_down r.begin (size r)
down-count_down r = range_down-count_down r.begin (r.last + 1)
