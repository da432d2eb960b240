-- ===== src/Scheduler/Decimals/Floats.antt =====
-- Python's `float(d)` for a `Decimal` with three decimal places: the nearest binary64 number. A
-- `Decimal` of the default context has at most 28 digits, so 64 binary places above the 53 of the
-- significand are more than enough, and 62 places below the point are enough for a thousandth.
use katsdpcontroller.Prelude.{
  ℕ, zero, suc, ◌+◌, ◌*◌, ◌^◌, ◌≤◌, ◌<◌, ◌≡◌, arith, ltb, nat_beq, if◌then◌else◌, Bool, true,
  nat_beq_iff, lt→ltb, Bool-cases, inl, inr,
}
use native.Mathlib.Nat.{pow-le-pow_right}
use katsdpcontroller.Scheduler.Decimals.{Real, round_half_even, as_decimal}

-- The number times `2 ^ (e - 64)` is less than `2 ^ 53`.
unfoldable pub fits_significand : ℕ → ℕ → Bool
fits_significand n e = ltb (n * 2 ^ e) (1000 * 2 ^ 117)

-- The greatest such exponent, up to the one given.
unfoldable pub exponent : ℕ → ℕ → ℕ
unfolding fits_significand
exponent n zero = zero
exponent n (suc e) = let rest = exponent n e in if fits_significand n (suc e) then suc e else rest

-- The number rounded to a whole number of places, half to even.
abbrev pub at_exponent : ℕ → ℕ → Real
at_exponent n e = record { num = round_half_even (n * 2 ^ e) (1000 * 2 ^ 64) * 2 ^ 64; den = 2 ^ e }

-- `float(d)`, of a number of thousandths
unfoldable pub to_float : ℕ → Real
unfolding exponent
to_float n = at_exponent n (exponent n 126)

at_least-exponent : (n c e : ℕ) → c ≤ e → fits_significand n c ≡ true → c ≤ exponent n e
unfolding exponent
at_least-exponent n c zero le fits = le
at_least-exponent n c (suc e) le fits = elim (Bool-cases (fits_significand n (suc e))) [
  | inl more ↦ rw more le
  | inr less ↦ elim (Bool-cases (nat_beq c (suc e))) [
    | inl same ↦ let is = (nat_beq_iff c (suc e)).0 same in let wrong = rw is at fits in absurd (cc)
    | inr differs ↦ let below : c ≤ e = ground arith in rw less (at_least-exponent n c e below fits)
  ]
]

fits_significand-small : (n : ℕ) → n < 1000 * 2 ^ 43 → fits_significand n 74 ≡ true
unfolding fits_significand
fits_significand-small n small = lt→ltb (n * 2 ^ 74) (1000 * 2 ^ 117) (omega arith)

round_close :
    (x d : ℕ)
    → 0 < d
    → (2 * (round_half_even x d * d) ≤ 2 * x + d) × (2 * x ≤ 2 * (round_half_even x d * d) + d)
unfolding round_half_even
round_close x d pos = grind arith

-- Less than half of the denominator away.
round_near :
    (x d n : ℕ)
    → 0 < d
    → 2 * x < 2 * (n * d) + d
    → 2 * (n * d) < 2 * x + d
    → round_half_even x d ≡ n
round_near x d n pos above below =
    let close = round_close x d pos in
    unique (round_half_even x d) (omega (arith, close.0)) (omega (arith, close.1))
  where
    unique : (y : ℕ) → y * d < n * d + d → n * d < y * d + d → y ≡ n
    unique y low high = grind arith

-- Back to thousandths, where the float is within half a place of the number.
back :
    (n m p : ℕ)
    → 2 ^ 74 ≤ p
    → 2 * (m * (1000 * 2 ^ 64)) ≤ 2 * (n * p) + 1000 * 2 ^ 64
    → 2 * (n * p) ≤ 2 * (m * (1000 * 2 ^ 64)) + 1000 * 2 ^ 64
    → round_half_even (m * 2 ^ 64 * 1000) p ≡ n
back n m p big above below =
    round_near (m * 2 ^ 64 * 1000) p n (omega (arith, big)) (omega (arith, above, big))
      (omega (arith, below, big))

as_decimal-at_exponent : (n e : ℕ) → 74 ≤ e → as_decimal (at_exponent n e) ≡ n
unfolding as_decimal
as_decimal-at_exponent n e enough =
    let close = round_close (n * 2 ^ e) (1000 * 2 ^ 64) (omega arith) in
    back n (round_half_even (n * 2 ^ e) (1000 * 2 ^ 64)) (2 ^ e)
      (pow-le-pow_right (omega arith) enough) close.0 close.1

-- A number below 2 ^ 43, in thousandths, is not changed by going through a float.
pub as_decimal-to_float : (n : ℕ) → n < 1000 * 2 ^ 43 → as_decimal (to_float n) ≡ n
unfolding to_float
as_decimal-to_float n small =
    as_decimal-at_exponent n (exponent n 126)
      (at_least-exponent n 74 126 (omega arith) (fits_significand-small n small))
