-- ===== src/Scheduler/Decimals.antt =====
-- `_as_decimal` of scheduler.py. A number that is cast is a non-negative rational; a `Decimal` with
-- three decimal places is its count of thousandths.
pub mod Floats
use katsdpcontroller.Prelude.{
  ℕ, ◌+◌, ◌*◌, ◌/◌, ◌%◌, ◌≤◌, ◌<◌, ◌≡◌, arith, ltb, nat_beq, if◌then◌else◌,
}

pub record Real : Type 0 where
  pub num : ℕ
  pub den : ℕ

-- The default context rounds half to even.
unfoldable pub round_half_even : ℕ → ℕ → ℕ
round_half_even n d =
    let q = n / d in
    let r = n % d in
    if ltb (2 * r) d
    then q
    else if ltb d (2 * r)
    then q + 1
    else if nat_beq (q % 2) 0
    then q
    else q + 1

unfoldable pub as_decimal : Real → ℕ
unfolding round_half_even
as_decimal v = round_half_even (v.num * 1000) v.den

-- A `Decimal` read as a number.
abbrev pub to_real : ℕ → Real
to_real k = record { num = k; den = 1000 }

-- Casting a number to a decimal with three places moves it by at most half a thousandth.
pub as_decimal_close :
    (v : Real)
    → 0 < v.den
    → (2 * (as_decimal v * v.den) ≤ 2 * (v.num * 1000) + v.den)
      × (2 * (v.num * 1000) ≤ 2 * (as_decimal v * v.den) + v.den)
unfolding as_decimal
as_decimal_close v h = grind arith

-- A value that has three decimal places already is kept.
pub as_decimal-to_real : (k : ℕ) → as_decimal (to_real k) ≡ k
unfolding as_decimal
as_decimal-to_real k = ground arith
