-- ===== src/Scheduler/ScalarResource.antt =====
-- `ScalarResource` of scheduler.py. A part holds its thousandths; the
-- message of a task holds a float.
use katsdpcontroller.Prelude.{ℕ, ◌*◌, ◌^◌, ◌<◌, ◌-◌, ◌≡◌, refl, false, arith}
use katsdpcontroller.Errors.{Result, ok, err, type_error}
use katsdpcontroller.Scheduler.Decimals.Floats.{to_float, as_decimal-to_float}
use katsdpcontroller.Scheduler.Decimals.{Real, as_decimal, to_real, as_decimal-to_real}
use katsdpcontroller.Scheduler.Resource.{Value, scalar, Hooks, Resource, allocate}
use katsdpcontroller.Scheduler.Resource.Loop.{IsLawful}

unfoldable pub transform : Value → Result ℕ
transform (scalar v) = ok (as_decimal v)
transform _ = err type_error

unfoldable pub untransform : ℕ → Value
untransform amount = scalar (to_float amount)

abbrev pub scalar_hooks : Hooks Unit ℕ
scalar_hooks = record {
  has_kwargs = λ _. false;
  transform = transform;
  untransform = untransform;
  part_available = λ amount. amount;
  part_allocate = λ _ held amount. ok (amount, held - amount);
}

pub scalar-IsLawful : IsLawful scalar_hooks tt
scalar-IsLawful = record {
  splits = λ held amount fits. (amount, held - amount, refl, refl, omega arith);
}

abbrev pub ScalarResource : Type 0
ScalarResource = Resource ℕ

-- `ScalarResourceRequest.amount`
unfoldable pub request_amount : Real → Real
request_amount value = to_real (as_decimal value)

-- `allocate` casts its argument first.
unfoldable pub scalar_allocate : Real → ScalarResource → Result (ScalarResource × ScalarResource)
scalar_allocate amount self = allocate scalar_hooks tt (as_decimal amount) self

-- A decimal amount below 2 ** 43 that is written into a scalar message as a binary64 float and
-- read back is the same amount.
pub transform-untransform :
    (amount : ℕ) → amount < 1000 * 2 ^ 43 → transform (untransform amount) ≡ ok amount
unfolding transform untransform
transform-untransform amount small = rw (as_decimal-to_float amount small)

pub as_decimal-request_amount :
    (value : Real) → as_decimal (request_amount value) ≡ as_decimal value
unfolding request_amount
as_decimal-request_amount value = as_decimal-to_real (as_decimal value)
