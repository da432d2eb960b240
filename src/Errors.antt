-- ===== src/Errors.antt =====
-- Python's exceptions as values: those that the modelled code raises or lets through.
use katsdpcontroller.Prelude.{◌≡◌, refl, ◌⊎◌, inl, inr}

pub data Error : Type 0 where
  value_error type_error index_error key_error assertion_error stop_iteration : Error
  insufficient_resources no_addresses image_error fail_reply cancelled_error : Error

pub data Result {ℓ} (A : Type ℓ) : Type ℓ where
  ok : A → Result A
  err : Error → Result A

pub ok-injective {ℓ} : {A : Type ℓ} {x y : A} → ok x ≡ ok y → x ≡ y
ok-injective same = cc

pub Result-cases {ℓ} :
    {A : Type ℓ} (r : Result A) → ((a : A) × (r ≡ ok a)) ⊎ ((e : Error) × (r ≡ err e))
Result-cases (ok a) = inl (a, refl)
Result-cases (err e) = inr (e, refl)

-- What follows an operation that may raise.
infixl 5 ◌>>=◌
abbrev pub ◌>>=◌ {ℓ κ} : {A : Type ℓ} {B : Type κ} → Result A → (A → Result B) → Result B
err raised >>= k = err raised
ok value >>= k = k value

module _ {ℓ κ} {A : Type ℓ} {B : Type κ} where
  -- An operation that returned, with another after it: both returned.
  pub >>=-eq-ok :
      (m : Result A) (k : A → Result B) {after : B}
      → (m >>= k) ≡ ok after
      → (value : A) × (m ≡ ok value) × (k value ≡ ok after)
  >>=-eq-ok (err raised) k returned = cc
  >>=-eq-ok (ok value) k returned = (value, refl, returned)

  -- One of the two raised.
  pub >>=-eq-err :
      (m : Result A) (k : A → Result B) {e : Error}
      → (m >>= k) ≡ err e
      → (m ≡ err e) ⊎ ((value : A) × (m ≡ ok value) × (k value ≡ err e))
  >>=-eq-err (err raised) k failed = inl (cc)
  >>=-eq-err (ok value) k failed = inr (value, refl, failed)
