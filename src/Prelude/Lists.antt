-- ===== src/Prelude/Lists.antt =====
-- Lists measured by native numbers.
use Prim.Native.Nat.{ℕ, zero, suc, ◌+◌}
use mathlib.Core.Path.{◌≡◌, refl, ap, ◌∙◌}
use mathlib.Core.List.{List, [], ◌∷◌, ◌++◌, reverse, reverse-cons, append-nil, append_assoc}
use mathlib.Core.Option.{Option, none, some}
use native.Mathlib.Omega.{arith}

module _ {ℓ} {A : Type ℓ} where
  abbrev pub length : List A → ℕ
  length [] = 0
  length (x ∷ xs) = suc (length xs)

  abbrev pub get_elem? : List A → ℕ → Option A
  get_elem? [] i = none
  get_elem? (x ∷ xs) zero = some x
  get_elem? (x ∷ xs) (suc i) = get_elem? xs i

  abbrev pub set : List A → ℕ → A → List A
  set [] i v = []
  set (x ∷ xs) zero v = v ∷ xs
  set (x ∷ xs) (suc i) v = x ∷ set xs i v

  abbrev pub replicate : ℕ → A → List A
  replicate zero a = []
  replicate (suc n) a = a ∷ replicate n a

  pub length-append : (xs ys : List A) → length (xs ++ ys) ≡ length xs + length ys
  length-append [] ys = omega arith
  length-append (x ∷ xs) ys = omega (arith, length-append xs ys)

  -- The sum of a measure over a list.
  abbrev pub sum_of : (A → ℕ) → List A → ℕ
  sum_of μ [] = 0
  sum_of μ (x ∷ xs) = μ x + sum_of μ xs

  pub sum_of-append : (μ : A → ℕ) (xs ys : List A) → sum_of μ (xs ++ ys) ≡ sum_of μ xs + sum_of μ ys
  sum_of-append μ [] ys = omega arith
  sum_of-append μ (x ∷ xs) ys = omega (arith, sum_of-append μ xs ys)

  pub sum_of-reverse : (μ : A → ℕ) (xs : List A) → sum_of μ (reverse xs) ≡ sum_of μ xs
  sum_of-reverse μ [] = refl
  sum_of-reverse μ (x ∷ xs) =
      ap (sum_of μ) (reverse-cons x xs)
      ∙ omega (arith, sum_of-append μ (reverse xs) (x ∷ []), sum_of-reverse μ xs)

  -- A predicate on every element.
  abbrev pub All {κ} : (A → Type κ) → List A → Type κ
  All P [] = Unit
  All P (x ∷ xs) = P x × All P xs

  pub All-append {κ} : (P : A → Type κ) (xs ys : List A) → All P xs → All P ys → All P (xs ++ ys)
  All-append P [] ys hx hy = hy
  All-append P (x ∷ xs) ys hx hy = (hx.0, All-append P xs ys hx.1 hy)

  pub All-reverse {κ} : (P : A → Type κ) (xs : List A) → All P xs → All P (reverse xs)
  All-reverse P [] h = tt
  All-reverse P (x ∷ xs) h =
      rw reverse-cons (All-append P (reverse xs) (x ∷ []) (All-reverse P xs h.1) (h.0, tt))

-- The pieces and the rests of two cuts fit together, if the first leaves nothing or the second takes
-- nothing.
module _ {ℓ} {X : Type ℓ} (p l v a b c : List X) (cut : p ++ l ≡ v) where
  pub join_spent : l ≡ [] → a ++ b ≡ c → (p ++ a) ++ (l ++ b) ≡ v ++ c
  join_spent gone ih = rw (gone, append_assoc, ih) (ground (arith, append-nil p))

  pub join_last : a ≡ [] → b ≡ c → (p ++ a) ++ (l ++ b) ≡ v ++ c
  join_last no_more same = rw (no_more, append-nil, same, ← cut, append_assoc)

-- The concatenation of the lists that a function gives.
module _ {ℓ κ} {A : Type ℓ} {B : Type κ} where
  abbrev pub flat_map : (A → List B) → List A → List B
  flat_map f [] = []
  flat_map f (x ∷ xs) = f x ++ flat_map f xs

  pub flat_map-append :
      (f : A → List B) (xs ys : List A) → flat_map f (xs ++ ys) ≡ flat_map f xs ++ flat_map f ys
  flat_map-append f [] ys = refl
  flat_map-append f (x ∷ xs) ys = rw (flat_map-append f xs ys, append_assoc)
