-- ===== src/Prelude/Dicts.antt =====
-- Python's `dict` with string keys, as a list of entries in insertion order.
use Prim.Native.String.{String}
use mathlib.Core.Path.{◌≡◌, refl, ap, subst}
use mathlib.Core.Logic.{inl, inr}
use mathlib.Core.Bool.{true, false}
use mathlib.Core.Option.{Option, none, some}
use mathlib.Core.List.{List, [], ◌∷◌}
use native.Mathlib.Omega.{arith}
use katsdpcontroller.Prelude.Keys.{◌==◌, string_eq}
use katsdpcontroller.Prelude.Tests.{if◌then◌else◌, Bool-cases, some_inj}
use katsdpcontroller.Prelude.Lists.{All}

abbrev pub Dict {ℓ} : Type ℓ → Type ℓ
Dict V = List (String × V)

pub same_refl : (k : String) → (k == k) ≡ true
same_refl k = (string_eq.same_iff k k).1 refl

pub same_eq : (k l : String) → (k == l) ≡ true → k ≡ l
same_eq k l h = (string_eq.same_iff k l).0 h

-- Two keys are like a third alike.
apart : (k l m : String) → (l == m) ≡ true → (k == l) ≡ (k == m)
apart k l m h = ap (λ x. k == x) (same_eq l m h)

differ : (k l m : String) → (l == m) ≡ false → (k == m) ≡ true → (k == l) ≡ false
differ k l m h g = elim (Bool-cases (k == l)) [
  | inl same ↦
      let e : (l == m) ≡ true = subst (λ x. (x == m) ≡ true) (same_eq k l same) g in absurd (cc)
  | inr other ↦ other
]

pub flip : (k l : String) → (k == l) ≡ false → (l == k) ≡ false
flip k l h = elim (Bool-cases (l == k)) [
  | inl same ↦
      let e : (k == l) ≡ true = subst (λ x. (x == l) ≡ true) (same_eq l k same) (same_refl l) in
      absurd (cc)
  | inr other ↦ other
]

module _ {ℓ} {V : Type ℓ} where
  -- d.get(k)
  abbrev pub lookup : String → Dict V → Option V
  lookup k [] = none
  lookup k (e ∷ d) = let rest = lookup k d in if k == e.0 then some e.1 else rest

  -- d[k] = v
  abbrev pub insert : String → V → Dict V → Dict V
  insert k v [] = (k, v) ∷ []
  insert k v (e ∷ d) = let rest = insert k v d in if k == e.0 then (k, v) ∷ d else e ∷ rest

  -- d.pop(k, None)
  abbrev pub remove : String → Dict V → Dict V
  remove k [] = []
  remove k (e ∷ d) = let rest = remove k d in if k == e.0 then rest else e ∷ rest

  -- No key twice.
  abbrev pub IsDict : Dict V → Type ℓ
  IsDict [] = Unit
  IsDict (e ∷ d) = (lookup e.0 d ≡ none) × IsDict d

  pub lookup-insert :
      (k l : String) (v : V) (d : Dict V)
      → lookup k (insert l v d) ≡ (if k == l then some v else lookup k d)
  lookup-insert k l v [] = refl
  lookup-insert k l v (e ∷ d) = elim (Bool-cases (l == e.0)) [
    | inl here ↦ ground (arith, apart k l e.0 here)
    | inr there ↦ ground (arith, there, differ k l e.0, lookup-insert k l v d)
  ]

  pub lookup-remove :
      (k l : String) (d : Dict V) → lookup k (remove l d) ≡ (if k == l then none else lookup k d)
  lookup-remove k l [] = ground arith
  lookup-remove k l (e ∷ d) = elim (Bool-cases (l == e.0)) [
    | inl here ↦ ground (arith, apart k l e.0 here, lookup-remove k l d)
    | inr there ↦ ground (arith, there, differ k l e.0, lookup-remove k l d)
  ]

  pub remove-absent : (k : String) (d : Dict V) → lookup k d ≡ none → remove k d ≡ d
  remove-absent k [] h = refl
  remove-absent k (e ∷ d) h = ground (arith, remove-absent k d)

  pub insert-IsDict : (k : String) (v : V) (d : Dict V) → IsDict d → IsDict (insert k v d)
  insert-IsDict k v [] h = (refl, tt)
  insert-IsDict k v (e ∷ d) h = elim (Bool-cases (k == e.0)) [
    | inl here ↦ let same = same_eq k e.0 here in rw here (rw same h.0, h.1)
    | inr there ↦
        rw there
          (ground (arith, lookup-insert e.0 k v d, h.0, flip k e.0 there), insert-IsDict k v d h.1)
  ]

  pub remove-IsDict : (k : String) (d : Dict V) → IsDict d → IsDict (remove k d)
  remove-IsDict k [] h = tt
  remove-IsDict k (e ∷ d) h = elim (Bool-cases (k == e.0)) [
    | inl here ↦ rw here (remove-IsDict k d h.1)
    | inr there ↦ rw there (ground (arith, lookup-remove e.0 k d, h.0), remove-IsDict k d h.1)
  ]

  -- What holds of every entry.
  module _ {κ} (P : String → V → Type κ) where
    abbrev pub Each : Dict V → Type κ
    Each = All (λ e. P e.0 e.1)

    pub insert-Each : (k : String) (v : V) (d : Dict V) → Each d → P k v → Each (insert k v d)
    insert-Each k v [] h p = (p, tt)
    insert-Each k v (e ∷ d) h p = elim (Bool-cases (k == e.0)) [
      | inl here ↦ rw here (p, h.1)
      | inr there ↦ rw there (h.0, insert-Each k v d h.1 p)
    ]

    pub remove-Each : (k : String) (d : Dict V) → Each d → Each (remove k d)
    remove-Each k [] h = tt
    remove-Each k (e ∷ d) h = elim (Bool-cases (k == e.0)) [
      | inl here ↦ rw here (remove-Each k d h.1)
      | inr there ↦ rw there (h.0, remove-Each k d h.1)
    ]

    pub lookup-Each : (k : String) (v : V) (d : Dict V) → Each d → lookup k d ≡ some v → P k v
    lookup-Each k v [] h found = absurd (cc)
    lookup-Each k v (e ∷ d) h found = elim (Bool-cases (k == e.0)) [
      | inl here ↦
          let same = same_eq k e.0 here in
          let value : e.1 ≡ v = some_inj (rw here at found) in rw (same, ← value) h.0
      | inr there ↦ lookup-Each k v d h.1 (rw there at found)
    ]
