-- ===== src/ProductConfig/Equality.antt =====
-- Two dictionaries are equal in Python just when they agree at every key. product_config.py.
use katsdpcontroller.Prelude.{
  ◌==◌, Keyed, nat_eq, string_eq, ℕ, ◌+◌, ◌≤◌, ◌≡◌, Bool, true, false, ◌&&◌, Option, none, some, [],
  ◌∷◌, String, Dict, lookup, remove, IsDict, lookup-remove, remove-IsDict, remove-absent, refl,
  arith, ◌∙◌, inl, inr, Bool-cases, same_eq, same_refl, ap, subst, sym, Option-cases, some_inj,
}
use katsdpcontroller.ProductConfig.{Json, Fields, object, close, field, entries, get}
use katsdpcontroller.ProductConfig.Difference.{same, same_fields, same_at, size}
use katsdpcontroller.ProductConfig.Merging.{IsUnique}

module _ {ℓ} {V : Type ℓ} where
  abbrev pub count : Dict V → ℕ
  count [] = 0
  count (e ∷ d) = count d + 1

  count-remove :
      (k : String) (v : V) (d : Dict V)
      → IsDict d
      → lookup k d ≡ some v
      → count d ≡ count (remove k d) + 1
  count-remove k v [] h found = absurd (cc)
  count-remove k v (e ∷ d) h found = elim (Bool-cases (k == e.0)) [
    | inl here ↦
        let absent : lookup k d ≡ none = rw (same_eq k e.0 here) h.0 in
        rw (here, remove-absent k d absent) refl
    | inr there ↦ rw there (ap (λ n. n + 1) (count-remove k v d h.1 (rw there at found)))
  ]

  -- Every key of the one is in the other.
  abbrev pub Covers : Dict V → Dict V → Type ℓ
  Covers d e = (k : String) → lookup k e ≡ none → lookup k d ≡ none

  pub Covers-tail :
      (e : String × V) (d : Dict V) (k : String) → lookup k (e ∷ d) ≡ none → lookup k d ≡ none
  Covers-tail e d k h = ground arith

  -- The key of an entry is there.
  pub covered_head :
      (e : String × V) (d d' : Dict V) → Covers (e ∷ d) d' → (v : V) × (lookup e.0 d' ≡ some v)
  covered_head e d d' c = elim (Option-cases (lookup e.0 d')) [
    | inr found ↦ found
    | inl absent ↦
        let none_there = c e.0 absent in let here = same_refl e.0 in absurd (ground arith)
  ]

  Covers-remove :
      (e : String × V) (d d' : Dict V)
      → IsDict (e ∷ d)
      → Covers (e ∷ d) d'
      → Covers d (remove e.0 d')
  Covers-remove e d d' h c k absent = elim (Bool-cases (k == e.0)) [
    | inl same ↦ rw (same_eq k e.0 same) h.0
    | inr other ↦
        let gone : lookup k d' ≡ none = rw (lookup-remove k e.0 d', other) at absent in
        Covers-tail e d k (c k gone)
  ]

  Covers-count : (d d' : Dict V) → IsDict d → IsDict d' → Covers d d' → count d ≤ count d'
  Covers-count [] d' h h' c = omega arith
  Covers-count (e ∷ d) d' h h' c =
      let (v, found) = covered_head e d d' c in
      let less =
        Covers-count d (remove e.0 d') h.1 (remove-IsDict e.0 d' h') (Covers-remove e d d' h c) in
      let all = count-remove e.0 v d' h' found in omega arith

  -- As many keys, all of them in the other: there are no others.
  pub Covers-full :
      (d d' : Dict V) → IsDict d → IsDict d' → Covers d d' → count d' ≤ count d → Covers d' d
  Covers-full d d' h h' c few k absent = elim (Option-cases (lookup k d')) [
    | inl gone ↦ gone
    | inr (v, found) ↦
        let less = Covers-count d (remove k d') h (remove-IsDict k d' h') (λ l e.
          elim (Bool-cases (l == k)) [
            | inl same ↦ rw (same_eq l k same) absent
            | inr other ↦ c l (rw (lookup-remove l k d', other) at e)
          ]) in
        let all = count-remove k v d' h' found in absurd (omega arith)
  ]

  pub Covers-equal :
      (d d' : Dict V) → IsDict d → IsDict d' → Covers d d' → Covers d' d → count d ≡ count d'
  Covers-equal d d' h h' c c' =
      let less = Covers-count d d' h h' c in let more = Covers-count d' d h' h c' in omega arith

module _ {A : Type 0} where
  pub size-count : (m : Fields A) → size m ≡ count (entries m)
  size-count close = refl
  size-count (field k v m) = ap (λ n. n + 1) (size-count m)

module _ {A : Type 0} ⦃keyed : Keyed A⦄ where
  -- The same value, or none on either side.
  abbrev pub agrees : Option (Json A) → Option (Json A) → Bool
  agrees none none = true
  agrees (some v) (some w) = same v w
  agrees v w = false

  same_fields-field :
      (l : String) (w : Json A) (a b : Fields A)
      → same_fields (field l w a) b ≡ (same_at w (get l b) && same_fields a b)
  unfolding same
  same_fields-field l w a b = elim (Option-cases (get l b)) [
    | inl absent ↦ rw absent refl
    | inr (v, found) ↦ rw found refl
  ]

  pub same_fields-get :
      (a b : Fields A) (k : String) (v : Json A)
      → same_fields a b ≡ true
      → get k a ≡ some v
      → same_at v (get k b) ≡ true
  same_fields-get close b k v h found = absurd (cc)
  same_fields-get (field l w a) b k v h found =
      let both : (same_at w (get l b) && same_fields a b) ≡ true =
        sym (same_fields-field l w a b) ∙ h in
      elim (Bool-cases (k == l)) [
        | inl same' ↦
            let value : w ≡ v = some_inj (rw same' at found) in
            rw (same_eq k l same', ← value) (ground arith)
        | inr other ↦ same_fields-get a b k v (ground arith) (rw other at found)
      ]

  pub get-same_fields :
      (a b : Fields A)
      → IsUnique a
      → ((k : String) (v : Json A) → get k a ≡ some v → same_at v (get k b) ≡ true)
      → same_fields a b ≡ true
  unfolding same
  get-same_fields close b h each = refl
  get-same_fields (field l w a) b h each =
      let here : same_at w (get l b) ≡ true = each l w (rw (same_refl l) refl) in
      let rest : same_fields a b ≡ true =
        get-same_fields a b h.1 (λ k v found. each k v (later k v found)) in
      same_fields-field l w a b ∙ rw (here, rest) refl
    where
      later : (k : String) (v : Json A) → get k a ≡ some v → get k (field l w a) ≡ some v
      later k v found = elim (Bool-cases (k == l)) [
        | inr other ↦ rw other found
        | inl same' ↦ let gone : get k a ≡ none = rw (same_eq k l same') h.0 in absurd (cc)
      ]

  same_at-agrees :
      (v : Json A) (o : Option (Json A)) → same_at v o ≡ true → agrees (some v) o ≡ true
  same_at-agrees v none h = absurd (cc)
  same_at-agrees v (some w) h = h

  agrees-none : (o : Option (Json A)) → agrees none o ≡ true → o ≡ none
  agrees-none none h = refl
  agrees-none (some w) h = absurd (cc)

  none-agrees : (o : Option (Json A)) → agrees o none ≡ true → o ≡ none
  none-agrees none h = refl
  none-agrees (some w) h = absurd (cc)

  pub same-object :
      (a b : Fields A)
      → same (object a) (object b) ≡ (nat_eq.same (size a) (size b) && same_fields a b)
  unfolding same
  same-object a b = refl

  module _ (a b : Fields A) (h : IsUnique a) (g : IsUnique b) where
    fields-Covers : same_fields a b ≡ true → Covers (entries a) (entries b)
    fields-Covers e k absent = elim (Option-cases (get k a)) [
      | inl gone ↦ gone
      | inr (v, found) ↦
          let there = same_fields-get a b k v e found in
          let wrong = rw absent at there in absurd (cc)
    ]

    pub same-agrees :
        same (object a) (object b) ≡ true → (k : String) → agrees (get k a) (get k b) ≡ true
    same-agrees e k =
        let both = sym (same-object a b) ∙ e in
        let values : same_fields a b ≡ true = ground arith in
        let sizes = (nat_eq.same_iff (size a) (size b)).0 (ground arith) in
        let counts : count (entries a) ≡ count (entries b) =
          sym (size-count a) ∙ sizes ∙ size-count b in
        elim (Option-cases (get k a)) [
          | inr (v, found) ↦
              rw found (same_at-agrees v (get k b) (same_fields-get a b k v values found))
          | inl absent ↦
              let gone =
                Covers-full (entries a) (entries b) h g (fields-Covers values) (omega arith) k
                  absent in
              rw (absent, gone) refl
        ]

    pub agrees-same :
        ((k : String) → agrees (get k a) (get k b) ≡ true) → same (object a) (object b) ≡ true
    agrees-same each =
        let values = get-same_fields a b h (λ k v found. there k v found) in
        let counts =
          Covers-equal (entries a) (entries b) h g
            (λ k absent.
              none-agrees (get k a) (subst (λ o. agrees (get k a) o ≡ true) absent (each k)))
            (λ k absent.
              agrees-none (get k b) (subst (λ o. agrees o (get k b) ≡ true) absent (each k))) in
        let sizes : size a ≡ size b = size-count a ∙ counts ∙ sym (size-count b) in
        same-object a b ∙ rw ((nat_eq.same_iff (size a) (size b)).1 sizes, values) refl
      where
        agrees_at :
            (v : Json A) (o : Option (Json A)) → agrees (some v) o ≡ true → same_at v o ≡ true
        agrees_at v none e = absurd (cc)
        agrees_at v (some w) e = e

        there : (k : String) (v : Json A) → get k a ≡ some v → same_at v (get k b) ≡ true
        there k v found =
            agrees_at v (get k b) (subst (λ o. agrees o (get k b) ≡ true) found (each k))
