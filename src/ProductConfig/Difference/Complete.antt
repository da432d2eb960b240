-- ===== src/ProductConfig/Difference/Complete.antt =====
-- `_recursive_diff` of product_config.py finds a difference just when there is one.
use katsdpcontroller.Prelude.{
  if◌then◌else◌, ◌==◌, Keyed, nat_eq, string_eq, ◌≡◌, ◌↔◌, ◌⊎◌, true, false, not, Option, none,
  some, List, [], ◌∷◌, String, refl, arith, ◌∙◌, member, inl, inr, Bool-cases, same_eq, subst, sym,
  Option-cases, some_inj,
}
use katsdpcontroller.ProductConfig.{
  Json, Fields, null, number, string, array, object, close, field, entries, get,
}
use katsdpcontroller.ProductConfig.Difference.{
  same, same_at, size, keys, keys_without, sorted, differs_at, first_changed, choose, Difference,
  recursive_diff, diff_at, join_prefix,
}
use katsdpcontroller.ProductConfig.Merging.{IsUnique}
use katsdpcontroller.ProductConfig.Equality.{
  Covers, Covers-equal, get-same_fields, size-count, same-object, same-agrees, agrees,
}
use katsdpcontroller.ProductConfig.Difference.Keys.{
  sorted-nil, sorted-member, member-keys, keys_without-nil, nil-keys_without,
}

-- No key twice, at any depth.
unfoldable mutual
  pub IsWell : {A : Type 0} → Json A → Type 0
  IsWell null = Unit
  IsWell (number x) = Unit
  IsWell (string t) = Unit
  IsWell (array xs) = Unit
  IsWell (object m) = IsUnique m × AreWell m

  pub AreWell : {A : Type 0} → Fields A → Type 0
  AreWell close = Unit
  AreWell (field k v m) = IsWell v × AreWell m

module _ {A : Type 0} where
  pub IsWell-get :
      (m : Fields A) (k : String) (v : Json A) → AreWell m → get k m ≡ some v → IsWell v
  unfolding IsWell
  IsWell-get close k v h e = absurd (cc)
  IsWell-get (field l w m) k v h e = elim (Bool-cases (k == l)) [
    | inl same' ↦ let is : w ≡ v = some_inj (rw same' at e) in subst IsWell is h.0
    | inr other ↦ IsWell-get m k v h.1 (rw other at e)
  ]

module _ {A : Type 0} ⦃keyed : Keyed A⦄ where
  unchanged :
      (ks : List String) (a b : Fields A) (k : String)
      → first_changed ks a b ≡ none
      → member k ks ≡ true
      → differs_at k a b ≡ false
  unchanged [] a b k e m = absurd (cc)
  unchanged (l ∷ ks) a b k e m = elim (Bool-cases (differs_at l a b)) [
    | inl unequal ↦ let wrong = rw unequal at e in absurd (cc)
    | inr alike ↦ elim (Bool-cases (k == l)) [
      | inl same' ↦ rw (same_eq k l same') alike
      | inr other ↦ unchanged ks a b k (rw alike at e) (rw other at m)
    ]
  ]

  first_differs :
      (ks : List String) (a b : Fields A) (k : String)
      → first_changed ks a b ≡ some k
      → differs_at k a b ≡ true
  first_differs [] a b k e = absurd (cc)
  first_differs (l ∷ ks) a b k e = elim (Bool-cases (differs_at l a b)) [
    | inl unequal ↦ let is = some_inj (rw unequal at e) in rw (← is) unequal
    | inr alike ↦ first_differs ks a b k (rw alike at e)
  ]

  none_changed :
      (ks : List String) (a b : Fields A)
      → ((k : String) → differs_at k a b ≡ false)
      → first_changed ks a b ≡ none
  none_changed [] a b all = refl
  none_changed (k ∷ ks) a b all = rw (all k) (none_changed ks a b all)

  recursive_diff-object :
      (a b : Fields A) (prefix : String)
      → recursive_diff (object a) (object b) prefix
        ≡ choose prefix
            (sorted (keys_without a b))
            (sorted (keys_without b a))
            (first_changed (sorted (keys a)) a b)
            (λ k. diff_at k a b (join_prefix prefix k))
  unfolding recursive_diff
  recursive_diff-object a b prefix = refl

  -- Why no difference was found.
  choose-none :
      (prefix : String) (old new : List String) (first : Option String)
      (deeper : String → Option (Difference A))
      → choose prefix old new first deeper ≡ none
      → (old ≡ [])
        × (new ≡ [])
        × ((first ≡ none) ⊎ ((k : String) × (first ≡ some k) × (deeper k ≡ none)))
  choose-none prefix (k ∷ ks) new first deeper e = absurd (cc)
  choose-none prefix [] (k ∷ ks) first deeper e = absurd (cc)
  choose-none prefix [] [] none deeper e = (refl, refl, inl refl)
  choose-none prefix [] [] (some k) deeper e = (refl, refl, inr (k, refl, e))

  same_at_of :
      (k : String) (a b : Fields A) (v : Json A)
      → differs_at k a b ≡ false
      → get k a ≡ some v
      → same_at v (get k b) ≡ true
  same_at_of k a b v e found =
      let alike : not (same_at v (get k b)) ≡ false = rw found at e in ground arith

  diff_at-here :
      (l : String) (x : Json A) (a b : Fields A) (k prefix : String) (w : Json A)
      → get k b ≡ some w
      → diff_at k (field l x a) b prefix
        ≡ (if k == l then recursive_diff x w prefix else diff_at k a b prefix)
  unfolding recursive_diff
  diff_at-here l x a b k prefix w found = rw found refl

  -- As many keys, with the same values.
  equal_of :
      (a b : Fields A)
      → IsUnique a
      → IsUnique b
      → keys_without a b ≡ []
      → keys_without b a ≡ []
      → ((k : String) (v : Json A) → get k a ≡ some v → same_at v (get k b) ≡ true)
      → same (object a) (object b) ≡ true
  equal_of a b h g old new each =
      let counts =
        Covers-equal (entries a) (entries b) h g (keys_without-nil a b old)
          (keys_without-nil b a new) in
      let sizes : size a ≡ size b = size-count a ∙ counts ∙ sym (size-count b) in
      same-object a b
      ∙ rw ((nat_eq.same_iff (size a) (size b)).1 sizes, get-same_fields a b h each) refl

  -- A key whose value has changed, and is not gone.
  two_values :
      (a b : Fields A) (k : String)
      → Covers (entries a) (entries b)
      → differs_at k a b ≡ true
      → (v : Json A) × (w : Json A) × (get k a ≡ some v) × (get k b ≡ some w) × (same v w ≡ false)
  two_values a b k c unequal = elim (Option-cases (get k a)) [
    | inl none_there ↦ let wrong = rw none_there at unequal in absurd (cc)
    | inr (v, found) ↦ elim (Option-cases (get k b)) [
      | inl absent ↦ let none_there = c k absent in absurd (cc)
      | inr (w, found') ↦
          let unlike : not (same v w) ≡ true = rw (found, found') at unequal in
          (v, w, found, found', ground arith)
    ]
  ]

  mutual
    unfolding recursive_diff IsWell

    diff-same :
        (a b : Json A) (prefix : String)
        → IsWell a
        → IsWell b
        → recursive_diff a b prefix ≡ none
        → same a b ≡ true
    diff-same (object a) (object b) prefix h g e =
        let (old, new, deep) =
          choose-none prefix (sorted (keys_without a b)) (sorted (keys_without b a))
            (first_changed (sorted (keys a)) a b) (λ k. diff_at k a b (join_prefix prefix k)) e in
        let old' = sorted-nil (keys_without a b) old in
        let new' = sorted-nil (keys_without b a) new in
        elim deep [
          | inl first ↦ equal_of a b h.0 g.0 old' new' (λ k v found.
              same_at_of k a b v
                (unchanged (sorted (keys a)) a b k first
                  (sorted-member k (keys a) ∙ member-keys k v a found))
                found)
          | inr (k, first, nothing) ↦
              let unequal = first_differs (sorted (keys a)) a b k first in
              let (v, w, found, found', unlike) =
                two_values a b k (keys_without-nil a b old') unequal in
              let alike =
                diff_at-same a b k (join_prefix prefix k) v w h.1 g.1 nothing found found' in
              absurd (cc)
        ]
    diff-same a b prefix h g e = absurd (cc)

    diff_at-same :
        (a b : Fields A) (k prefix : String) (v w : Json A)
        → AreWell a
        → AreWell b
        → diff_at k a b prefix ≡ none
        → get k a ≡ some v
        → get k b ≡ some w
        → same v w ≡ true
    diff_at-same close b k prefix v w h g e found found' = absurd (cc)
    diff_at-same (field l x a) b k prefix v w h g e found found' =
        let here = sym (diff_at-here l x a b k prefix w found') ∙ e in
        elim (Bool-cases (k == l)) [
          | inl same' ↦
              let is : x ≡ v = some_inj (rw same' at found) in
              subst (λ y. same y w ≡ true) is
                (diff-same x w prefix h.0 (IsWell-get b k w g found') (rw same' at here))
          | inr other ↦
              diff_at-same a b k prefix v w h.1 g (rw other at here) (rw other at found) found'
        ]

  -- The dictionaries are equal: there is nothing to report.
  same-diff :
      (a b : Fields A) (prefix : String)
      → IsUnique a
      → IsUnique b
      → same (object a) (object b) ≡ true
      → recursive_diff (object a) (object b) prefix ≡ none
  same-diff a b prefix h g e =
      let each = same-agrees a b h g e in
      let old =
        nil-keys_without a b
          (λ k absent. gone (get k a) (subst (λ o. agrees (get k a) o ≡ true) absent (each k))) h in
      let new =
        nil-keys_without b a
          (λ k absent. gone' (get k b) (subst (λ o. agrees o (get k b) ≡ true) absent (each k)))
          g in
      let none' = none_changed (sorted (keys a)) a b (λ k. calm k (each k)) in
      recursive_diff-object a b prefix ∙ rw (old, new, none') refl
    where
      gone : (o : Option (Json A)) → agrees o none ≡ true → o ≡ none
      gone none e' = refl
      gone (some v) e' = absurd (cc)

      gone' : (o : Option (Json A)) → agrees none o ≡ true → o ≡ none
      gone' none e' = refl
      gone' (some v) e' = absurd (cc)

      calm : (k : String) → agrees (get k a) (get k b) ≡ true → differs_at k a b ≡ false
      calm k e' = elim (Option-cases (get k a)) [
        | inl absent ↦ rw absent refl
        | inr (v, found) ↦ elim (Option-cases (get k b)) [
          | inl absent ↦ let wrong = rw (found, absent) at e' in absurd (cc)
          | inr (w, found') ↦
              let alike : same v w ≡ true = rw (found, found') at e' in
              rw (found, found', alike) refl
        ]
      ]

  -- _recursive_diff of two dictionaries without a key twice at any depth of their dictionaries
  -- finds no difference just when Python's == holds of them, so the ValueError of
  -- validate_capture_block always has an explanation.
  pub recursive_diff_complete :
      (a b : Fields A) (prefix : String)
      → IsWell (object a)
      → IsWell (object b)
      → (recursive_diff (object a) (object b) prefix ≡ none) ↔ (same (object a) (object b) ≡ true)
  unfolding IsWell
  recursive_diff_complete a b prefix h g =
      (diff-same (object a) (object b) prefix h g, same-diff a b prefix h.0 g.0)
