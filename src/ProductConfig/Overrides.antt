-- ===== src/ProductConfig/Overrides.antt =====
-- `override` of product_config.py against a description of merging that does not mention it.
use katsdpcontroller.Prelude.{
  ◌==◌, nat_eq, string_eq, ◌≡◌, ◌≢◌, ◌&&◌, Bool, true, false, Option, none, some, String, refl, sym,
  ◌∙◌, inl, inr, Bool-cases, Option-cases, some_inj, ap, subst, arith,
}
use katsdpcontroller.ProductConfig.{
  Json, Fields, null, number, string, array, object, close, field, get, value_or_null, get_or_null,
  is_null, override,
}
use katsdpcontroller.ProductConfig.Merging.{IsUnique, merged, overridden, override-merged}
use katsdpcontroller.ProductConfig.Difference.Complete.{IsWell, AreWell, IsWell-get}

abbrev pub is_object : {A : Type 0} → Json A → Bool
is_object (object m) = true
is_object v = false

-- `IsMerge config overrides result`: where one of the two is no dictionary, the overrides take the
-- place of the configuration; two dictionaries are merged key by key.
mutual
  pub data IsMerge (A : Type 0) : Json A → Json A → Json A → Type 0 where
    replaced :
        (config overrides : Json A)
        → (is_object config && is_object overrides) ≡ false
        → IsMerge A config overrides overrides
    merged_dicts :
        (config overrides result : Fields A)
        → IsUnique result
        → ((k : String) → IsMergeAt A (get k config) (get k overrides) (get k result))
        → IsMerge A (object config) (object overrides) (object result)

  -- The values of one key.
  pub data IsMergeAt (A : Type 0)
      : Option (Json A) → Option (Json A) → Option (Json A) → Type 0 where
    kept : (old : Option (Json A)) → IsMergeAt A old none old
    deleted : (old : Option (Json A)) → IsMergeAt A old (some null) none
    added : (v : Json A) → v ≢ null → IsMergeAt A none (some v) (some v)
    changed :
        (old v result : Json A)
        → v ≢ null
        → IsMerge A old v result
        → IsMergeAt A (some old) (some v) (some result)

module _ {A : Type 0} where
  is_null-null : (v : Json A) → is_null v ≡ true → v ≡ null
  is_null-null null h = refl
  is_null-null v h = absurd (cc)

  not_null : (v : Json A) → is_null v ≡ false → v ≢ null
  not_null v h e = let wrong : is_null v ≡ true = rw e refl in cc

  override-replaced :
      (config v : Json A) → (is_object config && is_object v) ≡ false → override config v ≡ v
  unfolding override
  override-replaced config null h = refl
  override-replaced config (number x) h = refl
  override-replaced config (string t) h = refl
  override-replaced config (array xs) h = refl
  override-replaced (object c) (object o) h = absurd (cc)
  override-replaced null (object o) h = refl
  override-replaced (number x) (object o) h = refl
  override-replaced (string t) (object o) h = refl
  override-replaced (array xs) (object o) h = refl

  replace_well :
      (config v : Json A)
      → (is_object config && is_object v) ≡ false
      → IsMerge A config v (override config v)
  replace_well config v h =
      subst (IsMerge A config v) (sym (override-replaced config v h)) (replaced config v h)

  -- Where the keys of the overrides are merged, so is a key of the dictionaries.
  merged-IsMergeAt :
      (config : Fields A) (k : String) (o : Option (Json A))
      → ((v w : Json A) → o ≡ some v → get k config ≡ some w → IsMerge A w v (override w v))
      → IsMergeAt A (get k config) o (merged config k (get k config) o)
  merged-IsMergeAt config k none each = kept (get k config)
  merged-IsMergeAt config k (some v) each = elim (Bool-cases (is_null v)) [
    | inl nothing ↦
        let is = is_null-null v nothing in
        subst (λ x. IsMergeAt A (get k config) (some x) (overridden config k x)) (sym is)
          (deleted (get k config))
    | inr value ↦ elim (Option-cases (get k config)) [
      | inl absent ↦
          let is : override (get_or_null k config) v ≡ v =
            ap (λ o. override (value_or_null o) v) absent ∙ override-replaced null v refl in
          rw (absent, value)
            (subst (λ r. IsMergeAt A none (some v) (some r)) (sym (rw absent at is))
              (added v (not_null v value)))
      | inr (w, found) ↦
          rw (found, value) (changed w v (override w v) (not_null v value) (each v w refl found))
    ]
  ]

  mutual
    unfolding IsWell

    IsWell-IsMerge :
        (config overrides : Json A)
        → IsWell config
        → IsWell overrides
        → IsMerge A config overrides (override config overrides)
    IsWell-IsMerge config null h g = replace_well config null (ground arith)
    IsWell-IsMerge config (number x) h g = replace_well config (number x) (ground arith)
    IsWell-IsMerge config (string t) h g = replace_well config (string t) (ground arith)
    IsWell-IsMerge config (array xs) h g = replace_well config (array xs) (ground arith)
    IsWell-IsMerge (object c) (object o) h g =
        let (m, is, unique, each) = override-merged c o h.0 g.0 in
        subst (IsMerge A (object c) (object o)) (sym is) (
          merged_dicts c o m unique (λ k. subst (IsMergeAt A (get k c) (get k o)) (sym (each k)) (
            merged-IsMergeAt c k (get k o)
              (λ v w at found. AreWell-IsMerge o k v g.1 at w (IsWell-get c k w h.1 found)))))
    IsWell-IsMerge null (object o) h g = replace_well null (object o) refl
    IsWell-IsMerge (number x) (object o) h g = replace_well (number x) (object o) refl
    IsWell-IsMerge (string t) (object o) h g = replace_well (string t) (object o) refl
    IsWell-IsMerge (array xs) (object o) h g = replace_well (array xs) (object o) refl

    AreWell-IsMerge :
        (o : Fields A) (k : String) (v : Json A)
        → AreWell o
        → get k o ≡ some v
        → (w : Json A) → IsWell w
        → IsMerge A w v (override w v)
    AreWell-IsMerge close k v g at w h = absurd (cc)
    AreWell-IsMerge (field l x o) k v g at w h = elim (Bool-cases (k == l)) [
      | inl same ↦
          let is : x ≡ v = some_inj (rw same at at) in
          subst (λ y. IsMerge A w y (override w y)) is (IsWell-IsMerge w x h g.0)
      | inr other ↦ AreWell-IsMerge o k v g.1 (rw other at at) w h
    ]

  -- For a configuration and overrides without a key twice at any depth of their dictionaries,
  -- override implements the relation IsMerge: where one of the two is no dictionary, the result
  -- is the overrides; two dictionaries give a dictionary without a key twice, in which a key that
  -- the overrides lack has the configuration's value, a key that they override with None is
  -- missing, any other key that the configuration lacks has the override's value, and a key that
  -- both have has a merge of both values.
  pub override-IsMerge :
      (config overrides : Json A)
      → IsWell config
      → IsWell overrides
      → IsMerge A config overrides (override config overrides)
  override-IsMerge config overrides h g = IsWell-IsMerge config overrides h g
