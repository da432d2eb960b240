-- ===== src/ProductConfig/Merging.antt =====
-- What `override` of product_config.py makes of two configurations.
use katsdpcontroller.Prelude.{
  if◌then◌else◌, ◌==◌, nat_eq, string_eq, ◌≡◌, Option, none, some, [], ◌∷◌, String, Dict, lookup,
  insert, remove, IsDict, lookup-insert, lookup-remove, insert-IsDict, remove-IsDict, refl, ◌∙◌,
  inl, inr, Bool-cases, same_eq, ap, subst, sym,
}
use katsdpcontroller.ProductConfig.{
  Json, Fields, object, close, field, entries, fields, get, get_or_null, is_null, override,
  override_all,
}

module _ {A : Type 0} where
  pub entries-fields : (d : Dict (Json A)) → entries (fields d) ≡ d
  entries-fields [] = refl
  entries-fields (e ∷ d) = ap (λ x. e ∷ x) (entries-fields d)

  -- No key twice.
  abbrev pub IsUnique : Fields A → Type 0
  IsUnique m = IsDict (entries m)

  -- What an override makes of its key.
  abbrev pub overridden : Fields A → String → Json A → Option (Json A)
  overridden config key v = if is_null v then none else some (override (get_or_null key config) v)

  -- What a key has in the merged dictionary, where it had `old` in the one that is updated.
  abbrev pub merged : Fields A → String → Option (Json A) → Option (Json A) → Option (Json A)
  merged config k old none = old
  merged config k old (some v) = overridden config k v

  abbrev updated : Fields A → Dict (Json A) → String → Json A → Dict (Json A)
  updated config new key v =
      if is_null v then remove key new else insert key (override (get_or_null key config) v) new

  updated-lookup :
      (key k : String) (config : Fields A) (v : Json A) (new : Dict (Json A))
      → lookup k (updated config new key v)
        ≡ (if k == key then overridden config key v else lookup k new)
  updated-lookup key k config v new = elim (Bool-cases (is_null v)) [
    | inl nothing ↦ rw nothing (lookup-remove k key new)
    | inr value ↦ rw value (lookup-insert k key (override (get_or_null key config) v) new)
  ]

  updated-IsDict :
      (key : String) (config : Fields A) (v : Json A) (new : Dict (Json A))
      → IsDict new
      → IsDict (updated config new key v)
  updated-IsDict key config v new h = elim (Bool-cases (is_null v)) [
    | inl nothing ↦ rw nothing (remove-IsDict key new h)
    | inr value ↦ rw value (insert-IsDict key (override (get_or_null key config) v) new h)
  ]

  override_all-field :
      (config : Fields A) (new : Dict (Json A)) (key : String) (v : Json A) (o : Fields A)
      → override_all config new (field key v o) ≡ override_all config (updated config new key v) o
  unfolding override_all override
  override_all-field config new key v o = refl

  override_all-lookup :
      (config : Fields A) (new : Dict (Json A)) (o : Fields A) (k : String)
      → IsUnique o
      → lookup k (override_all config new o) ≡ merged config k (lookup k new) (get k o)
  unfolding override_all
  override_all-lookup config new close k h = refl
  override_all-lookup config new (field key v o) k h =
      ap (lookup k) (override_all-field config new key v o)
      ∙ override_all-lookup config (updated config new key v) o k h.1
      ∙ ap (λ x. merged config k x (get k o)) (updated-lookup key k config v new)
      ∙ elim (Bool-cases (k == key)) [
        | inl same ↦
            let is = same_eq k key same in
            let gone : get k o ≡ none = rw is h.0 in rw (same, gone, is) refl
        | inr other ↦ rw other refl
      ]

  override_all-IsDict :
      (config : Fields A) (new : Dict (Json A)) (o : Fields A)
      → IsDict new
      → IsDict (override_all config new o)
  unfolding override_all
  override_all-IsDict config new close h = h
  override_all-IsDict config new (field key v o) h =
      subst IsDict (sym (override_all-field config new key v o)) (
        override_all-IsDict config (updated config new key v) o (updated-IsDict key config v new h))

  -- Two dictionaries are merged key by key.
  pub override-merged :
      (config overrides : Fields A)
      → IsUnique config
      → IsUnique overrides
      → (m : Fields A) × (override (object config) (object overrides) ≡ object m)
        × IsUnique m
        × ((k : String) → get k m ≡ merged config k (get k config) (get k overrides))
  unfolding override override_all
  override-merged config overrides h g =
      let d = override_all config (entries config) overrides in
      (
        fields d,
        refl,
        subst IsDict (sym (entries-fields d))
            (override_all-IsDict config (entries config) overrides h),
        λ k.
            ap (lookup k) (entries-fields d)
            ∙ override_all-lookup config (entries config) overrides k g,
      )
