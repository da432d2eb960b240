-- ===== src/ProductConfig.antt =====
-- Subarray product configurations as JSON, and what is done with them before they become a
-- `Configuration`: `override`, `_recursive_diff` and `validate_capture_block` of product_config.py.
pub mod Difference
pub mod Validation
pub mod Merging
pub mod Overrides
pub mod Equality
use katsdpcontroller.Prelude.{
  if◌then◌else◌, ◌==◌, Keyed, nat_eq, string_eq, ℕ, ◌+◌, Bool, true, false, not, ◌&&◌, ◌||◌, Option,
  none, some, List, [], ◌∷◌, String, Dict, lookup, insert, remove, member,
}
use katsdpcontroller.Errors.{Result, ok, err, value_error, key_error, type_error}

-- A JSON value, as Python has it. Numbers and booleans are of a type of their own, where values
-- that Python's `==` takes for equal are the same.
mutual
  pub data Json (A : Type 0) : Type 0 where
    null : Json A
    number : A → Json A
    string : String → Json A
    array : Items A → Json A
    object : Fields A → Json A

  pub data Items (A : Type 0) : Type 0 where
    end : Items A
    item : Json A → Items A → Items A

  pub data Fields (A : Type 0) : Type 0 where
    close : Fields A
    field : String → Json A → Fields A → Fields A

module _ {A : Type 0} where
  abbrev pub entries : Fields A → Dict (Json A)
  entries close = []
  entries (field k v m) = (k, v) ∷ entries m

  abbrev pub fields : Dict (Json A) → Fields A
  fields [] = close
  fields (e ∷ d) = field e.0 e.1 (fields d)

  abbrev pub get : String → Fields A → Option (Json A)
  get k m = lookup k (entries m)

  abbrev pub set : String → Json A → Fields A → Fields A
  set k v m = fields (insert k v (entries m))

  abbrev pub value_or_null : Option (Json A) → Json A
  value_or_null none = null
  value_or_null (some v) = v

  -- m.get(k)
  abbrev pub get_or_null : String → Fields A → Json A
  get_or_null k m = value_or_null (get k m)

  abbrev pub is_null : Json A → Bool
  is_null null = true
  is_null v = false

  -- `override`, whose loop updates `new_config`.
  unfoldable mutual
    pub override : Json A → Json A → Json A
    override config null = null
    override config (number x) = number x
    override config (string t) = string t
    override config (array xs) = array xs
    override config (object overrides) = elim config [
      | object m ↦ object (fields (override_all m (entries m) overrides))
      | null ↦ object overrides
      | number x ↦ object overrides
      | string t ↦ object overrides
      | array xs ↦ object overrides
    ]

    pub override_all : Fields A → Dict (Json A) → Fields A → Dict (Json A)
    override_all config new_config close = new_config
    override_all config new_config (field key value overrides) =
        let new = override (get_or_null key config) value in
        override_all config
          (if is_null value then remove key new_config else insert key new new_config) overrides
