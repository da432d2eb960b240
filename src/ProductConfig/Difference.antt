-- ===== src/ProductConfig/Difference.antt =====
-- Python's equality of configurations, and `_recursive_diff` of product_config.py, which names the
-- first difference. A difference is kept as it is, before it is written out.
pub mod Keys
pub mod Complete
use Prim.Native.String.{compare, ◌++◌ as ◌<>◌}
use text.Mathlib.Text.{is_lt}
use katsdpcontroller.Prelude.{
  if◌then◌else◌, ◌==◌, Keyed, nat_eq, string_eq, ℕ, ◌+◌, Bool, true, false, not, ◌&&◌, ◌||◌, Option,
  none, some, List, [], ◌∷◌, String, Dict, lookup,
}
use katsdpcontroller.ProductConfig.{
  Json, Items, Fields, null, number, string, array, object, end, item, close, field, entries, get,
}

-- sorted(ks)
abbrev pub insort : String → List String → List String
insort k [] = k ∷ []
insort k (l ∷ ls) = let rest = insort k ls in if is_lt (compare l k) then l ∷ rest else k ∷ l ∷ ls

abbrev pub sorted : List String → List String
sorted [] = []
sorted (k ∷ ks) = insort k (sorted ks)

module _ {A : Type 0} where
  -- len(m)
  abbrev pub size : Fields A → ℕ
  size close = 0
  size (field k v m) = size m + 1

  abbrev pub has : String → Fields A → Bool
  has k close = false
  has k (field l v m) = k == l || has k m

  abbrev pub keys : Fields A → List String
  keys close = []
  keys (field k v m) = k ∷ keys m

  -- set(a) - set(b)
  abbrev pub keys_without : Fields A → Fields A → List String
  keys_without close b = []
  keys_without (field k v a) b = let rest = keys_without a b in if has k b then rest else k ∷ rest

module _ {A : Type 0} ⦃keyed : Keyed A⦄ where
  -- a == b, where dictionaries have no order.
  unfoldable mutual
    pub same : Json A → Json A → Bool
    same null null = true
    same (number x) (number y) = x == y
    same (string s) (string t) = s == t
    same (array xs) (array ys) = same_items xs ys
    same (object a) (object b) = size a == size b && same_fields a b
    same a b = false

    pub same_items : Items A → Items A → Bool
    same_items end end = true
    same_items (item x xs) (item y ys) = same x y && same_items xs ys
    same_items xs ys = false

    -- Each value of the one is in the other.
    pub same_fields : Fields A → Fields A → Bool
    same_fields close b = true
    same_fields (field k v a) b =
        elim (get k b) [ none ↦ false | some w ↦ same v w ] && same_fields a b

  abbrev pub same_at : Json A → Option (Json A) → Bool
  same_at v none = false
  same_at v (some w) = same v w

-- `_join_prefix`
abbrev pub join_prefix : String → String → String
join_prefix prefix name = if prefix == "" then name else (prefix <> ".") <> name

pub data Difference (A : Type 0) : Type 0 where
  changed : String → Json A → Json A → Difference A
  removed added : String → Difference A

module _ {A : Type 0} ⦃keyed : Keyed A⦄ where
  abbrev pub differs : Option (Json A) → Option (Json A) → Bool
  differs none o = false
  differs (some v) o = not (same_at v o)

  -- a[key] != b[key]
  abbrev pub differs_at : String → Fields A → Fields A → Bool
  differs_at k a b = differs (get k a) (get k b)

  abbrev pub first_changed : List String → Fields A → Fields A → Option String
  first_changed [] a b = none
  first_changed (k ∷ ks) a b =
      let rest = first_changed ks a b in if differs_at k a b then some k else rest

  -- The keys that only one has, the first one that has changed, and what is below it.
  abbrev pub choose :
      String
      → List String
      → List String
      → Option String
      → (String → Option (Difference A))
      → Option (Difference A)
  choose prefix (k ∷ ks) new first deeper = some (removed (join_prefix prefix k))
  choose prefix [] (k ∷ ks) first deeper = some (added (join_prefix prefix k))
  choose prefix [] [] none deeper = none
  choose prefix [] [] (some k) deeper = deeper k

  -- `_recursive_diff`
  unfoldable mutual
    pub recursive_diff : Json A → Json A → String → Option (Difference A)
    recursive_diff null b prefix = some (changed prefix null b)
    recursive_diff (number x) b prefix = some (changed prefix (number x) b)
    recursive_diff (string s) b prefix = some (changed prefix (string s) b)
    recursive_diff (array xs) b prefix = some (changed prefix (array xs) b)
    recursive_diff (object a) b prefix = elim b [
      | object b' ↦
          choose prefix (sorted (keys_without a b')) (sorted (keys_without b' a))
            (first_changed (sorted (keys a)) a b') (λ k. diff_at k a b' (join_prefix prefix k))
      | null ↦ some (changed prefix (object a) null)
      | number y ↦ some (changed prefix (object a) (number y))
      | string t ↦ some (changed prefix (object a) (string t))
      | array ys ↦ some (changed prefix (object a) (array ys))
    ]

    -- The difference of the values of one key.
    pub diff_at : String → Fields A → Fields A → String → Option (Difference A)
    diff_at k close b prefix = none
    diff_at k (field l v a) b prefix =
        let here : Option (Difference A) = elim (get k b) [
          | none ↦ none
          | some w ↦ recursive_diff v w prefix
        ] in
        let rest = diff_at k a b prefix in if k == l then here else rest
