-- ===== src/ProductConfig/Difference/Keys.antt =====
-- The keys that `_recursive_diff` of product_config.py looks at.
use katsdpcontroller.Prelude.{
  ◌==◌, nat_eq, string_eq, ◌≡◌, ◌≢◌, true, false, ◌||◌, none, some, List, [], ◌∷◌, String, refl,
  arith, ◌∙◌, member, inl, inr, Bool-cases, same_eq, ap,
}
use katsdpcontroller.ProductConfig.{Json, Fields, close, field, entries, get}
use katsdpcontroller.ProductConfig.Difference.{has, keys, keys_without, insort, sorted}
use katsdpcontroller.ProductConfig.Merging.{IsUnique}
use katsdpcontroller.ProductConfig.Equality.{Covers, covered_head, Covers-tail}

pub insort-cons : (k : String) (ks : List String) → insort k ks ≢ []
insort-cons k [] e = cc
insort-cons k (l ∷ ls) e = ground arith

pub sorted-nil : (ks : List String) → sorted ks ≡ [] → ks ≡ []
sorted-nil [] e = refl
sorted-nil (k ∷ ks) e = absurd (insort-cons k (sorted ks) e)

pub insort-member :
    (k x : String) (ks : List String) → member x (insort k ks) ≡ (x == k || member x ks)
insort-member k x [] = refl
insort-member k x (l ∷ ls) = ground (arith, insort-member k x ls)

pub sorted-member : (x : String) (ks : List String) → member x (sorted ks) ≡ member x ks
sorted-member x [] = refl
sorted-member x (k ∷ ks) =
    insort-member k x (sorted ks) ∙ ap (λ b. x == k || b) (sorted-member x ks)

module _ {A : Type 0} where
  pub has-none : (k : String) (m : Fields A) → get k m ≡ none → has k m ≡ false
  has-none k close e = refl
  has-none k (field l v m) e = ground (arith, has-none k m)

  pub none-has : (k : String) (m : Fields A) → has k m ≡ false → get k m ≡ none
  none-has k close e = refl
  none-has k (field l v m) e = ground (arith, none-has k m)

  pub member-keys :
      (k : String) (v : Json A) (m : Fields A) → get k m ≡ some v → member k (keys m) ≡ true
  member-keys k v close e = absurd (cc)
  member-keys k v (field l w m) e = ground (arith, member-keys k v m)

  pub keys_without-nil : (a b : Fields A) → keys_without a b ≡ [] → Covers (entries a) (entries b)
  keys_without-nil close b e k absent = refl
  keys_without-nil (field l v a) b e k absent =
      let missing = has-none k b absent in
      elim (Bool-cases (has l b)) [
        | inr new ↦ let wrong = rw new at e in absurd (cc)
        | inl there ↦ elim (Bool-cases (k == l)) [
          | inl alike ↦ let is = same_eq k l alike in let both = rw (← is) at there in absurd (cc)
          | inr other ↦ rw other (keys_without-nil a b (rw there at e) k absent)
        ]
      ]

  pub nil-keys_without :
      (a b : Fields A) → Covers (entries a) (entries b) → IsUnique a → keys_without a b ≡ []
  nil-keys_without close b c h = refl
  nil-keys_without (field l v a) b c h = elim (Bool-cases (has l b)) [
    | inl there ↦
        rw there
          (nil-keys_without a b (λ k absent. Covers-tail (l, v) (entries a) k (c k absent)) h.1)
    | inr new ↦
        let (w, found) = covered_head (l, v) (entries a) (entries b) c in
        let gone = none-has l b new in absurd (cc)
  ]
