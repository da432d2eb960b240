-- ===== src/ProductConfig/Validation/Images.antt =====
-- What `validate_capture_block` of product_config.py accepts.
use katsdpcontroller.Prelude.{
  if◌then◌else◌, ◌==◌, Keyed, nat_eq, string_eq, ◌≡◌, ◌≢◌, ◌⊎◌, true, false, ◌&&◌, Option, none,
  some, String, Dict, lookup, insert, IsDict, Each, lookup-insert, insert-IsDict, refl, arith, ◌∙◌,
  inl, inr, Bool-cases, same_eq, ap, subst, sym, ◌↔◌, ap₂,
}
use katsdpcontroller.Errors.{ok}
use katsdpcontroller.ProductConfig.{Json, Fields, object, entries, fields, get, set}
use katsdpcontroller.ProductConfig.Difference.{same}
use katsdpcontroller.ProductConfig.Merging.{IsUnique, entries-fields}
use katsdpcontroller.ProductConfig.Equality.{agrees, same-agrees, agrees-same}
use katsdpcontroller.ProductConfig.Validation.{
  Verdict, accepted, move_outputs, compare_configs, validate_capture_block,
}
use katsdpcontroller.ProductConfig.Validation.Moving.{
  IsStream, shows, is_absent, dropped, keeps, move_outputs-is,
}

module _ {A : Type 0} ⦃keyed : Keyed A⦄ where
  -- The product `p` is the capture block `c`, but for the images that the capture block leaves out
  -- of the outputs `po`.
  abbrev pub IsRestriction : Fields A → Fields A → Fields A → Fields A → Type 0
  IsRestriction p po c co =
      ((k : String) → k ≢ "outputs" → agrees (get k p) (get k c) ≡ true)
      × ((n : String) → (agrees (get n po) (get n co) ≡ true) ⊎ (dropped po co n ≡ true))

  -- An output that may go, or stays as it is.
  pub kept_agrees :
      (co : Fields A) (n : String) (o : Option (Json A))
      → (agrees (keeps co n o o) (get n co) ≡ true)
        ↔ ((agrees o (get n co) ≡ true) ⊎ ((shows o && is_absent (get n co)) ≡ true))
  kept_agrees co n o = elim (Bool-cases (shows o && is_absent (get n co))) [
    | inl gone ↦
        let missing : get n co ≡ none = none_of (get n co) (ground arith) in
        (λ e. inr gone, λ e. rw (gone, missing) refl)
    | inr kept ↦ (λ e. inl (rw kept at e), λ e. rw kept (still e kept))
  ]
    where
      none_of : (o' : Option (Json A)) → is_absent o' ≡ true → o' ≡ none
      none_of none e = refl
      none_of (some v) e = absurd (cc)

      still :
          (agrees o (get n co) ≡ true) ⊎ ((shows o && is_absent (get n co)) ≡ true)
          → (shows o && is_absent (get n co)) ≡ false
          → agrees o (get n co) ≡ true
      still (inl e) kept = e
      still (inr gone) kept = absurd (cc)

module _ {A : Type 0} ⦃keyed : Keyed A⦄ (c co : Fields A)
    (there : get "outputs" c ≡ some (object co)) (plain : get "type" co ≡ none) where
  module _ (p po : Fields A) (outputs : get "outputs" p ≡ some (object po)) (unique : IsUnique p)
      (unique_outputs : IsUnique po) (streams : Each (λ n v. IsStream v) (entries po))
      (unique' : IsUnique c) (unique_outputs' : IsUnique co) where
    validate_is :
        (moved : Dict (Json A))
        → move_outputs c (entries po) (entries po) ≡ ok moved
        → validate_capture_block p c
          ≡ ok (compare_configs (set "outputs" (object (fields moved)) p) c)
    unfolding validate_capture_block
    validate_is moved is = rw (outputs, is) refl

    module _ (moved : Dict (Json A)) (once : IsDict moved)
        (each : (n : String) → lookup n moved ≡ keeps co n (get n po) (get n po)) where
      abbrev changed : Fields A
      changed = set "outputs" (object (fields moved)) p

      changed-IsUnique : IsUnique changed
      changed-IsUnique =
          subst IsDict (sym (entries-fields (insert "outputs" (object (fields moved)) (entries p))))
            (insert-IsDict "outputs" (object (fields moved)) (entries p) unique)

      changed-get :
          (k : String)
          → get k changed ≡ (if k == "outputs" then some (object (fields moved)) else get k p)
      changed-get k =
          ap (lookup k) (entries-fields (insert "outputs" (object (fields moved)) (entries p)))
          ∙ lookup-insert k "outputs" (object (fields moved)) (entries p)

      moved-get : (n : String) → get n (fields moved) ≡ keeps co n (get n po) (get n po)
      moved-get n = ap (lookup n) (entries-fields moved) ∙ each n

      moved-IsUnique : IsUnique (fields moved)
      moved-IsUnique = subst IsDict (sym (entries-fields moved)) once

      outputs_changed : get "outputs" changed ≡ some (object (fields moved))
      outputs_changed = changed-get "outputs"

      other_key : (k : String) → k ≢ "outputs" → (k == "outputs") ≡ false
      other_key k other = elim (Bool-cases (k == "outputs")) [
        | inl same' ↦ absurd (other (same_eq k "outputs" same'))
        | inr differs ↦ differs
      ]

      others_changed : (k : String) → (k == "outputs") ≡ false → get k changed ≡ get k p
      others_changed k other = changed-get k ∙ rw other refl

      at_outputs :
          agrees (get "outputs" changed) (get "outputs" c)
          ≡ same (object (fields moved)) (object co)
      at_outputs = ap₂ agrees outputs_changed there

      same-IsRestriction : same (object changed) (object c) ≡ true → IsRestriction p po c co
      same-IsRestriction e =
          let all = same-agrees changed c changed-IsUnique unique' e in
          let inner = sym at_outputs ∙ all "outputs" in
          let all' = same-agrees (fields moved) co moved-IsUnique unique_outputs' inner in
          (
            λ k other.
                subst (λ o. agrees o (get k c) ≡ true) (others_changed k (other_key k other))
                  (all k),
            λ n.
                (kept_agrees co n (get n po)).0
                  (subst (λ o. agrees o (get n co) ≡ true) (moved-get n) (all' n)),
          )

      IsRestriction-same : IsRestriction p po c co → same (object changed) (object c) ≡ true
      IsRestriction-same (rest, inner) =
          agrees-same changed c changed-IsUnique unique' (λ k. at_key k)
        where
          outputs_same : same (object (fields moved)) (object co) ≡ true
          outputs_same = agrees-same (fields moved) co moved-IsUnique unique_outputs' (λ n.
              subst (λ o. agrees o (get n co) ≡ true) (sym (moved-get n))
                ((kept_agrees co n (get n po)).1 (inner n)))

          apart : (k : String) → (k == "outputs") ≡ false → k ≢ "outputs"
          apart k other e =
              let both : (k == "outputs") ≡ true = (string_eq.same_iff k "outputs").1 e in cc

          at_key : (k : String) → agrees (get k changed) (get k c) ≡ true
          at_key k = elim (Bool-cases (k == "outputs")) [
            | inl same' ↦
                subst (λ x. agrees (get x changed) (get x c) ≡ true)
                  (sym (same_eq k "outputs" same')) (at_outputs ∙ outputs_same)
            | inr other ↦
                subst (λ o. agrees o (get k c) ≡ true) (sym (others_changed k other))
                  (rest k (apart k other))
          ]

      verdict-IsRestriction : (compare_configs changed c ≡ accepted) ↔ IsRestriction p po c co
      verdict-IsRestriction = elim (Bool-cases (same (object changed) (object c))) [
        | inl equal ↦ (λ e. same-IsRestriction equal, λ r. rw equal refl)
        | inr different ↦ (
          λ e. let wrong = rw different at e in absurd (cc),
          λ r. let equal = IsRestriction-same r in absurd (cc),
        )
      ]

    -- What a capture block may change. Take dictionaries without a key twice, with dictionaries
    -- of outputs, where each output of the product is a dictionary with a string as its type and
    -- no output of the capture block is named "type". Then validate_capture_block raises no
    -- KeyError or TypeError, and it accepts just when the capture block's configuration equals
    -- the product's at every key but outputs, and each output is the same on both sides or is an
    -- image of the product that the capture block leaves out; so the parameters of an image may
    -- not change.
    pub validate_capture_block-IsRestriction :
        (verdict : Verdict A) × (validate_capture_block p c ≡ ok verdict)
        × ((verdict ≡ accepted) ↔ IsRestriction p po c co)
    validate_capture_block-IsRestriction =
        let (moved, is, once, each) =
          move_outputs-is c co there plain (entries po) (entries po) streams unique_outputs
            unique_outputs in
        (
          compare_configs (changed moved once each) c,
          validate_is moved is,
          verdict-IsRestriction moved once each,
        )
