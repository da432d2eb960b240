-- ===== src/ProductConfig/Validation/Moving.antt =====
-- The loop of `validate_capture_block` of product_config.py leaves images out.
use katsdpcontroller.Prelude.{
  if◌then◌else◌, ◌==◌, Keyed, nat_eq, string_eq, ◌≡◌, Bool, true, false, ◌&&◌, ◌||◌, Option, none,
  some, [], ◌∷◌, String, Dict, lookup, remove, IsDict, Each, lookup-remove, remove-IsDict, refl,
  arith, ◌∙◌, inl, inr, Bool-cases, same_eq, ap, Option-cases,
}
use katsdpcontroller.Errors.{ok}
use katsdpcontroller.ProductConfig.{Json, Fields, string, object, get}
use katsdpcontroller.ProductConfig.Difference.{same}
use katsdpcontroller.ProductConfig.Validation.{
  agree_at, all_agree, move_image, image_moves, move_output, move_outputs,
}

module _ {A : Type 0} where
  -- A stream's configuration, with a type.
  abbrev pub IsStream : Json A → Type 0
  IsStream v = (m : Fields A) × (t : String) × (v ≡ object m) × (get "type" m ≡ some (string t))

  abbrev pub image_type : Option (Json A) → Bool
  image_type (some (string t)) = t == "sdp.continuum_image" || t == "sdp.spectral_image"
  image_type o = false

  -- The stream is an image.
  abbrev pub shows : Option (Json A) → Bool
  shows (some (object m)) = image_type (get "type" m)
  shows o = false

  abbrev pub is_absent : Option (Json A) → Bool
  is_absent none = true
  is_absent (some v) = false

  -- An image of the product that the capture block leaves out.
  abbrev pub dropped : Fields A → Fields A → String → Bool
  dropped outputs new n = shows (get n outputs) && is_absent (get n new)

  -- What an output has where the capture block has the outputs `co`.
  abbrev pub keeps : Fields A → String → Option (Json A) → Option (Json A) → Option (Json A)
  keeps co k o old = if shows o && is_absent (get k co) then none else old

module _ {A : Type 0} ⦃keyed : Keyed A⦄ (c co : Fields A)
    (there : get "outputs" c ≡ some (object co)) (plain : get "type" co ≡ none) where
  -- No stream of the capture block has the name that is looked up.
  never_agree :
      (m : Fields A) (t : String) → get "type" m ≡ some (string t) → all_agree co m ≡ false
  unfolding same
  never_agree m t e = let differ : agree_at co m "type" ≡ false = rw (plain, e) refl in ground arith

  abbrev dropped_one : String → Json A → Dict (Json A) → Dict (Json A)
  dropped_one n v current =
      if shows (some v) && is_absent (get n co) then remove n current else current

  move_image-is :
      (n : String) (m : Fields A) (current : Dict (Json A)) (t : String)
      → get "type" m ≡ some (string t)
      → move_image co n m current ≡ (if is_absent (get n co) then remove n current else current)
  unfolding move_image
  move_image-is n m current t kind = elim (Option-cases (get n co)) [
    | inl absent ↦ rw absent refl
    | inr (w, found) ↦ rw (found, never_agree m t kind) refl
  ]

  image_moves-is :
      (n : String) (m : Fields A) (current : Dict (Json A))
      → image_moves c n (object m) current ≡ ok (move_image co n m current)
  unfolding image_moves
  image_moves-is n m current = rw there refl

  move_output-is :
      (n : String) (v : Json A) (current : Dict (Json A))
      → IsStream v
      → move_output c n v current ≡ ok (dropped_one n v current)
  unfolding move_output
  move_output-is n v current (m, t, is, kind) =
      elim (Bool-cases (t == "sdp.continuum_image" || t == "sdp.spectral_image")) [
        | inl image ↦
            rw (is, image_moves-is n m current, move_image-is n m current t kind, kind, image) refl
        | inr other ↦ rw (is, kind, other) refl
      ]

  dropped_one-IsDict :
      (n : String) (v : Json A) (current : Dict (Json A))
      → IsDict current
      → IsDict (dropped_one n v current)
  dropped_one-IsDict n v current h = elim (Bool-cases (shows (some v) && is_absent (get n co))) [
    | inl gone ↦ rw gone (remove-IsDict n current h)
    | inr kept ↦ rw kept h
  ]

  dropped_one-lookup :
      (k n : String) (v : Json A) (current : Dict (Json A))
      → lookup k (dropped_one n v current)
        ≡ (if (k == n) && (shows (some v) && is_absent (get n co)) then none else lookup k current)
  dropped_one-lookup k n v current = elim (Bool-cases (shows (some v) && is_absent (get n co))) [
    | inl gone ↦ rw gone (ground (arith, lookup-remove k n current))
    | inr kept ↦ rw kept (ground arith)
  ]

  -- Where the outputs from here on are gone through.
  pub move_outputs-is :
      (rest current : Dict (Json A))
      → Each (λ n v. IsStream v) rest
      → IsDict rest
      → IsDict current
      → (moved : Dict (Json A)) × (move_outputs c rest current ≡ ok moved)
        × IsDict moved
        × ((n : String) → lookup n moved ≡ keeps co n (lookup n rest) (lookup n current))
  unfolding move_outputs
  move_outputs-is [] current streams once h = (current, refl, h, λ n. refl)
  move_outputs-is (e ∷ rest) current streams once h =
      let (moved, is, h', each) =
        move_outputs-is rest (dropped_one e.0 e.1 current) streams.1 once.1
          (dropped_one-IsDict e.0 e.1 current h) in
      (
        moved,
        rw (move_output-is e.0 e.1 current streams.0) is,
        h',
        λ n.
            each n
            ∙ ap (keeps co n (lookup n rest)) (dropped_one-lookup n e.0 e.1 current)
            ∙ both n,
      )
    where
      both :
          (n : String)
          → keeps co n (lookup n rest) (
              if (n == e.0) && (shows (some e.1) && is_absent (get e.0 co))
              then none
              else lookup n current)
            ≡ keeps co n (lookup n (e ∷ rest)) (lookup n current)
      both n = elim (Bool-cases (n == e.0)) [
        | inl same' ↦
            let is = same_eq n e.0 same' in
            let gone : lookup n rest ≡ none = rw is once.0 in rw (same', gone, ← is) refl
        | inr other ↦ rw other refl
      ]
