-- ===== src/ProductConfig/Validation.antt =====
-- `validate_capture_block` of product_config.py: which changes of a product's configuration a
-- capture block may make.
pub mod Moving
pub mod Images
use katsdpcontroller.Prelude.{
  if◌then◌else◌, ◌==◌, Keyed, nat_eq, string_eq, ℕ, Bool, true, false, not, ◌&&◌, ◌||◌, Option,
  none, some, List, [], ◌∷◌, String, Dict, lookup, insert, remove, map,
}
use katsdpcontroller.Errors.{Error, Result, ok, err, ◌>>=◌, key_error, type_error}
use katsdpcontroller.ProductConfig.{
  Json, Items, Fields, null, number, string, array, object, close, field, entries, fields, get,
  get_or_null, set,
}
use katsdpcontroller.ProductConfig.Difference.{same, Difference, recursive_diff}

-- What the check says of a capture block.
pub data Verdict (A : Type 0) : Type 0 where
  accepted : Verdict A
  rejected : Option (Difference A) → Verdict A

module _ {A : Type 0} where
  abbrev pub found_or_raise : Option (Json A) → Result (Json A)
  found_or_raise none = err key_error
  found_or_raise (some v) = ok v

  -- m[k]
  abbrev pub item_at : String → Json A → Result (Json A)
  item_at k (object m) = found_or_raise (get k m)
  item_at k v = err type_error

  -- The entries of a dictionary, where the code takes one for granted.
  abbrev pub dict_of : Json A → Result (Fields A)
  dict_of (object m) = ok m
  dict_of v = err type_error

  -- v in {"sdp.continuum_image", "sdp.spectral_image"}
  abbrev pub is_image : Json A → Result Bool
  is_image (string t) = ok (t == "sdp.continuum_image" || t == "sdp.spectral_image")
  is_image (array xs) = err type_error
  is_image (object m) = err type_error
  is_image v = ok false

module _ {A : Type 0} ⦃keyed : Keyed A⦄ where
  -- a.get(k) == b.get(k)
  abbrev pub agree_at : Fields A → Fields A → String → Bool
  agree_at a b k = same (get_or_null k a) (get_or_null k b)

  -- The keys that may not change; they are looked up in `capture_block["outputs"]`.
  abbrev pub all_agree : Fields A → Fields A → Bool
  all_agree outputs output =
      agree_at outputs output "type"
      && agree_at outputs output "src_streams"
      && agree_at outputs output "calibration"

  -- An image of the product, with the output of its name and whether the keys agree.
  abbrev pub image_moved : Option (Json A) → Bool → String → Dict (Json A) → Dict (Json A)
  image_moved none agreed name current = remove name current
  image_moved (some new) agreed name current = if agreed then insert name new current else current

  -- An image of the product, where the capture block has such outputs.
  unfoldable pub move_image : Fields A → String → Fields A → Dict (Json A) → Dict (Json A)
  move_image outputs name output current =
      image_moved (get name outputs) (all_agree outputs output) name current

  unfoldable pub image_moves : Fields A → String → Json A → Dict (Json A) → Result (Dict (Json A))
  unfolding move_image
  image_moves capture_block name output current = do
    value ← item_at "outputs" (object capture_block)
    outputs ← dict_of value
    own ← dict_of output
    ok (move_image outputs name own current)

  -- The body of the loop, for one output of the product.
  unfoldable pub move_output : Fields A → String → Json A → Dict (Json A) → Result (Dict (Json A))
  unfolding image_moves
  move_output capture_block name output current = do
    kind ← item_at "type" output
    image ← is_image kind
    if image then image_moves capture_block name output current else ok current

  unfoldable pub move_outputs : Fields A → Dict (Json A) → Dict (Json A) → Result (Dict (Json A))
  unfolding move_output
  move_outputs capture_block [] current = ok current
  move_outputs capture_block (e ∷ rest) current = do
    moved ← move_output capture_block e.0 e.1 current
    move_outputs capture_block rest moved

  abbrev pub compare_configs : Fields A → Fields A → Verdict A
  compare_configs product capture_block =
      if same (object product) (object capture_block)
      then accepted
      else rejected (recursive_diff (object product) (object capture_block) "")

  -- `validate_capture_block`, where both are dictionaries
  unfoldable pub validate_capture_block : Fields A → Fields A → Result (Verdict A)
  unfolding move_outputs
  validate_capture_block product capture_block = do
    value ← item_at "outputs" (object product)
    outputs ← dict_of value
    moved ← move_outputs capture_block (entries outputs) (entries outputs)
    ok (compare_configs (set "outputs" (object (fields moved)) product) capture_block)
