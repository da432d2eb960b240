-- ===== src/Examples/Configs.antt =====
-- Witnesses and tests for product_config.py: a product with visibilities and an image, and capture
-- blocks that leave the image out or change it.
use katsdpcontroller.Prelude.{ℕ, ◌≡◌, ◌↔◌, true, none, some, refl, nat_eq, string_eq}
use katsdpcontroller.Errors.{ok}
use katsdpcontroller.ProductConfig.{
  Json, Fields, null, number, string, object, close, field, override,
}
use katsdpcontroller.ProductConfig.Difference.{same, changed, recursive_diff}
use katsdpcontroller.ProductConfig.Difference.Complete.{IsWell, recursive_diff_complete}
use katsdpcontroller.ProductConfig.Overrides.{IsMerge, override-IsMerge}
use katsdpcontroller.ProductConfig.Validation.{
  Verdict, accepted, rejected, validate_capture_block, move_outputs, move_output, image_moves,
  move_image,
}
use katsdpcontroller.ProductConfig.Validation.Images.{
  IsRestriction, validate_capture_block-IsRestriction,
}

abbrev vis : Json ℕ
vis = object (field "type" (string "sdp.vis") (field "archive" (number 1) close))

abbrev image : ℕ → Json ℕ
image n =
    object (field "type" (string "sdp.continuum_image") (field "max_realtime" (number n) close))

abbrev with_outputs : Fields ℕ → Fields ℕ
with_outputs outputs = field "version" (string "4.0") (field "outputs" (object outputs) close)

abbrev all_outputs : Fields ℕ
all_outputs = field "vis" vis (field "image" (image 1) close)

abbrev less_outputs : Fields ℕ
less_outputs = field "vis" vis close

abbrev other_outputs : Fields ℕ
other_outputs = field "image" (image 2) (field "vis" vis close)

dropped_image :
    validate_capture_block (with_outputs all_outputs) (with_outputs less_outputs) ≡ ok accepted
unfolding validate_capture_block move_outputs move_output image_moves move_image same
dropped_image = refl

-- The parameters of an image may not change.
changed_image :
    validate_capture_block (with_outputs all_outputs) (with_outputs other_outputs)
    ≡ ok (rejected (some (changed "outputs.image.max_realtime" (number 1) (number 2))))
unfolding validate_capture_block move_outputs move_output image_moves move_image same recursive_diff
changed_image = refl

validate_capture_block-IsRestriction_example :
    (verdict : Verdict ℕ) × (validate_capture_block
        (with_outputs all_outputs)
        (with_outputs less_outputs)
      ≡ ok verdict)
    × ((verdict ≡ accepted)
        ↔ IsRestriction
            (with_outputs all_outputs)
            all_outputs
            (with_outputs less_outputs)
            less_outputs)
validate_capture_block-IsRestriction_example =
    validate_capture_block-IsRestriction (with_outputs less_outputs) less_outputs refl refl
      (with_outputs all_outputs) all_outputs refl (refl, (refl, tt)) (refl, (refl, tt))
      (
        (field "type" (string "sdp.vis") (field "archive" (number 1) close), "sdp.vis", refl, refl),
        (
          (
            field "type" (string "sdp.continuum_image") (field "max_realtime" (number 1) close),
            "sdp.continuum_image",
            refl,
            refl,
          ),
          tt,
        ),
      )
      (refl, (refl, tt)) (refl, tt)

recursive_diff_complete_example :
    (recursive_diff (object (with_outputs all_outputs)) (object (with_outputs other_outputs)) ""
      ≡ none)
    ↔ (same (object (with_outputs all_outputs)) (object (with_outputs other_outputs)) ≡ true)
unfolding IsWell
recursive_diff_complete_example =
    recursive_diff_complete (with_outputs all_outputs) (with_outputs other_outputs) ""
      (
        (refl, (refl, tt)),
        (
          tt,
          (
            (
              (refl, (refl, tt)),
              (((refl, (refl, tt)), (tt, (tt, tt))), (((refl, (refl, tt)), (tt, (tt, tt))), tt)),
            ),
            tt,
          ),
        ),
      )
      (
        (refl, (refl, tt)),
        (
          tt,
          (
            (
              (refl, (refl, tt)),
              (((refl, (refl, tt)), (tt, (tt, tt))), (((refl, (refl, tt)), (tt, (tt, tt))), tt)),
            ),
            tt,
          ),
        ),
      )

abbrev changes : Fields ℕ
changes = field "version" null (field "outputs" (object (field "image" null close)) close)

merged_changes :
    override (object (with_outputs all_outputs)) (object changes)
    ≡ object (field "outputs" (object less_outputs) close)
unfolding override
merged_changes = refl

abbrev no_fields : Fields ℕ
no_fields = close

-- A null below a key that is new stays.
kept_null :
    override (object no_fields) (object (field "outputs" (object (field "image" null close)) close))
    ≡ object (field "outputs" (object (field "image" null close)) close)
unfolding override
kept_null = refl

override-IsMerge_example :
    IsMerge ℕ
      (object (with_outputs all_outputs))
      (object changes)
      (override (object (with_outputs all_outputs)) (object changes))
unfolding IsWell
override-IsMerge_example =
    override-IsMerge (object (with_outputs all_outputs)) (object changes)
      (
        (refl, (refl, tt)),
        (
          tt,
          (
            (
              (refl, (refl, tt)),
              (((refl, (refl, tt)), (tt, (tt, tt))), (((refl, (refl, tt)), (tt, (tt, tt))), tt)),
            ),
            tt,
          ),
        ),
      )
      ((refl, (refl, tt)), (tt, (((refl, tt), (tt, tt)), tt)))
