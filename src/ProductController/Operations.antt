-- ===== src/ProductController/Operations.antt =====
-- The coroutines of `SubarrayProduct`, from one `await` to the next: `_configure`, `_capture_init`,
-- `_capture_done`, `_postprocess` and `_deconfigure`. product_controller.py.
use katsdpcontroller.Prelude.{
  if◌then◌else◌, ◌==◌, nat_eq, string_eq, ℕ, Bool, true, false, not, ◌&&◌, ◌||◌, Option, none, some,
  [], ◌∷◌, map, String, Dict, insert, remove,
}
use katsdpcontroller.Errors.{
  Error, assertion_error, insufficient_resources, image_error, fail_reply, cancelled_error,
}
use katsdpcontroller.ProductController.{
  ProductState, CaptureBlockState, Job, Product, put, product_is, has_state, set_state,
  set_block_state, update_capture_block_sensor, add_capture_block, capture_block_dead,
  configure_start, configure_launch, configure_shutdown, init_start, init_telstate, init_transition,
  done_start, done_transition, postprocess_start, postprocess_transition, postprocess_run,
  postprocess_finally, postprocess_callback, deconfigure_start, deconfigure_done, deconfigure_kill,
  deconfigure_burndown, deconfigure_shutdown, deconfigure_wait,
}
use katsdpcontroller.ProductController.Tasks.{Next, awaits, returns, raises, create_task, cancel}

-- How an `await` ends.
pub data Wakeup : Type 0 where
  result : Wakeup
  exception : Error → Wakeup
  cancellation : Wakeup

abbrev pub Step : Type 0
Step = Product × Next

-- What is left to do after an `await` that let no exception be caught.
abbrev pub or_raise : Wakeup → Product → Step → Step
or_raise result self after = after
or_raise (exception e) self after = (self, raises e)
or_raise cancellation self after = (self, raises cancelled_error)

-- The handlers at the end of `_configure`
abbrev pub reply_to : Error → Error
reply_to insufficient_resources = fail_reply
reply_to image_error = fail_reply
reply_to other = other

-- `_configure`. What it sets up before it launches the graph is not part of the state.
abbrev pub configure_step : Wakeup → Product → Step
configure_step result self = (set_state ProductState.idle self, returns)
configure_step (exception e) self = (self, awaits (configure_shutdown e))
configure_step cancellation self = (self, awaits (configure_shutdown cancelled_error))

-- The `except Exception` of `_capture_init`
unfoldable pub init_failed : ℕ → Error → Product → Step
init_failed o e self = (capture_block_dead o (set_state ProductState.error self), raises e)

-- The start of `_capture_init`
unfoldable pub init_begin : ℕ → Product → Step
unfolding init_failed
init_begin o self =
    let self' = update_capture_block_sensor (record self {
      capture_blocks = insert (self.blocks o).name o self.capture_blocks;
      blocks = put o (record (self.blocks o) { watched = true }) self.blocks;
    }) in
    if self'.has_telstate
    then (self', awaits (init_telstate o))
    else init_failed o assertion_error self'

abbrev pub init_hold : ℕ → Product → Product
init_hold o self = record self {
  holders = map (add_capture_block (self.blocks o).name) self.holders;
}

-- The end of `_capture_init`
unfoldable pub init_end : ℕ → Product → Step
unfolding init_failed
init_end o self =
    if product_is self.state ProductState.error
    then init_failed o fail_reply self
    else elim self.current_capture_block [
      | some other ↦ (self, raises assertion_error)
      | none ↦ (
        set_block_state o CaptureBlockState.capturing
            (record (set_state ProductState.capturing self) { current_capture_block = some o }),
        returns,
      )
    ]

-- What `_capture_init` does when one of its awaits raises.
abbrev pub init_awake : Wakeup → ℕ → Product → Step → Step
init_awake result o self after = after
init_awake (exception e) o self after = init_failed o e self
init_awake cancellation o self after = (capture_block_dead o self, raises cancelled_error)

-- The start of `_capture_done`
unfoldable pub done_begin : Bool → Product → Step
done_begin expected self = elim self.current_capture_block [
  | none ↦ (self, raises assertion_error)
  | some o ↦ (self, awaits (done_transition o expected))
]

abbrev pub is_current : ℕ → Option ℕ → Bool
is_current o none = false
is_current o (some x) = x == o

abbrev pub is_raised : Option Error → Bool
is_raised none = false
is_raised (some e) = true

abbrev pub outcome_of : Option Error → Next
outcome_of none = returns
outcome_of (some e) = raises e

-- The block is now burning down, and its post-processing is a task.
unfoldable pub start_postprocess : ℕ → Product → Product
start_postprocess o self =
    let self' =
      set_block_state o CaptureBlockState.burndown (record self { current_capture_block = none }) in
    create_task (postprocess_start o) (record self' {
      blocks =
          put o (record (self'.blocks o) { postprocess_task = some self'.next_task }) self'.blocks;
    })

-- The end of `_capture_done`, from `assert self.current_capture_block is capture_block`
unfoldable pub done_end : ℕ → Bool → Option Error → Product → Step
unfolding start_postprocess
done_end o expected failure self =
    if not (is_current o self.current_capture_block)
      || (not (product_is self.state ProductState.capturing) && not (is_raised failure || expected))
    then (self, raises assertion_error)
    else let self' =
        if product_is self.state ProductState.capturing
        then set_state ProductState.idle self
        else self in
      (start_postprocess o self', outcome_of failure)

-- After `_capture_done_impl`
unfoldable pub done_awake : Wakeup → ℕ → Bool → Product → Step
unfolding done_end
done_awake result o expected self =
    if product_is self.state ProductState.error && not expected
    then done_end o expected (some fail_reply) (set_state ProductState.error self)
    else done_end o expected none self
done_awake (exception e) o expected self =
    done_end o expected (some e) (set_state ProductState.error self)
done_awake cancellation o expected self = (self, raises cancelled_error)

-- The start of `_postprocess`. The telescope state and its node come and go together.
unfoldable pub postprocess_begin : ℕ → Product → Step
postprocess_begin o self =
    if self.has_telstate
    then (self, awaits (postprocess_transition o))
    else (self, awaits (postprocess_callback o))

-- The `finally` of `_postprocess`, up to the last transition.
unfoldable pub postprocess_leave : ℕ → Product → Step
postprocess_leave o self =
    if has_state CaptureBlockState.capturing (self.blocks o).state_time
      && has_state CaptureBlockState.burndown (self.blocks o).state_time
    then (self, awaits (postprocess_finally o))
    else (self, awaits (postprocess_callback o))

-- After the transition to POSTPROCESSING. What runs next are a launch and a batch run.
unfoldable pub postprocess_awake : Wakeup → ℕ → Product → Step
unfolding postprocess_leave
postprocess_awake result o self =
    (set_block_state o CaptureBlockState.postprocessing self, awaits (postprocess_run o))
postprocess_awake _ o self = postprocess_leave o self

-- `for capture_block in list(self.capture_blocks.values())` of a forced `_deconfigure`
abbrev pub abandon : Option ℕ → ℕ → Product → Product
abandon none o self = capture_block_dead o self
abandon (some t) o self = cancel t self

unfoldable pub abandon_all : Dict ℕ → Product → Product
abandon_all [] self = self
abandon_all ((n, o) ∷ d) self = abandon_all d (abandon (self.blocks o).postprocess_task o self)

-- The part of `_deconfigure` after the capture block is stopped.
unfoldable pub deconfigure_next : Bool → Product → Step
unfolding abandon_all
deconfigure_next force self =
    if force
    then (abandon_all self.capture_blocks self, awaits deconfigure_kill)
    else (self, awaits deconfigure_burndown)

-- The start of `_deconfigure`
unfoldable pub deconfigure_begin : Bool → Product → Step
unfolding deconfigure_next
deconfigure_begin force self =
    let self' = set_state ProductState.deconfiguring self in
    elim self'.current_capture_block [
      | none ↦ deconfigure_next force self'
      | some o ↦ (record self' { current_capture_block = none }, awaits (deconfigure_done force))
    ]

-- An exception of `_capture_done_impl` is only logged here.
abbrev pub deconfigure_awake : Wakeup → Bool → Product → Step
deconfigure_awake cancellation force self = (self, raises cancelled_error)
deconfigure_awake _ force self = deconfigure_next force self

-- `while self.capture_blocks`, with what follows the loop.
abbrev pub deconfigure_loop : Dict ℕ → Product → Step
deconfigure_loop [] self =
    (record (set_state ProductState.dead self) { dead_event = true }, returns)
deconfigure_loop ((n, o) ∷ d) self = (self, awaits (deconfigure_wait n o))

-- After `await capture_block.dead_event.wait()`
abbrev pub deconfigure_pop : String → Product → Step
deconfigure_pop n self =
    let self' = record self { capture_blocks = remove n self.capture_blocks } in
    deconfigure_loop self'.capture_blocks self'

-- What a task does when its `await` ends. Before its first step a task can only be cancelled.
unfoldable pub advance : Wakeup → Job → Product → Step
advance w configure_start self = or_raise w self (self, awaits configure_launch)
advance w configure_launch self = configure_step w self
advance (exception e) (configure_shutdown failure) self = (self, raises (reply_to e))
advance cancellation (configure_shutdown failure) self = (self, raises cancelled_error)
advance result (configure_shutdown failure) self = (self, raises (reply_to failure))
advance w (init_start o) self = or_raise w self (init_begin o self)
advance w (init_telstate o) self =
    init_awake w o self (init_hold o self, awaits (init_transition o))
advance w (init_transition o) self = init_awake w o self (init_end o self)
advance w (done_start expected) self = or_raise w self (done_begin expected self)
advance w (done_transition o expected) self = done_awake w o expected self
advance cancellation (postprocess_start o) self = (self, awaits (postprocess_callback o))
advance _ (postprocess_start o) self = postprocess_begin o self
advance w (postprocess_transition o) self = postprocess_awake w o self
advance w (postprocess_run o) self = postprocess_leave o self
advance w (postprocess_finally o) self = (self, awaits (postprocess_callback o))
advance w (postprocess_callback o) self = (capture_block_dead o self, returns)
advance w (deconfigure_start force) self = or_raise w self (deconfigure_begin force self)
advance w (deconfigure_done force) self = deconfigure_awake w force self
advance w deconfigure_kill self = or_raise w self (deconfigure_loop self.capture_blocks self)
advance w deconfigure_burndown self =
    or_raise w self (set_state ProductState.postprocessing self, awaits deconfigure_shutdown)
advance w deconfigure_shutdown self = or_raise w self (deconfigure_loop self.capture_blocks self)
advance w (deconfigure_wait n o) self = or_raise w self (deconfigure_pop n self)
