-- ===== src/ProductController/Requests.antt =====
-- What others call on a `SubarrayProduct`: `configure`, `deconfigure`, `capture_init`,
-- `capture_done` and the reports of failing tasks; and the steps of the event loop.
-- product_controller.py.
use katsdpcontroller.Prelude.{
  if◌then◌else◌, nat_eq, ℕ, ◌+◌, Bool, true, false, not, ◌&&◌, ◌||◌, none, some, [], String, ◌≡◌,
  ◌≢◌, ◌<◌,
}
use katsdpcontroller.Errors.{Result, ok, err, assertion_error, fail_reply}
use katsdpcontroller.ProductController.{
  ProductState, CaptureBlockState, CaptureBlock, Job, Task, Product, put, product_is, set_state,
  configure_start, init_start, done_start, deconfigure_start, deconfigure_wait,
}
use katsdpcontroller.ProductController.Tasks.{
  start_operation, async_busy, clear_async_task, replace_async_task, settle,
}
use katsdpcontroller.ProductController.Operations.{Wakeup, cancellation, advance}

-- `configure`
unfoldable pub configure : Product → Result Product
configure self =
    if async_busy self || not (product_is self.state ProductState.configuring)
    then err assertion_error
    else ok (start_operation configure_start self)

-- `deconfigure`, up to where it waits.
unfoldable pub deconfigure : Bool → Product → Result Product
deconfigure force self =
    if product_is self.state ProductState.dead
    then ok self
    else if async_busy self && not force
    then err fail_reply
    else if not
          (product_is self.state ProductState.idle || product_is self.state ProductState.error)
        && not force
    then err fail_reply
    else ok (replace_async_task (deconfigure_start force) self)

-- `CaptureBlock`
abbrev pub new_block : String → CaptureBlock
new_block n = record {
  name = n;
  state = CaptureBlockState.initialising;
  postprocess_task = none;
  dead_event = false;
  watched = false;
  state_time = [];
}

-- `capture_init`, up to where it waits.
unfoldable pub capture_init : String → Product → Result Product
capture_init n self =
    if async_busy self
    then err fail_reply
    else if not (product_is self.state ProductState.idle)
    then err fail_reply
    else if not self.has_telstate
    then err fail_reply
    else ok (
        start_operation (init_start self.next_block) (record self {
          blocks = put self.next_block (new_block n) self.blocks;
          next_block = self.next_block + 1;
        }))

-- `capture_done`, up to where it waits.
unfoldable pub capture_done : Product → Result Product
capture_done self =
    if async_busy self
    then err fail_reply
    else if not (product_is self.state ProductState.capturing)
    then err fail_reply
    else elim self.current_capture_block [
      | none ↦ err assertion_error
      | some o ↦ ok (start_operation (done_start false) self)
    ]

abbrev pub is_running : Product → Bool
is_running self =
    product_is self.state ProductState.idle || product_is self.state ProductState.capturing

-- `_go_to_error`
unfoldable pub go_to_error : Product → Result Product
go_to_error self =
    if product_is self.state ProductState.capturing && not (async_busy self)
    then elim self.current_capture_block [
      | none ↦ err assertion_error
      | some o ↦
          let self' = start_operation (done_start true) self in
          ok (if is_running self' then set_state ProductState.error self' else self')
    ]
    else ok (if is_running self then set_state ProductState.error self else self)

-- `unexpected_death` and `bad_device_status`
abbrev pub task_failed : Bool → Product → Result Product
task_failed critical self = if critical then go_to_error self else ok self

-- The calls of others.
pub data Request : Type 0 where
  configure_request capture_done_request : Request
  deconfigure_request task_failed_request : Bool → Request
  capture_init_request : String → Request

unfoldable pub handle : Request → Product → Result Product
handle configure_request self = configure self
handle capture_done_request self = capture_done self
handle (deconfigure_request force) self = deconfigure force self
handle (task_failed_request critical) self = task_failed critical self
handle (capture_init_request n) self = capture_init n self

-- The names of the capture blocks so far.
abbrev pub IsNewName : String → Product → Type 0
IsNewName n self = (o : ℕ) → o < self.next_block → (self.blocks o).name ≢ n

-- The master controller gives out a capture block name once.
abbrev pub Allowed : Request → Product → Type 0
Allowed (capture_init_request n) self = IsNewName n self
Allowed _ self = Unit

-- A task that waits for a capture block's death runs on once that block is dead.
abbrev pub IsReady : Job → Product → Type 0
IsReady (deconfigure_wait n o) self = (self.blocks o).dead_event ≡ true
IsReady _ self = Unit

-- A task that is cancelled is told so when it next runs, and no other is.
abbrev pub Wakes : Wakeup → Task → Product → Type 0
Wakes cancellation task self = task.cancelled ≡ true
Wakes _ task self = (task.cancelled ≡ false) × IsReady task.job self

-- A task runs to its next `await`, or to its end.
unfoldable pub run_task : ℕ → Wakeup → Job → Product → Product
run_task t w job self = let (self', next) = advance w job self in settle t next self'

-- One step of the event loop.
pub data Happens (p : Product) : Product → Type 0 where
  requested : {q : Product} (r : Request) → Allowed r p → handle r p ≡ ok q → Happens p q
  awoken :
      (t : ℕ) (task : Task) (w : Wakeup)
      → p.tasks t ≡ some task
      → Wakes w task p
      → Happens p (run_task t w task.job p)
  cleared : (t : ℕ) → p.tasks t ≡ none → Happens p (clear_async_task t p)

pub data Reach (p : Product) : Product → Type 0 where
  here : Reach p p
  next : {q r : Product} → Reach p q → Happens q r → Reach p r

-- `__init__`
abbrev pub new_product : Bool → Product
new_product has_telstate = record {
  state = ProductState.configuring;
  state_sensor = ProductState.configuring;
  device_status_failed = false;
  async_task = none;
  tasks = λ _. none;
  next_task = 0;
  blocks = λ _. new_block "";
  next_block = 0;
  capture_blocks = [];
  current_capture_block = none;
  capture_block_sensor = [];
  holders = [];
  has_telstate = has_telstate;
  dead_event = false;
}
