-- ===== src/ProductController.antt =====
-- `SubarrayProduct` and `CaptureBlock` of product_controller.py, with the states of controller.py
-- and the capture block sets of tasks.py: the state, and the setters that every operation uses.
-- Capture blocks are objects on a heap, named by numbers. The telescope state is a flag, the
-- graph's tasks are the sets of capture blocks that they hold, and times are not kept.
pub mod Tasks
pub mod Operations
pub mod Requests
pub mod Control
pub mod Lifecycle
pub mod TaskStats
pub mod Accounts
pub mod CaptureBlocks
use katsdpcontroller.Prelude.{
  if◌then◌else◌, ◌==◌, nat_eq, string_eq, ℕ, Bool, true, false, not, ◌&&◌, ◌||◌, Option, List, [],
  ◌∷◌, ◌++◌, map, String, Dict, remove, member,
}
use katsdpcontroller.Errors.{Error}

pub data ProductState : Type 0 where
  configuring idle capturing deconfiguring dead error postprocessing : ProductState

pub data CaptureBlockState : Type 0 where
  initialising capturing burndown postprocessing dead : CaptureBlockState

abbrev pub product_value : ProductState → ℕ
product_value ProductState.configuring = 0
product_value ProductState.idle = 1
product_value ProductState.capturing = 2
product_value ProductState.deconfiguring = 3
product_value ProductState.dead = 4
product_value ProductState.error = 5
product_value ProductState.postprocessing = 6

abbrev pub block_value : CaptureBlockState → ℕ
block_value CaptureBlockState.initialising = 0
block_value CaptureBlockState.capturing = 1
block_value CaptureBlockState.burndown = 2
block_value CaptureBlockState.postprocessing = 3
block_value CaptureBlockState.dead = 4

abbrev pub product_is : ProductState → ProductState → Bool
product_is a b = product_value a == product_value b

abbrev pub block_is : CaptureBlockState → CaptureBlockState → Bool
block_is a b = block_value a == block_value b

-- `CaptureBlock`. `state_time` has the keys of the dictionary, and `watched` says that
-- `state_change_callback` is set.
pub record CaptureBlock : Type 0 where
  pub name : String
  pub state : CaptureBlockState
  pub postprocess_task : Option ℕ
  pub dead_event : Bool
  pub watched : Bool
  pub state_time : List CaptureBlockState

-- `_capture_blocks` and `_capture_blocks_empty` of a `ProductPhysicalTask`.
pub record Holder : Type 0 where
  pub names : List String
  pub empty : Bool

-- Where the asynchronous functions wait, with what they keep.
pub data Job : Type 0 where
  configure_start configure_launch : Job
  configure_shutdown : Error → Job
  init_start init_telstate init_transition : ℕ → Job
  done_start : Bool → Job
  done_transition : ℕ → Bool → Job
  postprocess_start postprocess_transition postprocess_run postprocess_finally : ℕ → Job
  postprocess_callback : ℕ → Job
  deconfigure_start deconfigure_done : Bool → Job
  deconfigure_kill deconfigure_burndown deconfigure_shutdown : Job
  deconfigure_wait : String → ℕ → Job

-- An `asyncio.Task` that has not ended. `cancelled` is set until it is told.
pub record Task : Type 0 where
  pub job : Job
  pub cancelled : Bool

pub record Product : Type 0 where
  pub state : ProductState
  pub state_sensor : ProductState
  pub device_status_failed : Bool
  pub async_task : Option ℕ
  pub tasks : ℕ → Option Task
  pub next_task : ℕ
  pub blocks : ℕ → CaptureBlock
  pub next_block : ℕ
  pub capture_blocks : Dict ℕ
  pub current_capture_block : Option ℕ
  pub capture_block_sensor : Dict CaptureBlockState
  pub holders : List Holder
  pub has_telstate : Bool
  pub dead_event : Bool

-- A function changed at one place.
abbrev pub put {ℓ} : {A : Type ℓ} → ℕ → A → (ℕ → A) → ℕ → A
put k v f x = if x == k then v else f x

-- The setter of `SubarrayProduct.state`
unfoldable pub set_state : ProductState → Product → Product
set_state value self =
    if product_is self.state ProductState.error
      && not (product_is value ProductState.deconfiguring || product_is value ProductState.dead)
    then self
    else record self {
      device_status_failed =
          (product_is value ProductState.error && not (product_is self.state value))
          || self.device_status_failed;
      state = value;
      state_sensor = value;
    }

-- What `_update_capture_block_sensor` reports, before it is printed.
abbrev pub block_states : (ℕ → CaptureBlock) → Dict ℕ → Dict CaptureBlockState
block_states blocks d = map (λ (e : String × ℕ). (e.0, (blocks e.1).state)) d

-- `_update_capture_block_sensor`
abbrev pub update_capture_block_sensor : Product → Product
update_capture_block_sensor self = record self {
  capture_block_sensor = block_states self.blocks self.capture_blocks;
}

abbrev pub has_state : CaptureBlockState → List CaptureBlockState → Bool
has_state s [] = false
has_state s (x ∷ xs) = block_is s x || has_state s xs

-- The setter of `CaptureBlock.state`, on the block itself.
abbrev pub enter : CaptureBlockState → CaptureBlock → CaptureBlock
enter value block = record block {
  state = value;
  state_time =
      if has_state value block.state_time
      then block.state_time
      else block.state_time ++ (value ∷ []);
  dead_event = block_is value CaptureBlockState.dead || block.dead_event;
}

-- The setter of `CaptureBlock.state`
unfoldable pub set_block_state : ℕ → CaptureBlockState → Product → Product
set_block_state o value self =
    if block_is (self.blocks o).state value
    then self
    else let self' = record self { blocks = put o (enter value (self.blocks o)) self.blocks } in
      if (self.blocks o).watched then update_capture_block_sensor self' else self'

abbrev pub discard : String → List String → List String
discard n [] = []
discard n (m ∷ ms) = let rest = discard n ms in if n == m then rest else m ∷ rest

abbrev pub is_nil {ℓ} : {A : Type ℓ} → List A → Bool
is_nil [] = true
is_nil (x ∷ xs) = false

-- `ProductPhysicalTask.add_capture_block`
unfoldable pub add_capture_block : String → Holder → Holder
add_capture_block n self = record self {
  names = if member n self.names then self.names else n ∷ self.names;
  empty = false;
}

-- `ProductPhysicalTask.remove_capture_block`
unfoldable pub remove_capture_block : String → Holder → Holder
remove_capture_block n self =
    let rest = discard n self.names in
    record self { names = rest; empty = is_nil rest || self.empty }

-- `_capture_block_dead`
unfoldable pub capture_block_dead : ℕ → Product → Product
unfolding set_block_state remove_capture_block
capture_block_dead o self =
    let n = (self.blocks o).name in
    let self' =
      set_block_state o CaptureBlockState.dead
        (record self { capture_blocks = remove n self.capture_blocks }) in
    record self' { holders = map (remove_capture_block n) self'.holders }
