-- ===== src/Scheduler/PhysicalNode.antt =====
-- `TaskState`, `PhysicalNode`, `PhysicalExternal` and the state of `FakePhysicalTask` of
-- scheduler.py. The asyncio events are flags, and `_ready_waiter` is a flag that says whether a
-- waiter is running; starting or cancelling it is what `set_state` does to the flag.
pub mod Lifecycle
pub mod Stats
use katsdpcontroller.Prelude.{
  ltb, if◌then◌else◌, ◌==◌, ◌+◌, Bool, true, false, not, ◌&&◌, nat_eq, string_eq, ℕ,
}

pub data TaskState : Type 0 where
  not_ready starting started running ready killing dead : TaskState

-- The values of the enumeration, by which `OrderedEnum` compares.
abbrev pub value : TaskState → ℕ
value not_ready = 0
value starting = 1
value started = 2
value running = 3
value ready = 4
value killing = 5
value dead = 6

infix 50 ◌<s◌
abbrev pub ◌<s◌ : TaskState → TaskState → Bool
a <s b = ltb (value a) (value b)

abbrev pub state_eq : TaskState → TaskState → Bool
state_eq a b = value a == value b

pub record PhysicalNode : Type 0 where
  pub state : TaskState
  pub ready_event : Bool
  pub dead_event : Bool
  pub death_expected : Bool
  pub was_ready : Bool
  pub ready_waiter : Bool
  pub generation : ℕ

-- `__init__`
abbrev pub new_node : PhysicalNode
new_node = record {
  state = not_ready;
  ready_event = false;
  dead_event = false;
  death_expected = false;
  was_ready = false;
  ready_waiter = false;
  generation = 0;
}

-- The transitions that `set_state` ignores: all that go back, but for a cancelled launch.
unfoldable pub is_ignored : TaskState → TaskState → Bool
is_ignored state old = state <s old && not (state_eq state not_ready && state_eq old starting)

-- The events and the waiter, by the new state.
abbrev pub signal : TaskState → PhysicalNode → PhysicalNode
signal state self =
    if state_eq state dead
    then record self { dead_event = true; ready_event = true }
    else if state_eq state ready
    then record self { was_ready = true; ready_event = true }
    else if state_eq state running && not self.ready_waiter
    then record self { ready_waiter = true }
    else self

abbrev pub stop_waiter : TaskState → PhysicalNode → PhysicalNode
stop_waiter state self =
    if ready <s state && self.ready_waiter then record self { ready_waiter = false } else self

-- `PhysicalNode.set_state`
unfoldable pub set_state : TaskState → PhysicalNode → PhysicalNode
unfolding is_ignored
set_state state self =
    if is_ignored state self.state
    then self
    else stop_waiter state (signal state (record self { state = state }))

-- The result of the waiter's future.
pub data Waited : Type 0 where
  success : Bool → Waited
  cancelled raised : Waited

-- `dependency_abort` and `kill`
abbrev pub expect_death : PhysicalNode → PhysicalNode
expect_death self = record self { death_expected = true }

-- `_ready_callback`. `set_state` is a method that a subclass overrides.
unfoldable pub ready_callback :
    (TaskState → PhysicalNode → PhysicalNode) → Waited → PhysicalNode → PhysicalNode
ready_callback set_state' (success done) self =
    let self' = record self { ready_waiter = false } in
    if self.state <s ready
    then (if done then set_state' ready self' else set_state' killing (expect_death self'))
    else self'
ready_callback set_state' _ self = record self { ready_waiter = false }

-- `clone`
unfoldable pub clone : PhysicalNode → PhysicalNode
clone self = record new_node { generation = self.generation + 1 }

-- `PhysicalExternal.set_state`
unfoldable pub external_state : TaskState → TaskState
external_state state =
    if not (state <s started) && state <s ready
    then running
    else if state_eq state killing
    then dead
    else state

unfoldable pub external_set_state : TaskState → PhysicalNode → PhysicalNode
unfolding external_state set_state
external_set_state state self = set_state (external_state state) self
