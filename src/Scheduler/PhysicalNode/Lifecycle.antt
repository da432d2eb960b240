-- ===== src/Scheduler/PhysicalNode/Lifecycle.antt =====
-- The life of a node: states only go forward, the events agree with the state, and death is final.
use katsdpcontroller.Prelude.{◌<◌, ◌≢◌, false, List, [], ◌∷◌, ◌≤◌, ◌≡◌, ◌↔◌, ◌⊎◌, true, arith}
use katsdpcontroller.Scheduler.PhysicalNode.{
  Waited, expect_death, ready_callback, external_state, started, killing, success, TaskState, value,
  PhysicalNode, new_node, set_state, not_ready, starting, ready, dead,
}

-- Forward, or a cancelled launch.
abbrev pub IsForward : TaskState → TaskState → Type 0
IsForward old new = (value old ≤ value new) ⊎ (old ≡ starting) × (new ≡ not_ready)

-- What every reachable node satisfies.
pub record IsConsistent (n : PhysicalNode) : Type 0 where
  pub dead_event : (n.dead_event ≡ true) ↔ (n.state ≡ dead)
  pub ready_event : (n.ready_event ≡ true) ↔ (n.was_ready ≡ true) ⊎ (n.state ≡ dead)
  pub at_ready : n.state ≡ ready → n.was_ready ≡ true
  pub was_ready : n.was_ready ≡ true → 4 ≤ value n.state
  pub waiter : n.ready_waiter ≡ true → (3 ≤ value n.state) × (value n.state ≤ 4)

pub new_node-IsConsistent : IsConsistent new_node
new_node-IsConsistent = ground arith

pub set_state-IsConsistent :
    (state : TaskState) (n : PhysicalNode) → IsConsistent n → IsConsistent (set_state state n)
unfolding set_state
set_state-IsConsistent not_ready n c = ground arith
set_state-IsConsistent _ n c = ground arith

-- What can happen to a node: requests to change its state, the end of its waiter, and a kill.
pub data Event : Type 0 where
  change : TaskState → Event
  waited : Waited → Event
  kill : Event

-- A subclass that replaces the state that is asked for.
abbrev pub overridden : (TaskState → TaskState) → TaskState → PhysicalNode → PhysicalNode
overridden replace state n = set_state (replace state) n

abbrev pub handle : (TaskState → TaskState) → Event → PhysicalNode → PhysicalNode
handle replace (change state) n = overridden replace state n
handle replace (waited w) n = ready_callback (overridden replace) w n
handle replace kill n = expect_death n

abbrev pub run : (TaskState → TaskState) → List Event → PhysicalNode → PhysicalNode
run replace [] n = n
run replace (e ∷ es) n = run replace es (handle replace e n)

-- What one event leaves behind: the state goes forward or the launch was cancelled, and no event
-- is unset.
pub record IsProgress (n n' : PhysicalNode) : Type 0 where
  pub forward : IsForward n.state n'.state
  pub keeps_ready : n.ready_event ≡ true → n'.ready_event ≡ true
  pub keeps_dead : n.dead_event ≡ true → n'.dead_event ≡ true
  pub keeps_was_ready : n.was_ready ≡ true → n'.was_ready ≡ true
  pub dead_is_final : n.state ≡ dead → n'.state ≡ dead
  pub keeps_expected : n.death_expected ≡ true → n'.death_expected ≡ true

set_state-IsProgress : (state : TaskState) (n : PhysicalNode) → IsProgress n (set_state state n)
unfolding set_state
set_state-IsProgress not_ready n = ground arith
set_state-IsProgress _ n = ground arith

-- A node that has passed `READY` without having been ready, and is expected to die.
abbrev pub IsDoomed : PhysicalNode → Type 0
IsDoomed n = (5 ≤ value n.state) × (n.was_ready ≡ false) × (n.death_expected ≡ true)

set_state-IsDoomed :
    (state : TaskState) (n : PhysicalNode) → IsDoomed n → IsDoomed (set_state state n)
unfolding set_state
set_state-IsDoomed not_ready n d = ground arith
set_state-IsDoomed _ n d = ground arith

module _ (replace : TaskState → TaskState) where
  handle-IsConsistent :
      (e : Event) (n : PhysicalNode) → IsConsistent n → IsConsistent (handle replace e n)
  unfolding ready_callback
  handle-IsConsistent (change state) n c = set_state-IsConsistent (replace state) n c
  handle-IsConsistent (waited (success done)) n c =
      let n' : PhysicalNode = record n { ready_waiter = false } in
      ground (
        arith,
        set_state-IsConsistent (replace ready) n',
        set_state-IsConsistent (replace killing) (expect_death n'),
      )
  handle-IsConsistent (waited _) n c = ground arith
  handle-IsConsistent kill n c = ground arith

  -- However a subclass replaces the states that are asked for, any sequence of state changes,
  -- ends of the waiter and kills keeps a consistent node consistent: dead_event is set exactly in
  -- DEAD, ready_event exactly if the node was ready or is DEAD, was_ready holds in READY and only
  -- from READY on, and a waiter runs only in RUNNING or READY.
  pub run-IsConsistent :
      (es : List Event) (n : PhysicalNode) → IsConsistent n → IsConsistent (run replace es n)
  run-IsConsistent [] n c = c
  run-IsConsistent (e ∷ es) n c =
      run-IsConsistent es (handle replace e n) (handle-IsConsistent e n c)

  -- However a subclass replaces the states that are asked for, one state change, end of the
  -- waiter or kill moves the state of a node forward or keeps it, except from STARTING back to
  -- NOT_READY, it unsets none of ready_event, dead_event, was_ready and death_expected, and a
  -- DEAD node stays DEAD.
  pub handle-IsProgress : (e : Event) (n : PhysicalNode) → IsProgress n (handle replace e n)
  unfolding ready_callback
  handle-IsProgress (change state) n = set_state-IsProgress (replace state) n
  handle-IsProgress (waited (success done)) n =
      let n' : PhysicalNode = record n { ready_waiter = false } in
      ground (
        arith,
        set_state-IsProgress (replace ready) n',
        set_state-IsProgress (replace killing) (expect_death n'),
      )
  handle-IsProgress (waited _) n = ground arith
  handle-IsProgress kill n = ground arith

  handle-IsDoomed : (e : Event) (n : PhysicalNode) → IsDoomed n → IsDoomed (handle replace e n)
  unfolding ready_callback
  handle-IsDoomed (change state) n d = set_state-IsDoomed (replace state) n d
  handle-IsDoomed (waited (success done)) n d = ground arith
  handle-IsDoomed (waited _) n d = ground arith
  handle-IsDoomed kill n d = ground arith

  pub run-IsDoomed : (es : List Event) (n : PhysicalNode) → IsDoomed n → IsDoomed (run replace es n)
  run-IsDoomed [] n d = d
  run-IsDoomed (e ∷ es) n d = run-IsDoomed es (handle replace e n) (handle-IsDoomed e n d)

-- If the waiter of a consistent node that is not yet READY ends with a failed dependency, then
-- after that and any later events the state is past READY, the node was never ready, and its
-- death is expected.
pub dependency_failed :
    (n : PhysicalNode) (es : List Event)
    → IsConsistent n
    → value n.state < 4
    → IsDoomed (run (λ state. state) (waited (success false) ∷ es) n)
unfolding ready_callback set_state
dependency_failed n es c at =
    run-IsDoomed (λ state. state) es (handle (λ state. state) (waited (success false)) n)
      (ground arith)

-- An external service is never seen between its start and its end, nor being killed.
abbrev pub IsSettled : TaskState → Type 0
IsSettled state = (state ≢ started) × (state ≢ killing)

external_state-IsSettled : (state : TaskState) → IsSettled (external_state state)
unfolding external_state
external_state-IsSettled not_ready = ground arith
external_state-IsSettled _ = ground arith

set_state-IsSettled :
    (state : TaskState) (n : PhysicalNode)
    → IsSettled n.state
    → IsSettled state
    → IsSettled (set_state state n).state
unfolding set_state
set_state-IsSettled not_ready n h k = ground arith
set_state-IsSettled _ n h k = ground arith

handle-IsSettled :
    (e : Event) (n : PhysicalNode) → IsSettled n.state → IsSettled (handle external_state e n).state
unfolding ready_callback
handle-IsSettled (change state) n h =
    set_state-IsSettled (external_state state) n h (external_state-IsSettled state)
handle-IsSettled (waited (success done)) n h =
    let n' : PhysicalNode = record n { ready_waiter = false } in
    ground (
      arith,
      set_state-IsSettled (external_state ready) n' h (external_state-IsSettled ready),
      set_state-IsSettled (external_state killing) (expect_death n') h
          (external_state-IsSettled killing),
    )
handle-IsSettled (waited _) n h = ground arith
handle-IsSettled kill n h = h

-- A PhysicalExternal that is neither STARTED nor KILLING is in neither state after any sequence
-- of state changes, ends of the waiter and kills.
pub run-IsSettled :
    (es : List Event) (n : PhysicalNode)
    → IsSettled n.state
    → IsSettled (run external_state es n).state
run-IsSettled [] n h = h
run-IsSettled (e ∷ es) n h = run-IsSettled es (handle external_state e n) (handle-IsSettled e n h)
