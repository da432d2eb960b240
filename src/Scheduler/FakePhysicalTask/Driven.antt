-- ===== src/Scheduler/FakePhysicalTask/Driven.antt =====
-- A fake task is never left without its asyncio task before it is dead.
use katsdpcontroller.Prelude.{
  Bool-cases, ◌≤◌, String, ◌≡◌, ap, inl, inr, true, false, List, [], ◌∷◌, arith,
}
use katsdpcontroller.Scheduler.PhysicalNode.{
  TaskState, value, ◌<s◌, set_state, Waited, ready, killing, dead, success,
}
use katsdpcontroller.Scheduler.FakePhysicalTask.{
  FakePhysicalTask, new_fake, fake_set_state, fake_kill, dead_callback, fake_ready_callback,
  take_socket,
}

pub data FakeEvent : Type 0 where
  set_to : TaskState → FakeEvent
  wait_over : Waited → FakeEvent
  asked_to_die task_over : FakeEvent
  serves : String → FakeEvent

abbrev pub handle : FakeEvent → FakePhysicalTask → FakePhysicalTask
handle (set_to state) self = fake_set_state state self
handle (wait_over w) self = fake_ready_callback w self
handle asked_to_die self = fake_kill self
handle task_over self = dead_callback self
handle (serves port) self = record self { sockets = take_socket port self.sockets }

abbrev pub run : List FakeEvent → FakePhysicalTask → FakePhysicalTask
run [] self = self
run (event ∷ events) self = run events (handle event self)

-- From `STARTED` to `KILLING` there is a task that will end, and `DEAD` has no sockets left.
pub record IsDriven (self : FakePhysicalTask) : Type 0 where
  pub driven : (2 ≤ value self.node.state) → (value self.node.state ≤ 5) → self.has_task ≡ true
  pub cleaned : self.node.state ≡ dead → self.sockets ≡ []

pub new_fake-IsDriven : (ports : List String) → IsDriven (new_fake ports)
new_fake-IsDriven ports = ground arith

fake_set_state-IsDriven :
    (state : TaskState) (self : FakePhysicalTask)
    → IsDriven self
    → IsDriven (fake_set_state state self)
unfolding fake_set_state set_state
fake_set_state-IsDriven state self h = ground arith

dead_callback-IsDriven : (self : FakePhysicalTask) → IsDriven (dead_callback self)
unfolding dead_callback fake_set_state set_state
dead_callback-IsDriven self = ground arith

handle-IsDriven :
    (event : FakeEvent) (self : FakePhysicalTask) → IsDriven self → IsDriven (handle event self)
unfolding fake_ready_callback fake_kill take_socket
handle-IsDriven (set_to state) self h = fake_set_state-IsDriven state self h
handle-IsDriven (wait_over (success done)) self h =
    let self' = record self { node = record self.node { ready_waiter = false } } in
    let h' : IsDriven self' = record { driven = h.driven; cleaned = h.cleaned } in
    let dying = fake_kill self' in
    let h'' : IsDriven dying = record { driven = h.driven; cleaned = h.cleaned } in
    elim (Bool-cases (self.node.state <s ready)) [
      | inr late ↦ rw (fake_ready_callback, late) h'
      | inl early ↦ elim (Bool-cases done) [
        | inl good ↦ rw (fake_ready_callback, early, good) (fake_set_state-IsDriven ready self' h')
        | inr bad ↦ rw (fake_ready_callback, early, bad) (fake_set_state-IsDriven killing dying h'')
      ]
    ]
handle-IsDriven (wait_over _) self h = record { driven = h.driven; cleaned = h.cleaned }
handle-IsDriven asked_to_die self h = record { driven = h.driven; cleaned = h.cleaned }
handle-IsDriven task_over self h = dead_callback-IsDriven self
handle-IsDriven (serves port) self h = record {
  driven = h.driven;
  cleaned = λ e. ap (take_socket port) (h.cleaned e);
}

-- If a fake task has an asyncio task in each state from STARTED to KILLING and no socket left in
-- DEAD, then this still holds after any sequence of state changes, ends of the waiter, kills,
-- ends of its asyncio task and sockets that a server takes over.
pub run-IsDriven :
    (events : List FakeEvent) (self : FakePhysicalTask) → IsDriven self → IsDriven (run events self)
run-IsDriven [] self h = h
run-IsDriven (event ∷ events) self h =
    run-IsDriven events (handle event self) (handle-IsDriven event self h)
