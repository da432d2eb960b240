-- ===== src/Scheduler/FakePhysicalTask.antt =====
-- `FakePhysicalTask` of scheduler.py. Its asyncio task is a flag that says whether there is one; the
-- sockets that no server has taken over are the names of their ports.
pub mod Driven
use katsdpcontroller.Prelude.{
  if◌then◌else◌, ◌==◌, String, Bool, true, false, not, ◌&&◌, ◌||◌, List, [], ◌∷◌, nat_eq, string_eq,
}
use katsdpcontroller.Scheduler.PhysicalNode.{
  TaskState, ◌<s◌, state_eq, PhysicalNode, new_node, set_state, Waited, expect_death, started,
  ready, killing, dead, success,
}

pub record FakePhysicalTask : Type 0 where
  pub node : PhysicalNode
  pub has_task : Bool
  pub kill_event : Bool
  pub sockets : List String

abbrev pub new_fake : List String → FakePhysicalTask
new_fake ports = record { node = new_node; has_task = false; kill_event = false; sockets = ports }

-- With nothing to kill it is dead at once.
unfoldable pub fake_state : TaskState → FakePhysicalTask → TaskState
fake_state state self = if state_eq state killing && not self.has_task then dead else state

-- The task is started if the node is between `STARTED` and `READY`.
abbrev pub start_task : PhysicalNode → Bool → Bool
start_task node has_task = has_task || (not (node.state <s started) && not (ready <s node.state))

-- `set_state`
unfoldable pub fake_set_state : TaskState → FakePhysicalTask → FakePhysicalTask
unfolding fake_state
fake_set_state state self =
    let node' = set_state (fake_state state self) self.node in
    record self {
      node = node';
      has_task = start_task node' self.has_task;
      sockets = if state_eq node'.state dead then [] else self.sockets;
    }

-- `kill` and `dependency_abort`
unfoldable pub fake_kill : FakePhysicalTask → FakePhysicalTask
fake_kill self = record self { node = expect_death self.node; kill_event = true }

-- `_dead_callback`
unfoldable pub dead_callback : FakePhysicalTask → FakePhysicalTask
dead_callback self = fake_set_state dead (record self { has_task = false })

-- `_ready_callback`, which is inherited, with the methods of this class.
unfoldable pub fake_ready_callback : Waited → FakePhysicalTask → FakePhysicalTask
fake_ready_callback (success done) self =
    let self' = record self { node = record self.node { ready_waiter = false } } in
    if self.node.state <s ready
    then (if done then fake_set_state ready self' else fake_set_state killing (fake_kill self'))
    else self'
fake_ready_callback _ self = record self { node = record self.node { ready_waiter = false } }

-- `del self._sockets[port]` in `_run`
unfoldable pub take_socket : String → List String → List String
take_socket port [] = []
take_socket port (p ∷ sockets) =
    let rest = take_socket port sockets in if port == p then rest else p ∷ rest
