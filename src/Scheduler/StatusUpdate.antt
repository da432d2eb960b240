-- ===== src/Scheduler/StatusUpdate.antt =====
-- `Scheduler.statusUpdate` and `PhysicalTask.set_status` of scheduler.py: what Mesos tells about a
-- task. Times are natural numbers.
pub mod Effects
use katsdpcontroller.Prelude.{
  ltb, if◌then◌else◌, Dict, lookup, insert, remove, ℕ, ◌+◌, String, Bool, true, false, not, ◌&&◌,
  Option, none, some, List, [], ◌∷◌,
}
use katsdpcontroller.Scheduler.PhysicalNode.Stats.{PhysicalTask, Change, task_set_state}
use katsdpcontroller.Scheduler.PhysicalNode.{◌<s◌, running, dead}

pub data StatusState : Type 0 where
  task_finished task_failed task_killed task_lost task_error : StatusState
  task_running task_killing other_status : StatusState

-- `in TERMINAL_STATUSES`
unfoldable pub is_terminal : StatusState → Bool
is_terminal task_finished = true
is_terminal task_failed = true
is_terminal task_killed = true
is_terminal task_lost = true
is_terminal task_error = true
is_terminal _ = false

pub record Status : Type 0 where
  pub task_id : String
  pub state : StatusState
  pub timestamp : ℕ

-- A `PhysicalTask` with the attributes that `statusUpdate` uses.
pub record ActiveTask : Type 0 where
  pub task : PhysicalTask
  pub start_time : Option ℕ
  pub end_time : Option ℕ
  pub kill_sent_time : Option ℕ
  pub status : Option Status

abbrev pub or_at : Option ℕ → ℕ → Option ℕ
or_at none t = some t
or_at (some s) t = some s

abbrev pub is_none : Option ℕ → Bool
is_none none = true
is_none (some _) = false

abbrev pub is_running : StatusState → Bool
is_running task_running = true
is_running _ = false

abbrev pub is_killing : StatusState → Bool
is_killing task_killing = true
is_killing _ = false

-- `set_status`
unfoldable pub set_status : Status → ActiveTask → ActiveTask
set_status status self =
    if is_running status.state && is_none self.start_time
    then record self { status = some status; start_time = some status.timestamp }
    else if is_terminal status.state && is_none self.end_time
    then record self {
      status = some status;
      end_time = some status.timestamp;
      start_time = or_at self.start_time status.timestamp;
    }
    else record self { status = some status }

pub data Call : Type 0 where
  kill_task acknowledge : String → Call

-- What `statusUpdate` does: the active tasks, the task that it is about as it is left, what that
-- reports to the statistics, and the calls of the driver.
pub record Updated : Type 0 where
  pub active : Dict ActiveTask
  pub object : Option ActiveTask
  pub changes : List Change
  pub calls : List Call

-- The new state of the task, if any.
unfoldable pub next_state : StatusState → ActiveTask → PhysicalTask × List Change
next_state state self =
    if is_terminal state
    then task_set_state dead self.task
    else if is_running state && self.task.node.state <s running
    then task_set_state running self.task
    else (self.task, [])

-- `kill_sent_time` is set, and the timeout is over.
unfoldable pub is_overdue : ℕ → ℕ → StatusState → ActiveTask → Bool
is_overdue now kill_timeout state self = elim self.kill_sent_time [
  | none ↦ false
  | some sent ↦ not (is_killing state) && not (is_terminal state) && ltb (sent + kill_timeout) now
]

-- `statusUpdate`
unfoldable pub status_update : ℕ → ℕ → Status → Dict ActiveTask → Updated
status_update now kill_timeout status active = elim (lookup status.task_id active) [
  | none ↦ record {
    active = active;
    object = none;
    changes = [];
    calls =
        if is_terminal status.state
        then acknowledge status.task_id ∷ []
        else kill_task status.task_id ∷ acknowledge status.task_id ∷ [];
  }
  | some self ↦
      let (task', changes) = next_state status.state self in
      let self' = set_status status (record self { task = task' }) in
      record {
        active =
            if is_terminal status.state
            then remove status.task_id active
            else insert status.task_id self' active;
        object = some self';
        changes = changes;
        calls =
            if is_overdue now kill_timeout status.state self'
            then kill_task status.task_id ∷ acknowledge status.task_id ∷ []
            else acknowledge status.task_id ∷ [];
      }
]
