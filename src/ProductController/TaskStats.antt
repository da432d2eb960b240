-- ===== src/ProductController/TaskStats.antt =====
-- `TaskStats` of product_controller.py: the sensors that count the tasks of each queue by state,
-- and those that count batch tasks. A sensor's name is the queue and the state that it is made
-- from; time stamps are not kept.
pub mod Counting
use katsdpcontroller.Prelude.{
  if◌then◌else◌, ◌==◌, nat_eq, ℕ, zero, suc, ◌+◌, ◌≡◌, Bool, true, false, ◌&&◌, Option, none, some,
  List, [], ◌∷◌, ◌++◌, map, arith, refl, sum_of, one_if,
}
use katsdpcontroller.Scheduler.PhysicalNode.{
  TaskState, not_ready, starting, started, running, ready, killing, dead, value, state_eq,
}
use katsdpcontroller.Scheduler.PhysicalNode.Stats.{Change, is_about, gained, lost}

-- `negsuc n` is -(n + 1).
pub data ℤ : Type 0 where
  pos : ℕ → ℤ
  negsuc : ℕ → ℤ

abbrev pub up : ℤ → ℤ
up (pos n) = pos (n + 1)
up (negsuc zero) = pos 0
up (negsuc (suc n)) = negsuc n

abbrev pub down : ℤ → ℤ
down (pos zero) = negsuc 0
down (pos (suc n)) = pos n
down (negsuc n) = negsuc (n + 1)

pub record Sensor : Type 0 where
  pub queue : ℕ
  pub state : TaskState
  pub count : ℤ

pub record TaskStats : Type 0 where
  pub in_state : List Sensor
  pub created : ℕ
  pub begun : ℕ
  pub skipped : ℕ
  pub done : ℕ
  pub retried : ℕ
  pub failed : ℕ

abbrev pub default_queue : ℕ
default_queue = 0

abbrev pub batch_queue : ℕ
batch_queue = 1

abbrev pub states : List TaskState
states = not_ready ∷ starting ∷ started ∷ running ∷ ready ∷ killing ∷ dead ∷ []

abbrev pub queue_sensors : ℕ → List Sensor
queue_sensors q = map (λ s. record { queue = q; state = s; count = pos 0 }) states

-- `__init__`
unfoldable pub new_stats : TaskStats
new_stats = record {
  in_state = queue_sensors default_queue ++ queue_sensors batch_queue;
  created = 0;
  begun = 0;
  skipped = 0;
  done = 0;
  retried = 0;
  failed = 0;
}

-- `sensor.set_value(sensor.value + delta)`, for the sensor of the queue and the state.
abbrev pub add_delta : Change → List Sensor → List Sensor
add_delta change [] = []
add_delta change (sensor ∷ sensors) =
    let rest = add_delta change sensors in
    if change.queue == sensor.queue && state_eq change.state sensor.state
    then record sensor { count = if change.gain then up sensor.count else down sensor.count }
      ∷ sensors
    else sensor ∷ rest

abbrev pub add_deltas : List Change → List Sensor → List Sensor
add_deltas [] sensors = sensors
add_deltas (change ∷ changes) sensors = add_deltas changes (add_delta change sensors)

-- `task_state_changes`
unfoldable pub task_state_changes : List Change → TaskStats → TaskStats
task_state_changes changes self = record self { in_state = add_deltas changes self.in_state }

unfoldable pub batch_tasks_created : ℕ → TaskStats → TaskStats
batch_tasks_created n self = record self { created = self.created + n }

unfoldable pub batch_tasks_started : ℕ → TaskStats → TaskStats
batch_tasks_started n self = record self { begun = self.begun + n }

unfoldable pub batch_tasks_skipped : ℕ → TaskStats → TaskStats
batch_tasks_skipped n self = record self { skipped = self.skipped + n }

unfoldable pub batch_tasks_retried : ℕ → TaskStats → TaskStats
batch_tasks_retried n self = record self { retried = self.retried + n }

unfoldable pub batch_tasks_failed : ℕ → TaskStats → TaskStats
batch_tasks_failed n self = record self { failed = self.failed + n }

unfoldable pub batch_tasks_done : ℕ → TaskStats → TaskStats
batch_tasks_done n self = record self { done = self.done + n }

-- The sensor of a queue and a state.
abbrev pub reading : ℕ → TaskState → List Sensor → Option ℤ
reading q s [] = none
reading q s (sensor ∷ sensors) =
    let rest = reading q s sensors in
    if q == sensor.queue && state_eq s sensor.state then some sensor.count else rest

-- The Difference of two numbers.
abbrev pub Difference : ℕ → ℕ → ℤ → Type 0
Difference a b (pos n) = a ≡ b + n
Difference a b (negsuc n) = a + n + 1 ≡ b

abbrev pub Reads : ℕ → ℕ → Option ℤ → Type 0
Reads a b none = Unit
Reads a b (some z) = Difference a b z

pub up-Difference : (a b : ℕ) (z : ℤ) → Difference a b z → Difference (a + 1) b (up z)
up-Difference a b (pos n) h = omega arith
up-Difference a b (negsuc zero) h = omega arith
up-Difference a b (negsuc (suc n)) h = omega arith

pub down-Difference : (a b : ℕ) (z : ℤ) → Difference a b z → Difference a (b + 1) (down z)
down-Difference a b (pos zero) h = omega arith
down-Difference a b (pos (suc n)) h = omega arith
down-Difference a b (negsuc n) h = omega arith
