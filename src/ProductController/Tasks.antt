-- ===== src/ProductController/Tasks.antt =====
-- The asynchronous tasks of `SubarrayProduct`: creating, cancelling and ending them, and the one
-- that is the current operation. product_controller.py.
use katsdpcontroller.Prelude.{
  if◌then◌else◌, ◌==◌, nat_eq, ℕ, ◌+◌, Bool, true, false, Option, none, some,
}
use katsdpcontroller.Errors.{Error}
use katsdpcontroller.ProductController.{Job, Task, Product, put}

abbrev pub is_some {ℓ} : {A : Type ℓ} → Option A → Bool
is_some none = false
is_some (some a) = true

-- `create_task` of the event loop.
abbrev pub create_task : Job → Product → Product
create_task job self = record self {
  tasks = put self.next_task (some (record { job = job; cancelled = false })) self.tasks;
  next_task = self.next_task + 1;
}

-- `create_task`, where the new task becomes `_async_task`.
abbrev pub start_operation : Job → Product → Product
start_operation job self = record (create_task job self) { async_task = some self.next_task }

abbrev pub cancel_task : Task → Task
cancel_task task = record task { cancelled = true }

abbrev pub cancelled_task : Option Task → Option Task
cancelled_task none = none
cancelled_task (some task) = some (cancel_task task)

-- `task.cancel()`, which does nothing to a task that has ended.
abbrev pub cancel : ℕ → Product → Product
cancel t self = record self { tasks = put t (cancelled_task (self.tasks t)) self.tasks }

abbrev pub cancel_if : Option ℕ → Product → Product
cancel_if none self = self
cancel_if (some t) self = cancel t self

-- What a task does when it stops running: it waits, or it ends.
pub data Next : Type 0 where
  awaits : Job → Next
  returns : Next
  raises : Error → Next

abbrev pub remains : Next → Option Task
remains (awaits job) = some (record { job = job; cancelled = false })
remains returns = none
remains (raises e) = none

abbrev pub settle : ℕ → Next → Product → Product
settle t next self = record self { tasks = put t (remains next) self.tasks }

-- `async_busy`
unfoldable pub async_busy : Product → Bool
async_busy self = elim self.async_task [ none ↦ false | some t ↦ is_some (self.tasks t) ]

-- `_clear_async_task`
unfoldable pub clear_async_task : ℕ → Product → Product
clear_async_task t self = elim self.async_task [
  | none ↦ self
  | some u ↦ if u == t then record self { async_task = none } else self
]

-- `_replace_async_task`, up to where it waits for the old task. The new task was created just
-- before.
unfoldable pub replace_async_task : Job → Product → Product
replace_async_task job self = cancel_if self.async_task (start_operation job self)
