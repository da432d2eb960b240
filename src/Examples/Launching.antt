-- ===== src/Examples/Launching.antt =====
-- Tests and examples of the launch queues and of the status updates.
use katsdpcontroller.Prelude.{Dict, ◌≡◌, refl, true, false, none, some, List, [], ◌∷◌, map}
use katsdpcontroller.Scheduler.StatusUpdate.Effects.{
  AreLive, Effect, status_update-Effect, status_update-AreLive,
}
use katsdpcontroller.Scheduler.LaunchQueue.Choice.{front-live_groups, IsChoice, choose-IsChoice}
use katsdpcontroller.Scheduler.LaunchQueue.{
  LaunchGroup, LaunchQueue, clear_cancelled, first_of, front, has_groups, live_groups, choose,
}
use katsdpcontroller.Scheduler.PhysicalNode.{new_node, started}
use katsdpcontroller.Scheduler.StatusUpdate.{
  is_terminal, Status, ActiveTask, set_status, is_overdue, status_update, task_lost, task_running,
  kill_task, acknowledge,
}

abbrev urgent : LaunchGroup
urgent = record { id = 1; deadline = some 50; is_cancelled = false }

abbrev endless : LaunchGroup
endless = record { id = 2; deadline = none; is_cancelled = false }

abbrev withdrawn : LaunchGroup
withdrawn = record { id = 3; deadline = some 10; is_cancelled = true }

abbrev queues : List LaunchQueue
queues =
    record { role = "cbf"; priority = 1; groups = withdrawn ∷ endless ∷ [] }
    ∷ record { role = "sdp"; priority = 1; groups = urgent ∷ [] }
    ∷ record { role = "batch"; priority = 2; groups = urgent ∷ [] }
    ∷ record { role = "idle"; priority = 0; groups = withdrawn ∷ [] }
    ∷ []

choose_sample : map (λ c. c.group) (choose queues) ≡ urgent ∷ endless ∷ []
unfolding choose front has_groups clear_cancelled
choose_sample = refl

choose-IsChoice_example : IsChoice queues (choose queues)
choose-IsChoice_example = choose-IsChoice queues

abbrev one_queue : LaunchQueue
one_queue = record { role = "cbf"; priority = 1; groups = withdrawn ∷ endless ∷ [] }

front-live_groups_example :
    ((front one_queue).0 ≡ first_of (live_groups one_queue.groups))
    × (live_groups (front one_queue).1.groups ≡ live_groups one_queue.groups)
front-live_groups_example = front-live_groups one_queue

abbrev started_task : ActiveTask
started_task = record {
  task = record { node = record new_node { state = started }; queue = some 0; has_stats = true };
  start_time = none;
  end_time = none;
  kill_sent_time = some 10;
  status = none;
}

abbrev active_tasks : Dict ActiveTask
active_tasks = ("task-1", started_task) ∷ []

active_tasks-AreLive : AreLive active_tasks
active_tasks-AreLive = (((λ e. cc), refl), tt)

abbrev lost : Status
lost = record { task_id = "task-1"; state = task_lost; timestamp = 99 }

abbrev up : Status
up = record { task_id = "task-1"; state = task_running; timestamp = 98 }

lost_sample : (status_update 100 5 lost active_tasks).active ≡ []
unfolding status_update is_terminal
lost_sample = refl

-- The kill that was sent at 10 is overdue at 100.
up_sample :
    (status_update 100 5 up active_tasks).calls ≡ kill_task "task-1" ∷ acknowledge "task-1" ∷ []
unfolding status_update is_overdue set_status is_terminal
up_sample = refl

status_update-Effect_example :
    Effect 100 5 lost active_tasks (status_update 100 5 lost active_tasks)
status_update-Effect_example = status_update-Effect 100 5 lost active_tasks active_tasks-AreLive

status_update-AreLive_example : AreLive (status_update 100 5 up active_tasks).active
status_update-AreLive_example = status_update-AreLive 100 5 up active_tasks active_tasks-AreLive
