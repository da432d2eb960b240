-- ===== src/Examples/Nodes.antt =====
-- Tests and examples of the life of a node and of its statistics.
use katsdpcontroller.Prelude.{◌+◌, ◌<◌, ◌≡◌, refl, true, false, none, List, [], ◌∷◌, arith}
use katsdpcontroller.Scheduler.PhysicalNode.Stats.{
  PhysicalTask, task_set_state, set_queue, add_task, collect, enqueue_and_set, counts, gained, lost,
  enqueue_and_set-IsBalanced, collect_leaves_no_trace,
}
use katsdpcontroller.Scheduler.PhysicalNode.Lifecycle.{
  IsConsistent, new_node-IsConsistent, Event, handle, run, IsProgress, IsDoomed, run-IsConsistent,
  handle-IsProgress, dependency_failed, IsSettled, run-IsSettled, change, waited, kill,
}
use katsdpcontroller.Scheduler.PhysicalNode.{
  TaskState, value, PhysicalNode, new_node, is_ignored, set_state, ready_callback, external_state,
  starting, started, running, ready, killing, dead, success,
}

abbrev up_and_down : List Event
up_and_down =
    change starting
    ∷ change started
    ∷ change running
    ∷ waited (success true)
    ∷ kill
    ∷ change killing
    ∷ change dead
    ∷ []

run_sample : (run (λ s. s) up_and_down new_node).state ≡ dead
unfolding ready_callback set_state is_ignored
run_sample = refl

run-IsConsistent_example : IsConsistent (run (λ s. s) up_and_down new_node)
run-IsConsistent_example = run-IsConsistent (λ s. s) up_and_down new_node new_node-IsConsistent

handle-IsProgress_example : IsProgress new_node (handle (λ s. s) (change starting) new_node)
handle-IsProgress_example = handle-IsProgress (λ s. s) (change starting) new_node

abbrev running_node : PhysicalNode
running_node = record new_node { state = running; ready_waiter = true }

running_node-IsConsistent : IsConsistent running_node
running_node-IsConsistent = ground arith

dependency_failed_example :
    IsDoomed (run (λ s. s) (waited (success false) ∷ change ready ∷ change dead ∷ []) running_node)
dependency_failed_example =
    dependency_failed running_node (change ready ∷ change dead ∷ []) running_node-IsConsistent
      (omega arith)

run-IsSettled_example : IsSettled (run external_state up_and_down new_node).state
run-IsSettled_example = run-IsSettled up_and_down new_node (ground arith)

abbrev fresh_task : PhysicalTask
fresh_task = record { node = new_node; queue = none; has_stats = false }

abbrev launched : List TaskState
launched = starting ∷ started ∷ []

enqueue_and_set-IsBalanced_example :
    gained 7 started (enqueue_and_set 7 launched fresh_task).1
    ≡ lost 7 started (enqueue_and_set 7 launched fresh_task).1
      + counts 7 started (enqueue_and_set 7 launched fresh_task).0
enqueue_and_set-IsBalanced_example =
    enqueue_and_set-IsBalanced 7 started 7 launched fresh_task (omega arith) refl refl

starting_early : value (enqueue_and_set 7 (starting ∷ []) fresh_task).0.node.state < 2
unfolding task_set_state add_task set_state is_ignored set_queue
starting_early = omega arith

collect_leaves_no_trace_example :
    gained 7 starting (enqueue_and_set 7 (starting ∷ []) fresh_task).1
      + gained 7 starting (collect (enqueue_and_set 7 (starting ∷ []) fresh_task).0).1
    ≡ lost 7 starting (enqueue_and_set 7 (starting ∷ []) fresh_task).1
      + lost 7 starting (collect (enqueue_and_set 7 (starting ∷ []) fresh_task).0).1
collect_leaves_no_trace_example =
    collect_leaves_no_trace 7 starting 7 (starting ∷ []) fresh_task (omega arith) refl refl
      starting_early
