-- ===== src/Examples/Subarrays.antt =====
-- Witnesses and tests for product_controller.py: a subarray product that is configured and starts
-- a capture block, and two tasks that report to the sensors.
use katsdpcontroller.Prelude.{
  ℕ, ◌≡◌, ◌≢◌, ◌⊎◌, true, false, none, some, [], ◌∷◌, refl, arith, String, ◌<◌, IsDict, Each,
  lookup, nat_eq, string_eq,
}
use katsdpcontroller.Errors.{err, fail_reply, assertion_error}
use katsdpcontroller.Scheduler.PhysicalNode.{new_node, starting}
use katsdpcontroller.Scheduler.PhysicalNode.Stats.{PhysicalTask, add_task, task_set_state}
use katsdpcontroller.ProductController.{
  ProductState, CaptureBlockState, Product, configure_start, configure_launch, set_state, put,
  init_start, init_telstate, init_transition, block_states, set_block_state,
}
use katsdpcontroller.ProductController.Tasks.{start_operation, raises, async_busy}
use katsdpcontroller.ProductController.Operations.{result, advance, init_begin, init_hold, init_end}
use katsdpcontroller.ProductController.Requests.{
  configure, capture_init, capture_done, deconfigure, configure_request, capture_init_request,
  new_block, handle, Happens, requested, awoken, Reach, here, next, new_product, run_task,
}
use katsdpcontroller.ProductController.Control.{is_live}
use katsdpcontroller.ProductController.Accounts.{is_open}
use katsdpcontroller.ProductController.CaptureBlocks.{
  IsCurrent, Reach-IsCurrent, IsLive, Reach-IsLive,
}
use katsdpcontroller.ProductController.Lifecycle.{
  Transition, Happens-Transition, one_operation, no_assertion_fails,
}
use katsdpcontroller.ProductController.TaskStats.{new_stats, reading, pos}
use katsdpcontroller.ProductController.TaskStats.Counting.{
  World, report, enters, moves, total, reading_refines_total,
}
use katsdpcontroller.ProductController.TaskStats.Counting

abbrev fresh_product : Product
fresh_product = new_product true

abbrev asked : Product
asked = start_operation configure_start fresh_product

abbrev launching : Product
launching = run_task 0 result configure_start asked

abbrev idle_product : Product
idle_product = run_task 0 result configure_launch launching

asked_step : Happens fresh_product asked
unfolding handle configure async_busy
asked_step = requested configure_request tt refl

launching_step : Happens asked launching
launching_step =
    awoken 0 (record { job = configure_start; cancelled = false }) result refl (refl, tt)

launching_task : launching.tasks 0 ≡ some (record { job = configure_launch; cancelled = false })
unfolding run_task advance
launching_task = refl

idle_step : Happens launching idle_product
idle_step =
    awoken 0 (record { job = configure_launch; cancelled = false }) result launching_task (refl, tt)

Reach-launching : Reach fresh_product launching
Reach-launching = next (next here asked_step) launching_step

Happens-Transition_example : Transition launching.state idle_product.state
Happens-Transition_example =
    Happens-Transition true launching idle_product Reach-launching idle_step

idle_product_state : idle_product.state ≡ ProductState.idle
unfolding run_task advance set_state
idle_product_state = refl

launching_live : is_live (launching.tasks 0) ≡ true
unfolding run_task advance
launching_live = refl

one_operation_example :
    (◌≡◌ {A = ℕ} 0 0)
    × ((n : String) → capture_init n launching ≡ err fail_reply)
    × (capture_done launching ≡ err fail_reply)
    × ((launching.state ≡ ProductState.dead) ⊎ (deconfigure false launching ≡ err fail_reply))
one_operation_example =
    one_operation true launching 0 0 Reach-launching launching_live launching_live

no_assertion_fails_example : (advance result configure_launch launching).1 ≢ raises assertion_error
no_assertion_fails_example =
    no_assertion_fails launching 0 (record { job = configure_launch; cancelled = false }) result
      Reach-launching launching_task refl (refl, tt) (cc)

abbrev initialising_product : Product
initialising_product = start_operation (init_start 0) (record idle_product {
  blocks = put 0 (new_block "1600000000") idle_product.blocks;
  next_block = 1;
})

abbrev placed_product : Product
placed_product = run_task 1 result (init_start 0) initialising_product

abbrev entering_product : Product
entering_product = run_task 1 result (init_telstate 0) placed_product

abbrev capturing_product : Product
capturing_product = run_task 1 result (init_transition 0) entering_product

Reach-idle : Reach fresh_product idle_product
Reach-idle = next Reach-launching idle_step

initialising_step : Happens idle_product initialising_product
unfolding handle capture_init async_busy run_task advance set_state
initialising_step =
    requested (capture_init_request "1600000000") (λ o lo e. absurd (omega arith)) refl

placed_task : initialising_product.tasks 1 ≡ some (record { job = init_start 0; cancelled = false })
unfolding run_task advance set_state
placed_task = refl

placed_step : Happens initialising_product placed_product
placed_step =
    awoken 1 (record { job = init_start 0; cancelled = false }) result placed_task (refl, tt)

entering_task : placed_product.tasks 1 ≡ some (record { job = init_telstate 0; cancelled = false })
unfolding run_task advance set_state init_begin init_hold
entering_task = refl

entering_step : Happens placed_product entering_product
entering_step =
    awoken 1 (record { job = init_telstate 0; cancelled = false }) result entering_task (refl, tt)

capturing_task :
    entering_product.tasks 1 ≡ some (record { job = init_transition 0; cancelled = false })
unfolding run_task advance set_state init_begin init_hold
capturing_task = refl

capturing_step : Happens entering_product capturing_product
capturing_step =
    awoken 1 (record { job = init_transition 0; cancelled = false }) result capturing_task
      (refl, tt)

Reach-capturing : Reach fresh_product capturing_product
Reach-capturing =
    next (next (next (next Reach-idle initialising_step) placed_step) entering_step) capturing_step

capturing_product_state :
    (capturing_product.state ≡ ProductState.capturing)
    × (capturing_product.current_capture_block ≡ some 0)
    × (capturing_product.capture_block_sensor ≡ ("1600000000", CaptureBlockState.capturing) ∷ [])
unfolding run_task advance set_state init_begin init_hold init_end set_block_state
capturing_product_state = (refl, refl, refl)

Reach-IsCurrent_example :
    (capturing_product.state ≡ ProductState.capturing
      → capturing_product.current_capture_block ≢ none)
    × ((o : ℕ) → capturing_product.current_capture_block ≡ some o → IsCurrent o capturing_product)
    × ((o : ℕ)
        → o < capturing_product.next_block
        → (capturing_product.blocks o).state ≡ CaptureBlockState.capturing
        → is_open capturing_product.state ≡ true
        → capturing_product.current_capture_block ≡ some o)
Reach-IsCurrent_example = Reach-IsCurrent true capturing_product Reach-capturing

Reach-IsLive_example :
    (capturing_product.capture_block_sensor
      ≡ block_states capturing_product.blocks capturing_product.capture_blocks)
    × IsDict capturing_product.capture_blocks
    × Each
        (IsLive capturing_product.blocks capturing_product.next_block)
        capturing_product.capture_blocks
    × ((o : ℕ)
        → o < capturing_product.next_block
        → (capturing_product.blocks o).dead_event ≡ true
        → lookup (capturing_product.blocks o).name capturing_product.capture_blocks ≡ none)
Reach-IsLive_example = Reach-IsLive true capturing_product Reach-capturing

abbrev new_task : PhysicalTask
new_task = record { node = new_node; queue = none; has_stats = false }

abbrev quiet_world : World
quiet_world = record { tasks = new_task ∷ new_task ∷ []; stats = new_stats }

abbrev queued_world : World
queued_world = report 1 (add_task 1 new_task) quiet_world

abbrev started_world : World
started_world = report 1 (task_set_state starting (add_task 1 new_task).0) queued_world

Reach-started : Counting.Reach quiet_world started_world
Reach-started =
    Counting.next (Counting.next Counting.here (enters 1 1 new_task refl (omega arith, refl, refl)))
      (moves 1 starting (add_task 1 new_task).0 refl)

reading_refines_total_example :
    reading 1 starting started_world.stats.in_state
    ≡ some (pos (total 1 starting started_world.tasks))
reading_refines_total_example =
    reading_refines_total 1 starting (new_task ∷ new_task ∷ []) started_world (omega arith)
      ((omega arith, refl, refl), ((omega arith, refl, refl), tt)) Reach-started
