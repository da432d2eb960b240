-- ===== src/Examples/Faking.antt =====
-- Tests and examples of the fake tasks.
use katsdpcontroller.Prelude.{◌≡◌, refl, List, [], ◌∷◌}
use katsdpcontroller.Scheduler.FakePhysicalTask.Driven.{
  FakeEvent, run, IsDriven, new_fake-IsDriven, run-IsDriven, set_to, asked_to_die, task_over,
  serves,
}
use katsdpcontroller.Scheduler.PhysicalNode.{set_state, starting, started, running, killing, dead}
use katsdpcontroller.Scheduler.FakePhysicalTask.{new_fake, fake_set_state, fake_kill, dead_callback}

abbrev short_life : List FakeEvent
short_life =
    set_to starting
    ∷ set_to started
    ∷ serves "http"
    ∷ set_to running
    ∷ asked_to_die
    ∷ set_to killing
    ∷ task_over
    ∷ []

short_life_sample : (run short_life (new_fake ("http" ∷ "katcp" ∷ []))).node.state ≡ dead
unfolding fake_set_state set_state fake_kill dead_callback
short_life_sample = refl

run-IsDriven_example : IsDriven (run short_life (new_fake ("http" ∷ "katcp" ∷ [])))
run-IsDriven_example =
    run-IsDriven short_life (new_fake ("http" ∷ "katcp" ∷ []))
      (new_fake-IsDriven ("http" ∷ "katcp" ∷ []))
