-- ===== src/ProductController/Control.antt =====
-- The control part of `SubarrayProduct`: which operation runs, in which state of the product, and
-- whether there is a current capture block. product_controller.py.
pub mod Moves
pub mod Steps
pub mod Calls
pub mod Reachable
use katsdpcontroller.Prelude.{
  if◌then◌else◌, ◌==◌, nat_eq, ℕ, ◌+◌, ◌≤◌, ◌<◌, ◌≡◌, Bool, true, false, not, ◌&&◌, ◌||◌, Option,
  none, some, arith, refl, List, [], ◌∷◌, String, Dict,
}
use katsdpcontroller.ProductController.{
  ProductState, CaptureBlockState, CaptureBlock, Job, Task, Product, put, product_is, set_state,
  set_block_state, capture_block_dead, configure_start, configure_launch, configure_shutdown,
  init_start, init_telstate, init_transition, done_start, done_transition, postprocess_start,
  postprocess_transition, postprocess_run, postprocess_finally, postprocess_callback,
  deconfigure_start, deconfigure_done, deconfigure_kill, deconfigure_burndown, deconfigure_shutdown,
  deconfigure_wait,
}
use katsdpcontroller.ProductController.Tasks.{
  is_some, Next, awaits, returns, raises, remains, cancel_task, cancelled_task, cancel_if,
}
use katsdpcontroller.ProductController.Operations.{
  Wakeup, result, exception, cancellation, advance, is_current, abandon_all, start_postprocess,
}

-- The jobs that change the product's state.
abbrev pub is_operation : Job → Bool
is_operation (configure_shutdown e) = false
is_operation (postprocess_start o) = false
is_operation (postprocess_transition o) = false
is_operation (postprocess_run o) = false
is_operation (postprocess_finally o) = false
is_operation (postprocess_callback o) = false
is_operation _ = true

-- A task that can still change the product's state.
abbrev pub is_live : Option Task → Bool
is_live none = false
is_live (some task) = is_operation task.job && not task.cancelled

-- Where there is a current capture block.
abbrev pub fits : ProductState → Option ℕ → Bool
fits ProductState.capturing c = is_some c
fits ProductState.error c = true
fits _ c = not (is_some c)

-- What an operation finds when it runs on.
abbrev pub agrees : Job → ProductState → Option ℕ → Bool
agrees configure_start s c = product_is s ProductState.configuring
agrees configure_launch s c = product_is s ProductState.configuring
agrees (init_start o) s c =
    (product_is s ProductState.idle || product_is s ProductState.error) && not (is_some c)
agrees (init_telstate o) s c =
    (product_is s ProductState.idle || product_is s ProductState.error) && not (is_some c)
agrees (init_transition o) s c =
    (product_is s ProductState.idle || product_is s ProductState.error) && not (is_some c)
agrees (done_start e) s c =
    (product_is s ProductState.capturing || product_is s ProductState.error) && is_some c
agrees (done_transition o e) s c =
    (product_is s ProductState.capturing || product_is s ProductState.error) && is_current o c
agrees (deconfigure_start f) s c = not (product_is s ProductState.dead)
agrees (deconfigure_done f) s c = product_is s ProductState.deconfiguring
agrees deconfigure_kill s c = product_is s ProductState.deconfiguring
agrees deconfigure_burndown s c = product_is s ProductState.deconfiguring
agrees deconfigure_shutdown s c = product_is s ProductState.postprocessing
agrees (deconfigure_wait n o) s c =
    product_is s ProductState.deconfiguring || product_is s ProductState.postprocessing
agrees _ s c = true

-- The transitions of the product's state.
abbrev pub follows : ProductState → ProductState → Bool
follows ProductState.configuring s =
    product_is s ProductState.configuring
    || product_is s ProductState.idle
    || product_is s ProductState.deconfiguring
follows ProductState.idle s =
    product_is s ProductState.idle
    || product_is s ProductState.capturing
    || product_is s ProductState.error
    || product_is s ProductState.deconfiguring
follows ProductState.capturing s =
    product_is s ProductState.capturing
    || product_is s ProductState.idle
    || product_is s ProductState.error
    || product_is s ProductState.deconfiguring
follows ProductState.error s =
    product_is s ProductState.error || product_is s ProductState.deconfiguring
follows ProductState.deconfiguring s =
    product_is s ProductState.deconfiguring
    || product_is s ProductState.postprocessing
    || product_is s ProductState.dead
follows ProductState.postprocessing s =
    product_is s ProductState.postprocessing
    || product_is s ProductState.deconfiguring
    || product_is s ProductState.dead
follows ProductState.dead s = product_is s ProductState.dead

-- A live task is the current operation, and finds what it expects.
abbrev pub obeys : ℕ → Option Task → Product → Bool
obeys t none p = true
obeys t (some task) p =
    not (is_live (some task))
    || (is_current t p.async_task && agrees task.job p.state p.current_capture_block)

abbrev pub IsFresh : Product → Type 0
IsFresh p = (t : ℕ) → p.next_task ≤ t → p.tasks t ≡ none

-- The current operation has been created.
abbrev pub IsRecent : Option ℕ → ℕ → Type 0
IsRecent none n = Unit
IsRecent (some t) n = t < n

pub record IsControlled (p : Product) : Type 0 where
  pub fitting : fits p.state p.current_capture_block ≡ true
  pub fresh : IsFresh p
  pub recent : IsRecent p.async_task p.next_task
  pub obedient : (t : ℕ) → obeys t (p.tasks t) p ≡ true

-- No task comes to life, and those that live on are as before.
abbrev pub NoNewLife : Product → Product → Type 0
NoNewLife p q = (t : ℕ) → is_live (q.tasks t) ≡ true → q.tasks t ≡ p.tasks t

-- The capture block that a task starts.
abbrev pub starts : Job → Option ℕ
starts (init_start o) = some o
starts (init_telstate o) = some o
starts (init_transition o) = some o
starts _ = none

abbrev pub task_starts : Option Task → Option ℕ
task_starts none = none
task_starts (some task) = starts task.job

-- No task starts a capture block that it did not start before.
abbrev pub NoNewStart : Product → Product → Type 0
NoNewStart p q = (t o : ℕ) → task_starts (q.tasks t) ≡ some o → task_starts (p.tasks t) ≡ some o

-- What changes neither the state nor the current operation.
pub record IsTame (p q : Product) : Type 0 where
  pub same_state : q.state ≡ p.state
  pub same_current : q.current_capture_block ≡ p.current_capture_block
  pub same_operation : q.async_task ≡ p.async_task
  pub no_new : NoNewLife p q
  pub no_start : NoNewStart p q
  pub fresh : IsFresh p → IsFresh q
  pub grows : p.next_task ≤ q.next_task
  pub same_telstate : q.has_telstate ≡ p.has_telstate

pub IsTame-refl : (p : Product) → IsTame p p
IsTame-refl p = record {
  same_state = refl;
  same_current = refl;
  same_operation = refl;
  no_new = λ t l. refl;
  no_start = λ t o e. e;
  fresh = λ h. h;
  grows = omega arith;
  same_telstate = refl;
}

pub IsTame-trans : (p q r : Product) → IsTame p q → IsTame q r → IsTame p r
IsTame-trans p q r h k = record {
  same_state = cc;
  same_current = cc;
  same_operation = cc;
  no_new = λ t l. ground (arith, h.no_new t, k.no_new t);
  no_start = λ t o e. h.no_start t o (k.no_start t o e);
  fresh = λ f. k.fresh (h.fresh f);
  grows = omega arith;
  same_telstate = cc;
}

pub set_block_state-IsTame :
    (o : ℕ) (s : CaptureBlockState) (p : Product) → IsTame p (set_block_state o s p)
unfolding set_block_state
set_block_state-IsTame o s p = ground arith

pub capture_block_dead-IsTame : (o : ℕ) (p : Product) → IsTame p (capture_block_dead o p)
unfolding capture_block_dead
capture_block_dead-IsTame o p = ground arith
