-- ===== src/ProductController/Lifecycle.antt =====
-- The states that a `SubarrayProduct` goes through, whatever happens. product_controller.py and
-- `ProductState` of controller.py.
use katsdpcontroller.Prelude.{
  nat_eq, ℕ, ◌≡◌, ◌≢◌, ◌⊎◌, Bool, true, false, some, arith, refl, inl, inr, String, subst,
  Bool-cases,
}
use katsdpcontroller.Errors.{assertion_error, fail_reply, err}
use katsdpcontroller.ProductController.{
  configure_start, ProductState, Job, Task, Product, product_is, set_state,
}
use katsdpcontroller.ProductController.Tasks.{raises}
use katsdpcontroller.ProductController.Operations.{
  Wakeup, result, exception, cancellation, advance, done_awake, done_end, init_begin, init_end,
  init_failed, done_begin, deconfigure_begin, deconfigure_next,
}
use katsdpcontroller.ProductController.Requests.{
  Wakes, Happens, Reach, new_product, capture_init, capture_done, deconfigure,
}
use katsdpcontroller.ProductController.Control.{
  is_operation, is_live, fits, agrees, follows, obeys, IsControlled,
}
use katsdpcontroller.ProductController.Control.Steps.{obeys_live, busy_of_live}
use katsdpcontroller.ProductController.Control.Reachable.{Happens-GoesOn, Reach-IsControlled}

-- The state machine of a subarray product.
pub data Transition : ProductState → ProductState → Type 0 where
  stays : (s : ProductState) → Transition s s
  configured : Transition ProductState.configuring ProductState.idle
  capture_begins : Transition ProductState.idle ProductState.capturing
  capture_ends : Transition ProductState.capturing ProductState.idle
  fails :
      (s : ProductState)
      → (s ≡ ProductState.idle) ⊎ (s ≡ ProductState.capturing)
      → Transition s ProductState.error
  deconfigures :
      (s : ProductState) → s ≢ ProductState.dead → Transition s ProductState.deconfiguring
  burnt_down : Transition ProductState.deconfiguring ProductState.postprocessing
  forced : Transition ProductState.deconfiguring ProductState.dead
  finished : Transition ProductState.postprocessing ProductState.dead

follows-Transition : (s s' : ProductState) → follows s s' ≡ true → Transition s s'
follows-Transition ProductState.configuring ProductState.configuring h =
    stays ProductState.configuring
follows-Transition ProductState.configuring ProductState.idle h = configured
follows-Transition ProductState.idle ProductState.idle h = stays ProductState.idle
follows-Transition ProductState.idle ProductState.capturing h = capture_begins
follows-Transition ProductState.idle ProductState.error h = fails ProductState.idle (inl refl)
follows-Transition ProductState.capturing ProductState.capturing h = stays ProductState.capturing
follows-Transition ProductState.capturing ProductState.idle h = capture_ends
follows-Transition ProductState.capturing ProductState.error h =
    fails ProductState.capturing (inr refl)
follows-Transition ProductState.error ProductState.error h = stays ProductState.error
follows-Transition ProductState.deconfiguring ProductState.postprocessing h = burnt_down
follows-Transition ProductState.deconfiguring ProductState.dead h = forced
follows-Transition ProductState.postprocessing ProductState.postprocessing h =
    stays ProductState.postprocessing
follows-Transition ProductState.postprocessing ProductState.dead h = finished
follows-Transition ProductState.dead ProductState.dead h = stays ProductState.dead
follows-Transition s ProductState.deconfiguring h = deconfigures s (ground arith)
follows-Transition s s' h = absurd (cc)

-- The subarray product implements the state machine `Transition`. In every state that a product,
-- with a telescope state or without, can reach by requests, failing critical tasks, tasks of its
-- own that run on, fail or are told that they are cancelled in any order, and ended tasks that
-- are cleared, the next such step leaves the product's state as it is or makes one of these
-- transitions: CONFIGURING to IDLE, IDLE to CAPTURING and back, IDLE or CAPTURING to ERROR, any
-- state but DEAD to DECONFIGURING, DECONFIGURING to POSTPROCESSING or DEAD, POSTPROCESSING to
-- DEAD. Capture blocks have names of their own.
pub Happens-Transition :
    (has_telstate : Bool) (p q : Product)
    → Reach (new_product has_telstate) p
    → Happens p q
    → Transition p.state q.state
Happens-Transition has_telstate p q reached step =
    follows-Transition p.state q.state
      (Happens-GoesOn p q (Reach-IsControlled has_telstate p reached).0 step).1

-- In every state that a product can reach, two tasks that can still change the product's state
-- (operations that are not cancelled) are one and the same; and while there is such a task,
-- capture_init with any name, capture_done and, unless the product is DEAD, a deconfigure that is
-- not forced raise FailReply.
pub one_operation :
    (has_telstate : Bool) (p : Product) (t u : ℕ)
    → Reach (new_product has_telstate) p
    → is_live (p.tasks t) ≡ true
    → is_live (p.tasks u) ≡ true
    → (t ≡ u)
      × ((n : String) → capture_init n p ≡ err fail_reply)
      × (capture_done p ≡ err fail_reply)
      × ((p.state ≡ ProductState.dead) ⊎ (deconfigure false p ≡ err fail_reply))
unfolding capture_init capture_done deconfigure
one_operation has_telstate p t u reached first second =
    let h = (Reach-IsControlled has_telstate p reached).0 in
    let busy = busy_of_live p t h first in
    let mine = obeys_live t (p.tasks t) p (h.obedient t) first in
    let other = obeys_live u (p.tasks u) p (h.obedient u) second in
    (
      ground arith,
      λ n. rw busy refl,
      rw busy refl,
      elim (Bool-cases (product_is p.state ProductState.dead)) [
        | inl over ↦ inl (ground arith)
        | inr alive ↦ inr (rw (alive, busy) refl)
      ],
    )

module _ (p : Product) (fitting : fits p.state p.current_capture_block ≡ true)
    (tel : p.has_telstate ≡ true) where
  abbrev Silent : Wakeup → Job → Type 0
  Silent w job = (advance w job p).1 ≢ raises assertion_error

  told : (job : Job) → is_operation job ≡ true → Silent cancellation job
  unfolding advance done_awake
  told configure_start operates e = cc
  told job operates e = ground arith

  unsaid :
      (w : Wakeup) (job : Job)
      → is_operation job ≡ true
      → w ≢ exception assertion_error
      → agrees job p.state p.current_capture_block ≡ true
      → Silent w job
  unfolding advance done_awake done_end init_begin init_end init_failed done_begin deconfigure_begin
      deconfigure_next set_state
  unsaid w configure_start operates other good e = ground arith
  unsaid w job operates other good e = ground arith

-- In every state that a product with a telescope state can reach, an operation that runs on, is
-- cancelled, or sees its await fail with anything but an AssertionError does not itself end with
-- an AssertionError: the assertions in _capture_init and _capture_done hold.
pub no_assertion_fails :
    (p : Product) (t : ℕ) (task : Task) (w : Wakeup)
    → Reach (new_product true) p
    → p.tasks t ≡ some task
    → is_operation task.job ≡ true
    → Wakes w task p
    → w ≢ exception assertion_error
    → (advance w task.job p).1 ≢ raises assertion_error
unfolding advance
no_assertion_fails p t task w reached runs operates wakes other =
    let (h, tel) = Reach-IsControlled true p reached in
    elim (Bool-cases task.cancelled) [
      | inl gone ↦ silent w wakes gone h tel
      | inr fine ↦
          let mine = subst (λ o. obeys t o p ≡ true) runs (h.obedient t) in
          unsaid p h.fitting tel w task.job operates other (ground arith)
    ]
  where
    silent :
        (w' : Wakeup)
        → Wakes w' task p
        → task.cancelled ≡ true
        → IsControlled p
        → p.has_telstate ≡ true
        → (advance w' task.job p).1 ≢ raises assertion_error
    silent cancellation x gone h tel = told p h.fitting tel task.job operates
    silent result x gone h tel = absurd (cc)
    silent (exception e) x gone h tel = absurd (cc)
