-- ===== src/ProductController/Accounts/Reachable.antt =====
-- A `SubarrayProduct` is sound after every step. product_controller.py.
use katsdpcontroller.Prelude.{
  ◌==◌, nat_eq, string_eq, ℕ, ◌+◌, ◌<◌, ◌≡◌, ◌≢◌, Bool, true, false, not, ◌&&◌, Option, Bool-cases,
  none, some, arith, refl, sym, subst, ◌∙◌, inl, inr, String, some_inj,
}
use katsdpcontroller.Errors.{ok, ok-injective}
use katsdpcontroller.ProductController.{
  product_is, ProductState, Product, Job, Task, put, set_state, configure_start, init_start,
  init_telstate, init_transition, done_start, deconfigure_start,
}
use katsdpcontroller.ProductController.Tasks.{
  start_operation, cancel, cancelled_task, cancel_if, clear_async_task, replace_async_task,
  async_busy,
}
use katsdpcontroller.ProductController.Requests.{
  configure, deconfigure, capture_init, capture_done, go_to_error, Request, new_block, handle,
  IsNewName, Allowed, configure_request, capture_done_request, deconfigure_request,
  task_failed_request, capture_init_request, Happens, requested, awoken, cleared, Reach, here, next,
  new_product, is_running,
}
use katsdpcontroller.ProductController.Control.{starts, task_starts, IsControlled}
use katsdpcontroller.ProductController.Control.Reachable.{Happens-GoesOn}
use katsdpcontroller.ProductController.Accounts.{Captures}
use katsdpcontroller.ProductController.Accounts.Knowledge.{
  Always, AlwaysTask, AlwaysTask-Lasts, same-Lasts, cancel-IsKnown, cancel_starts,
}
use katsdpcontroller.ProductController.Accounts.Operations.{set_state-IsKnown, set_fields}
use katsdpcontroller.ProductController.Accounts.Live.{Live}
use katsdpcontroller.ProductController.Accounts.Steps.{LiveTask, IsSound}
use katsdpcontroller.ProductController.Accounts.Sound.{run_task-IsSound}
use katsdpcontroller.ProductController.Control.Calls.{
  error_if_running, go_to_error_free, go_to_error_else, deconfigure_accepted,
}
use katsdpcontroller.ProductController.Control.Reachable.{clear_cases, new_product-IsControlled}
use katsdpcontroller.ProductController.Accounts.Births.{born, born-IsKeen, born-IsEarly}
use katsdpcontroller.ProductController.Accounts.Calls.{
  IsKeen, keen, start_operation-IsKeen, LiveTask-alike, carried-IsAccounted,
}

-- What a task starts has been created.
starts_below :
    (job : Job) (p : Product) (x : ℕ) → Always job p → starts job ≡ some x → x < p.next_block
starts_below (init_start o) p x known e = ground arith
starts_below (init_telstate o) p x known e = ground arith
starts_below (init_transition o) p x known e = ground arith
starts_below job p x known e = absurd (cc)

task_starts_below :
    (o : Option Task) (p : Product) (x : ℕ)
    → AlwaysTask o p
    → task_starts o ≡ some x
    → x < p.next_block
task_starts_below none p x known e = absurd (cc)
task_starts_below (some task) p x known e = starts_below task.job p x known e

current_below :
    (p : Product) (o : ℕ) → IsKeen p → p.current_capture_block ≡ some o → o < p.next_block
current_below p o h e =
    (subst (Captures p.blocks p.next_block p.capture_blocks) e h.known.accounted.captures).0

-- An operation that starts no capture block.
start-IsKeen :
    (job : Job) (p : Product)
    → IsKeen p
    → starts job ≡ none
    → Always job p
    → Live job p
    → IsKeen (start_operation job p)
start-IsKeen job p h nothing known live =
    start_operation-IsKeen job p h known live (λ u x e f. cc) (λ o e f. cc)

errored-IsKeen : (q : Product) → IsKeen q → IsKeen (error_if_running q)
unfolding error_if_running set_state
errored-IsKeen q h = elim (Bool-cases (is_running q)) [
  | inr other ↦ rw other h
  | inl runs ↦
      let q' = set_state ProductState.error q in
      let f = set_fields ProductState.error q in
      rw runs (record {
        known = set_state-IsKnown ProductState.error q h.known (λ x. ground arith);
        lively = λ u. rw f.4 (LiveTask-alike (q.tasks u) q q' f.0 f.2 (h.lively u));
        unstarted = λ u o current. rw f.4 (h.unstarted u o (rw f.5 at current));
      })
]

cancelled_live : (o : Option Task) (p : Product) → LiveTask (cancelled_task o) p
cancelled_live none p = tt
cancelled_live (some task) p = λ alive. absurd (ground arith)

module _ (t : ℕ) (p : Product) (h : IsKeen p) where
  cancel_lively : (u : ℕ) → LiveTask ((cancel t p).tasks u) (cancel t p)
  cancel_lively u = elim (Bool-cases (u == t)) [
    | inl same ↦ rw same (cancelled_live (p.tasks t) (cancel t p))
    | inr other ↦ rw other (LiveTask-alike (p.tasks u) p (cancel t p) refl refl (h.lively u))
  ]

  cancel_unstarted :
      (u o : ℕ) → p.current_capture_block ≡ some o → task_starts ((cancel t p).tasks u) ≢ some o
  cancel_unstarted u o current begun = h.unstarted u o current (sym (cancel_starts t u p) ∙ begun)

  cancel-IsKeen : IsKeen (cancel t p)
  cancel-IsKeen = record {
    known = cancel-IsKnown t p h.known;
    lively = cancel_lively;
    unstarted = cancel_unstarted;
  }

cancel_if-IsKeen : (o : Option ℕ) (p : Product) → IsKeen p → IsKeen (cancel_if o p)
cancel_if-IsKeen none p h = h
cancel_if-IsKeen (some t) p h = cancel-IsKeen t p h

module _ (p : Product) (h : IsKeen p) where
  configure-IsKeen : (q : Product) → configure p ≡ ok q → IsKeen q
  unfolding configure
  configure-IsKeen q accepted =
      let is : start_operation configure_start p ≡ q = ground arith in
      subst IsKeen is (start-IsKeen configure_start p h refl tt tt)

  capture_done-IsKeen : (q : Product) → capture_done p ≡ ok q → IsKeen q
  unfolding capture_done
  capture_done-IsKeen q accepted =
      let is : start_operation (done_start false) p ≡ q = ground arith in
      subst IsKeen is (start-IsKeen (done_start false) p h refl tt tt)

  replaced-IsKeen : (force : Bool) → IsKeen (replace_async_task (deconfigure_start force) p)
  unfolding replace_async_task
  replaced-IsKeen force =
      cancel_if-IsKeen p.async_task (start_operation (deconfigure_start force) p)
        (start-IsKeen (deconfigure_start force) p h refl tt tt)

  deconfigure-IsKeen :
      (force : Bool) (q : Product) → IsControlled p → deconfigure force p ≡ ok q → IsKeen q
  deconfigure-IsKeen force q c accepted = elim (deconfigure_accepted p c force q accepted) [
    | inl same ↦ subst IsKeen (sym same) h
    | inr (alive, is) ↦ subst IsKeen (sym is) (replaced-IsKeen force)
  ]

  go_to_error-IsKeen : (q : Product) → IsControlled p → go_to_error p ≡ ok q → IsKeen q
  go_to_error-IsKeen q c accepted =
      elim (Bool-cases (product_is p.state ProductState.capturing && not (async_busy p))) [
        | inl alone ↦
            let free : async_busy p ≡ false = ground arith in
            let at_work : p.state ≡ ProductState.capturing = ground arith in
            subst IsKeen (sym (go_to_error_free p c q free at_work accepted)) (
              errored-IsKeen (start_operation (done_start true) p)
                (start-IsKeen (done_start true) p h refl tt tt))
        | inr other ↦
            subst IsKeen (sym (go_to_error_else p c q other accepted)) (errored-IsKeen p h)
      ]

  capture_init_accepted :
      (n : String) (q : Product)
      → capture_init n p ≡ ok q
      → q
        ≡ start_operation (init_start p.next_block) (record p {
          blocks = put p.next_block (new_block n) p.blocks;
          next_block = p.next_block + 1;
        })
  unfolding capture_init
  capture_init_accepted n q accepted = ground arith

  capture_init-IsKeen :
      (n : String) (q : Product) → IsNewName n p → capture_init n p ≡ ok q → IsKeen q
  capture_init-IsKeen n q new accepted = subst IsKeen (sym (capture_init_accepted n q accepted)) (
      start_operation-IsKeen (init_start p.next_block) (born n p h new) (born-IsKeen n p h new)
        (omega arith) (born-IsEarly n p h new) unclaimed idle)
    where
      unclaimed : (u x : ℕ) → task_starts (p.tasks u) ≡ some x → some p.next_block ≢ some x
      unclaimed u x e f =
          let below = task_starts_below (p.tasks u) p x (h.known.always u) e in
          let is = some_inj f in ground arith

      idle : (o : ℕ) → p.current_capture_block ≡ some o → some p.next_block ≢ some o
      idle o e f = let below = current_below p o h e in let is = some_inj f in ground arith

  handle-IsKeen :
      (r : Request) (q : Product) → IsControlled p → Allowed r p → handle r p ≡ ok q → IsKeen q
  unfolding handle
  handle-IsKeen configure_request q c allowed e = configure-IsKeen q e
  handle-IsKeen capture_done_request q c allowed e = capture_done-IsKeen q e
  handle-IsKeen (deconfigure_request force) q c allowed e = deconfigure-IsKeen force q c e
  handle-IsKeen (task_failed_request true) q c allowed e = go_to_error-IsKeen q c e
  handle-IsKeen (task_failed_request false) q c allowed e = subst IsKeen (ok-injective e) h
  handle-IsKeen (capture_init_request n) q c allowed e = capture_init-IsKeen n q allowed e

  clear-IsKeen : (t : ℕ) → IsKeen (clear_async_task t p)
  clear-IsKeen t = elim (clear_cases p t) [
    | inl same ↦ subst IsKeen (sym same) h
    | inr (current, is) ↦
        let q = record p { async_task = none } in
        subst IsKeen (sym is) (record {
          known = record {
            accounted = carried-IsAccounted p q h.known.accounted refl refl refl refl refl refl;
            always =
                λ u. AlwaysTask-Lasts (p.tasks u) p q (same-Lasts p q refl refl) (h.known.always u);
            separate = h.known.separate;
          };
          lively = λ u. LiveTask-alike (p.tasks u) p q refl refl (h.lively u);
          unstarted = h.unstarted;
        })
  ]

new_product-IsKeen : (has_telstate : Bool) → IsKeen (new_product has_telstate)
new_product-IsKeen has_telstate = record {
  known = record {
    accounted = record {
      listed = tt;
      once = tt;
      named = λ a b la lb e. absurd (omega arith);
      buried = λ a la e. refl;
      captures = tt;
      sole = λ a la e s. absurd (omega arith);
      unique = λ a b la lb e f. absurd (omega arith);
      sensed = refl;
    };
    always = λ u. tt;
    separate = λ t u o e f. absurd (cc);
  };
  lively = λ u. tt;
  unstarted = λ u o e f. absurd (cc);
}

joined-IsSound : (p : Product) → IsControlled p → IsKeen p → IsSound p
joined-IsSound p c h = record {
  controlled = c;
  known = h.known;
  lively = h.lively;
  unstarted = h.unstarted;
}

pub Happens-IsSound : (p q : Product) → IsSound p → Happens p q → IsSound q
Happens-IsSound p q h (requested r allowed e) =
    joined-IsSound q (Happens-GoesOn p q h.controlled (requested r allowed e)).0
      (handle-IsKeen p (keen p h) r q h.controlled allowed e)
Happens-IsSound p _ h (awoken t task w runs wakes) = run_task-IsSound p t task w h runs wakes
Happens-IsSound p _ h (cleared t ended) =
    joined-IsSound (clear_async_task t p)
      (Happens-GoesOn p (clear_async_task t p) h.controlled (cleared t ended)).0
      (clear-IsKeen p (keen p h) t)

pub Reach-IsSound :
    (has_telstate : Bool) (p : Product) → Reach (new_product has_telstate) p → IsSound p
Reach-IsSound has_telstate p here =
    joined-IsSound (new_product has_telstate) (new_product-IsControlled has_telstate)
      (new_product-IsKeen has_telstate)
Reach-IsSound has_telstate p (next {q} r step) =
    Happens-IsSound q p (Reach-IsSound has_telstate q r) step
