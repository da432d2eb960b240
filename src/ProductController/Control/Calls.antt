-- ===== src/ProductController/Control/Calls.antt =====
-- The calls of others on a `SubarrayProduct` keep its control part in order.
-- product_controller.py.
use katsdpcontroller.Prelude.{
  ◌==◌, nat_eq, ℕ, ◌+◌, ◌<◌, ◌≡◌, ◌≢◌, ◌⊎◌, Bool, true, false, not, ◌&&◌, ◌||◌, Option, Bool-cases,
  none, some, arith, refl, sym, subst, Option-cases, String, inl, inr, if◌then◌else◌,
}
use katsdpcontroller.Errors.{ok, ok-injective}
use katsdpcontroller.ProductController.{
  ProductState, Job, Task, Product, put, product_is, set_state, configure_start, init_start,
  done_start, deconfigure_start,
}
use katsdpcontroller.ProductController.Tasks.{
  async_busy, replace_async_task, start_operation, cancel, cancelled_task,
}
use katsdpcontroller.ProductController.Requests.{
  configure, deconfigure, capture_init, capture_done, go_to_error, Request, new_block,
  configure_request, capture_done_request, deconfigure_request, task_failed_request, is_running,
  capture_init_request, handle,
}
use katsdpcontroller.ProductController.Control.{is_live, fits, agrees, obeys, IsControlled}
use katsdpcontroller.ProductController.Control.Steps.{
  GoesOn, follows_refl, start_operation-IsControlled, not_live, obeys_live,
}

cancelled_dead : (o : Option Task) → is_live (cancelled_task o) ≡ false
cancelled_dead none = refl
cancelled_dead (some task) = ground arith

agrees_error :
    (job : Job) (s : ProductState) (c : Option ℕ)
    → (product_is s ProductState.idle || product_is s ProductState.capturing) ≡ true
    → agrees job s c ≡ true
    → agrees job ProductState.error c ≡ true
agrees_error configure_start s c runs good = ground arith
agrees_error job s c runs good = ground arith

abbrev errored : Product → Product
errored q = record q {
  state = ProductState.error;
  state_sensor = ProductState.error;
  device_status_failed = true;
}

to_error : (q : Product) → is_running q ≡ true → set_state ProductState.error q ≡ errored q
unfolding set_state
to_error q runs = ground arith

obeys_error :
    (u : ℕ) (o : Option Task) (q : Product)
    → is_running q ≡ true
    → obeys u o q ≡ true
    → obeys u o (errored q) ≡ true
obeys_error u none q runs good = refl
obeys_error u (some task) q runs good =
    ground (arith, agrees_error task.job q.state q.current_capture_block)

-- The product in the error state, with its tasks as they are.
errored-IsControlled :
    (q : Product) → IsControlled q → is_running q ≡ true → IsControlled (errored q)
errored-IsControlled q h runs = record {
  fitting = refl;
  fresh = h.fresh;
  recent = h.recent;
  obedient = λ u. obeys_error u (q.tasks u) q runs (h.obedient u);
}

unfoldable pub error_if_running : Product → Product
error_if_running q = if is_running q then set_state ProductState.error q else q

error_if_running-GoesOn :
    (p q : Product)
    → IsControlled q
    → q.state ≡ p.state
    → q.has_telstate ≡ p.has_telstate
    → GoesOn p (error_if_running q)
unfolding error_if_running
error_if_running-GoesOn p q h same tel = elim (Bool-cases (is_running q)) [
  | inl runs ↦ rw (runs, to_error q runs) (errored-IsControlled q h runs, ground arith, tel)
  | inr other ↦ rw other (h, rw same (follows_refl p.state), tel)
]

module _ (p : Product) (h : IsControlled p) where
  -- A new operation on a product that is not busy, in a state and with capture blocks of its own.
  start_free :
      (job : Job) (q : Product)
      → async_busy p ≡ false
      → q.tasks ≡ (start_operation job p).tasks
      → q.next_task ≡ p.next_task + 1
      → q.async_task ≡ some p.next_task
      → fits q.state q.current_capture_block ≡ true
      → agrees job q.state q.current_capture_block ≡ true
      → IsControlled q
  start_free job q free tasks count current fitting good =
      start_operation-IsControlled p q job h (λ u le. rw tasks (ground (arith, h.fresh u)))
        (rw count (omega arith)) current (λ u apart. rw tasks (rw apart (not_live p u h free)))
        (rw tasks (ground arith)) fitting good

  -- Cancelling the current operation leaves no other.
  pub live_is : (t u : ℕ) → p.async_task ≡ some t → is_live (p.tasks u) ≡ true → (t == u) ≡ true
  live_is t u e alive = let mine = obeys_live u (p.tasks u) p (h.obedient u) alive in rw e at mine

  cancelled_others :
      (t u : ℕ) (job : Job)
      → p.async_task ≡ some t
      → (u == p.next_task) ≡ false
      → is_live ((cancel t (start_operation job p)).tasks u) ≡ false
  cancelled_others t u job e apart = elim (Bool-cases (u == t)) [
    | inl same ↦ rw same (cancelled_dead ((start_operation job p).tasks t))
    | inr other ↦
        rw (other, apart)
          (elim (Bool-cases (is_live (p.tasks u))) [
            | inl alive ↦ let same = live_is t u e alive in ground arith
            | inr over ↦ over
          ])
  ]

  nothing_live : (u : ℕ) → p.async_task ≡ none → is_live (p.tasks u) ≡ false
  nothing_live u nothing = elim (Bool-cases (is_live (p.tasks u))) [
    | inl alive ↦
        let mine = obeys_live u (p.tasks u) p (h.obedient u) alive in
        let wrong = rw nothing at mine in absurd (cc)
    | inr over ↦ over
  ]

  deconfigure_agrees :
      (force : Bool)
      → p.state ≢ ProductState.dead
      → agrees (deconfigure_start force) p.state p.current_capture_block ≡ true
  deconfigure_agrees force alive = ground arith

  start_forced :
      (force : Bool)
      → p.state ≢ ProductState.dead
      → IsControlled (replace_async_task (deconfigure_start force) p)
  unfolding replace_async_task
  start_forced force alive = elim (Option-cases p.async_task) [
    | inl nothing ↦
        let q = start_operation (deconfigure_start force) p in
        rw nothing (
          start_operation-IsControlled p q (deconfigure_start force) h
            (λ u le. ground (arith, h.fresh u)) (omega arith) refl
            (λ u apart. rw apart (nothing_live u nothing)) (ground arith) h.fitting
            (deconfigure_agrees force alive))
    | inr (t, e) ↦
        let recent : t < p.next_task = rw e at h.recent in
        let q = cancel t (start_operation (deconfigure_start force) p) in
        rw e (
          start_operation-IsControlled p q (deconfigure_start force) h
            (λ u le. ground (arith, h.fresh u, h.fresh t)) (omega arith) refl
            (λ u apart. cancelled_others t u (deconfigure_start force) e apart) (ground arith)
            h.fitting (deconfigure_agrees force alive))
  ]

  pub configure-GoesOn : (q : Product) → configure p ≡ ok q → GoesOn p q
  unfolding configure
  configure-GoesOn q accepted = elim (Bool-cases (async_busy p)) [
    | inl busy ↦ ground (arith, busy)
    | inr free ↦
        let is : start_operation configure_start p ≡ q = ground (arith, free) in
        subst (GoesOn p) is (
          start_free configure_start (start_operation configure_start p) free refl refl refl
              h.fitting (ground (arith, free)),
          follows_refl p.state,
          refl,
        )
  ]

  pub deconfigure_accepted :
      (force : Bool) (q : Product)
      → deconfigure force p ≡ ok q
      → (q ≡ p)
        ⊎ ((p.state ≢ ProductState.dead) × (q ≡ replace_async_task (deconfigure_start force) p))
  unfolding deconfigure
  deconfigure_accepted force q accepted = elim (Bool-cases (product_is p.state ProductState.dead)) [
    | inl over ↦ inl (ground arith)
    | inr alive ↦ inr (λ e. ground arith, ground arith)
  ]

  replace_state : (force : Bool) → (replace_async_task (deconfigure_start force) p).state ≡ p.state
  unfolding replace_async_task
  replace_state force = ground arith

  replace_telstate :
      (force : Bool)
      → (replace_async_task (deconfigure_start force) p).has_telstate ≡ p.has_telstate
  unfolding replace_async_task
  replace_telstate force = ground arith

  pub deconfigure-GoesOn : (force : Bool) (q : Product) → deconfigure force p ≡ ok q → GoesOn p q
  deconfigure-GoesOn force q accepted = elim (deconfigure_accepted force q accepted) [
    | inl same ↦ subst (GoesOn p) (sym same) (h, follows_refl p.state, refl)
    | inr (alive, is) ↦ subst (GoesOn p) (sym is) (
      start_forced force alive,
      rw (replace_state force) (follows_refl p.state),
      replace_telstate force,
    )
  ]

  pub capture_init-GoesOn : (n : String) (q : Product) → capture_init n p ≡ ok q → GoesOn p q
  unfolding capture_init
  capture_init-GoesOn n q accepted = elim (Bool-cases (async_busy p)) [
    | inl busy ↦ ground (arith, busy)
    | inr free ↦
        let q' = start_operation (init_start p.next_block) (record p {
          blocks = put p.next_block (new_block n) p.blocks;
          next_block = p.next_block + 1;
        }) in
        let is : q' ≡ q = ground (arith, free) in
        let idle : p.state ≡ ProductState.idle = ground (arith, free) in
        subst (GoesOn p) is (
          start_free (init_start p.next_block) q' free refl refl refl h.fitting
              (ground (arith, h.fitting)),
          follows_refl p.state,
          refl,
        )
  ]

  pub capture_done-GoesOn : (q : Product) → capture_done p ≡ ok q → GoesOn p q
  unfolding capture_done
  capture_done-GoesOn q accepted = elim (Bool-cases (async_busy p)) [
    | inl busy ↦ ground (arith, busy)
    | inr free ↦
        let q' = start_operation (done_start false) p in
        let is : q' ≡ q = ground (arith, free) in
        subst (GoesOn p) is (
          start_free (done_start false) q' free refl refl refl h.fitting (ground (arith, free)),
          follows_refl p.state,
          refl,
        )
  ]

  pub go_to_error_free :
      (q : Product)
      → async_busy p ≡ false
      → p.state ≡ ProductState.capturing
      → go_to_error p ≡ ok q
      → q ≡ error_if_running (start_operation (done_start true) p)
  unfolding go_to_error error_if_running
  go_to_error_free q free at_work accepted = ground arith

  pub go_to_error_else :
      (q : Product)
      → (product_is p.state ProductState.capturing && not (async_busy p)) ≡ false
      → go_to_error p ≡ ok q
      → q ≡ error_if_running p
  unfolding go_to_error error_if_running
  go_to_error_else q other accepted = ground (arith, other)

  pub go_to_error-GoesOn : (q : Product) → go_to_error p ≡ ok q → GoesOn p q
  go_to_error-GoesOn q accepted =
      elim (Bool-cases (product_is p.state ProductState.capturing && not (async_busy p))) [
        | inl alone ↦
            let free : async_busy p ≡ false = ground arith in
            let at_work : p.state ≡ ProductState.capturing = ground arith in
            let q' = start_operation (done_start true) p in
            subst (GoesOn p) (sym (go_to_error_free q free at_work accepted)) (
              error_if_running-GoesOn p q'
                (start_free (done_start true) q' free refl refl refl h.fitting
                  (ground (arith, h.fitting)))
                refl refl)
        | inr other ↦
            subst (GoesOn p) (sym (go_to_error_else q other accepted))
              (error_if_running-GoesOn p p h refl refl)
      ]

  pub handle-GoesOn : (r : Request) (q : Product) → handle r p ≡ ok q → GoesOn p q
  unfolding handle
  handle-GoesOn configure_request q e = configure-GoesOn q e
  handle-GoesOn capture_done_request q e = capture_done-GoesOn q e
  handle-GoesOn (deconfigure_request force) q e = deconfigure-GoesOn force q e
  handle-GoesOn (task_failed_request true) q e = go_to_error-GoesOn q e
  handle-GoesOn (task_failed_request false) q e =
      subst (GoesOn p) (ok-injective e) (h, follows_refl p.state, refl)
  handle-GoesOn (capture_init_request n) q e = capture_init-GoesOn n q e
