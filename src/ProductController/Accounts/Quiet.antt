-- ===== src/ProductController/Accounts/Quiet.antt =====
-- What a task of a `SubarrayProduct` that is no operation, or is cancelled, does to the capture
-- blocks; and where the current capture block comes from. product_controller.py.
use katsdpcontroller.Prelude.{
  ◌==◌, nat_eq, string_eq, ℕ, ◌<◌, ◌≡◌, ◌≢◌, ◌⊎◌, true, false, Bool-cases, some, arith, refl, sym,
  subst, ◌∙◌, inl, inr, remove, lookup-remove, same_eq,
}
use katsdpcontroller.Errors.{Error, cancelled_error}
use katsdpcontroller.ProductController.{
  CaptureBlockState, Product, Job, enter, set_block_state, capture_block_dead, configure_start,
  configure_launch, configure_shutdown, init_start, init_telstate, init_transition, done_start,
  done_transition, postprocess_start, postprocess_transition, postprocess_run, postprocess_finally,
  postprocess_callback, deconfigure_wait, deconfigure_start, deconfigure_done, deconfigure_kill,
  deconfigure_burndown, deconfigure_shutdown,
}
use katsdpcontroller.ProductController.Tasks.{Next, awaits, returns, raises}
use katsdpcontroller.ProductController.Operations.{
  Wakeup, result, exception, cancellation, Step, advance, done_awake, postprocess_begin,
  postprocess_awake, postprocess_leave, reply_to,
}
use katsdpcontroller.ProductController.Control.{starts, is_operation}
use katsdpcontroller.ProductController.Accounts.{Captures}
use katsdpcontroller.ProductController.Accounts.Blocks.{set_block_state_cases}
use katsdpcontroller.ProductController.Accounts.Knowledge.{
  IsOver, Always, IsKnown, dead-IsKnown, postprocessing-IsKnown, postprocessing-Lasts, Always-Lasts,
}
use katsdpcontroller.ProductController.Accounts.Live.{IsEarly, IsPlaced, Knows, KnowsStep}

-- Another capture block that is being started is not touched.
abbrev pub Spares : ℕ → Product → Product → Type 0
Spares a p q = (IsEarly a p → IsEarly a q) × (IsPlaced a p → IsPlaced a q)

Spares-refl : (a : ℕ) (p : Product) → Spares a p p
Spares-refl a p = (λ e. e, λ e. e)

module _ (a o : ℕ) (p : Product) (apart : a ≢ o) where
  differs : (a == o) ≡ false
  differs = elim (Bool-cases (a == o)) [
    | inl same ↦ absurd (apart ((nat_eq.same_iff a o).0 same))
    | inr other ↦ other
  ]

  set_block_state-Spares : (v : CaptureBlockState) → Spares a p (set_block_state o v p)
  set_block_state-Spares v =
      let b = enter v (p.blocks o) in
      elim (set_block_state_cases o v p) [
        | inl (same, e) ↦ subst (Spares a p) (sym e) (Spares-refl a p)
        | inr (inl (watched, e)) ↦ subst (Spares a p) (sym e) (rw differs (λ x. x, λ x. x))
        | inr (inr (unwatched, e)) ↦ subst (Spares a p) (sym e) (rw differs (λ x. x, λ x. x))
      ]

module _ (a o : ℕ) (p : Product) (apart : a ≢ o)
    (unlike : (p.blocks a).name ≢ (p.blocks o).name) where
  unlisted : Product
  unlisted = record p { capture_blocks = remove (p.blocks o).name p.capture_blocks }

  other_name : ((p.blocks a).name == (p.blocks o).name) ≡ false
  other_name = elim (Bool-cases ((p.blocks a).name == (p.blocks o).name)) [
    | inl same ↦ absurd (unlike (same_eq (p.blocks a).name (p.blocks o).name same))
    | inr other ↦ other
  ]

  unlisted-Spares : Spares a p unlisted
  unfolding unlisted
  unlisted-Spares = (
    λ e. e,
    λ e. (
      e.0,
      lookup-remove (p.blocks a).name (p.blocks o).name p.capture_blocks ∙ rw other_name e.1,
    ),
  )

  capture_block_dead-Spares : Spares a p (capture_block_dead o p)
  unfolding capture_block_dead unlisted
  capture_block_dead-Spares =
      let (early, placed) = set_block_state-Spares a o unlisted apart CaptureBlockState.dead in
      (λ e. early (unlisted-Spares.0 e), λ e. placed (unlisted-Spares.1 e))

-- A step that is no operation's: what it knows next, and what it spares.
abbrev pub IsGentle : Job → Product → Step → Type 0
IsGentle job p (q, next) =
    KnowsStep job p (q, next)
    × ((a : ℕ) → a < p.next_block → IsEarly a p → starts job ≢ some a → Spares a p q)

module _ (p : Product) (k : IsKnown p) where
  -- Where the product stays as it is.
  same-IsGentle : (job : Job) (next : Next) → Knows job p next p → IsGentle job p (p, next)
  same-IsGentle job next known = ((k, known), λ a la e s. Spares-refl a p)

  not_current :
      (o : ℕ) → (p.blocks o).state ≢ CaptureBlockState.capturing → p.current_capture_block ≢ some o
  not_current o calm current =
      calm (subst (Captures p.blocks p.next_block p.capture_blocks) current k.accounted.captures).1

  over_apart : (a o : ℕ) → IsEarly a p → IsOver (p.blocks o) → a ≢ o
  over_apart a o early over same =
      over.0 (subst (λ x. (p.blocks x).state ≡ CaptureBlockState.initialising) same early.0)

  names_apart :
      (a o : ℕ)
      → a < p.next_block
      → o < p.next_block
      → a ≢ o
      → (p.blocks a).name ≢ (p.blocks o).name
  names_apart a o la lo apart same = apart (k.accounted.named a o la lo same)

  dead-IsGentle :
      (job : Job) (o : ℕ) (next : Next)
      → o < p.next_block
      → p.current_capture_block ≢ some o
      → ((a : ℕ) → IsEarly a p → starts job ≢ some a → a ≢ o)
      → ((q : Product) → Knows job p next q)
      → IsGentle job p (capture_block_dead o p, next)
  dead-IsGentle job o next below other away known = (
    (dead-IsKnown o p k below other, known (capture_block_dead o p)),
    λ a la e s.
        let apart = away a e s in
        capture_block_dead-Spares a o p apart (names_apart a o la below apart),
  )

  callback-IsGentle :
      (o : ℕ)
      → Always (postprocess_callback o) p
      → IsGentle (postprocess_callback o) p (capture_block_dead o p, returns)
  callback-IsGentle o known =
      dead-IsGentle (postprocess_callback o) o returns known.0 (not_current o known.1.1)
        (λ a e s. over_apart a o e known.1) (λ q. tt)

  -- The times that `_postprocess` looks up are there.
  leave_is :
      (o : ℕ) → IsOver (p.blocks o) → postprocess_leave o p ≡ (p, awaits (postprocess_finally o))
  unfolding postprocess_leave
  leave_is o over = rw (over.2, over.3) refl

  leave-IsGentle :
      (job : Job) (o : ℕ)
      → Always (postprocess_callback o) p
      → IsGentle job p (postprocess_leave o p)
  leave-IsGentle job o known =
      subst (IsGentle job p) (sym (leave_is o known.1))
        (same-IsGentle job (awaits (postprocess_finally o)) (known, tt, λ x e. absurd (cc)))

  begin_cases :
      (o : ℕ)
      → (postprocess_begin o p ≡ (p, awaits (postprocess_transition o)))
        ⊎ (postprocess_begin o p ≡ (p, awaits (postprocess_callback o)))
  unfolding postprocess_begin
  begin_cases o = elim (Bool-cases p.has_telstate) [
    | inl there ↦ inl (ground arith)
    | inr absent ↦ inr (ground arith)
  ]

  begin-IsGentle :
      (o : ℕ)
      → Always (postprocess_callback o) p
      → IsGentle (postprocess_start o) p (postprocess_begin o p)
  begin-IsGentle o known =
      let job = postprocess_start o in
      elim (begin_cases o) [
        | inl is ↦
            subst (IsGentle job p) (sym is) (
              same-IsGentle job (awaits (postprocess_transition o)) (known, tt, λ x e. absurd (cc)))
        | inr is ↦
            subst (IsGentle job p) (sym is)
              (same-IsGentle job (awaits (postprocess_callback o)) (known, tt, λ x e. absurd (cc)))
      ]

  set-IsGentle :
      (o : ℕ)
      → Always (postprocess_callback o) p
      → IsGentle
          (postprocess_transition o)
          p
          (set_block_state o CaptureBlockState.postprocessing p, awaits (postprocess_run o))
  set-IsGentle o known = (
    (
      postprocessing-IsKnown o p k known.0 (not_current o known.1.1),
      (still, tt, λ x e. absurd (cc)),
    ),
    λ a la e s.
        set_block_state-Spares a o p (over_apart a o e known.1) CaptureBlockState.postprocessing,
  )
    where
      still : Always (postprocess_run o) (set_block_state o CaptureBlockState.postprocessing p)
      still =
          Always-Lasts (postprocess_run o) p (set_block_state o CaptureBlockState.postprocessing p)
            (postprocessing-Lasts o p k known.0 (not_current o known.1.1)) known

  stop : (job : Job) (e : Error) → IsGentle job p (p, raises e)
  stop job e = same-IsGentle job (raises e) tt

  pub advance-IsGentle :
      (w : Wakeup) (job : Job)
      → is_operation job ≡ false
      → Always job p
      → IsGentle job p (advance w job p)
  unfolding advance postprocess_awake
  advance-IsGentle cancellation (postprocess_start o) quiet known =
      same-IsGentle (postprocess_start o) (awaits (postprocess_callback o))
        (known, tt, λ x e. absurd (cc))
  advance-IsGentle result (postprocess_start o) quiet known = begin-IsGentle o known
  advance-IsGentle (exception e) (postprocess_start o) quiet known = begin-IsGentle o known
  advance-IsGentle result (postprocess_transition o) quiet known = set-IsGentle o known
  advance-IsGentle (exception e) (postprocess_transition o) quiet known =
      leave-IsGentle (postprocess_transition o) o known
  advance-IsGentle cancellation (postprocess_transition o) quiet known =
      leave-IsGentle (postprocess_transition o) o known
  advance-IsGentle w (postprocess_run o) quiet known = leave-IsGentle (postprocess_run o) o known
  advance-IsGentle w (postprocess_finally o) quiet known =
      same-IsGentle (postprocess_finally o) (awaits (postprocess_callback o))
        (known, tt, λ x e. absurd (cc))
  advance-IsGentle w (postprocess_callback o) quiet known = callback-IsGentle o known
  advance-IsGentle result (configure_shutdown e) quiet known =
      stop (configure_shutdown e) (reply_to e)
  advance-IsGentle (exception x) (configure_shutdown e) quiet known =
      stop (configure_shutdown e) (reply_to x)
  advance-IsGentle cancellation (configure_shutdown e) quiet known =
      stop (configure_shutdown e) cancelled_error
  advance-IsGentle w job quiet known = absurd (cc)

  dead_start :
      (job : Job) (o : ℕ)
      → starts job ≡ some o
      → o < p.next_block
      → p.current_capture_block ≢ some o
      → IsGentle job p (capture_block_dead o p, raises cancelled_error)
  dead_start job o begun below other =
      dead-IsGentle job o (raises cancelled_error) below other
        (λ a e s same. s (subst (λ x. starts job ≡ some x) (sym same) begun)) (λ q. tt)

  pub advance-IsGentle_cancelled :
      (job : Job)
      → is_operation job ≡ true
      → Always job p
      → ((o : ℕ) → starts job ≡ some o → p.current_capture_block ≢ some o)
      → IsGentle job p (advance cancellation job p)
  unfolding advance done_awake
  advance-IsGentle_cancelled (init_telstate o) op known other =
      dead_start (init_telstate o) o refl known (other o refl)
  advance-IsGentle_cancelled (init_transition o) op known other =
      dead_start (init_transition o) o refl known (other o refl)
  advance-IsGentle_cancelled configure_launch op known other =
      same-IsGentle configure_launch (awaits (configure_shutdown cancelled_error))
        (tt, tt, λ x e. absurd (cc))
  advance-IsGentle_cancelled configure_start op known other = stop configure_start cancelled_error
  advance-IsGentle_cancelled (init_start o) op known other = stop (init_start o) cancelled_error
  advance-IsGentle_cancelled (done_start e) op known other = stop (done_start e) cancelled_error
  advance-IsGentle_cancelled (done_transition o e) op known other =
      stop (done_transition o e) cancelled_error
  advance-IsGentle_cancelled (deconfigure_start f) op known other =
      stop (deconfigure_start f) cancelled_error
  advance-IsGentle_cancelled (deconfigure_done f) op known other =
      stop (deconfigure_done f) cancelled_error
  advance-IsGentle_cancelled deconfigure_kill op known other = stop deconfigure_kill cancelled_error
  advance-IsGentle_cancelled deconfigure_burndown op known other =
      stop deconfigure_burndown cancelled_error
  advance-IsGentle_cancelled deconfigure_shutdown op known other =
      stop deconfigure_shutdown cancelled_error
  advance-IsGentle_cancelled (deconfigure_wait n o) op known other =
      stop (deconfigure_wait n o) cancelled_error
  advance-IsGentle_cancelled job op known other = absurd (cc)
