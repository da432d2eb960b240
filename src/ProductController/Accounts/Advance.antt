-- ===== src/ProductController/Accounts/Advance.antt =====
-- Every operation of a `SubarrayProduct`, from one `await` to the next, keeps the accounts of the
-- capture blocks. product_controller.py.
use katsdpcontroller.Prelude.{
  nat_eq, string_eq, ℕ, ◌≡◌, ◌≢◌, Bool, true, not, ◌&&◌, Option, Bool-cases, Option-cases, none,
  some, arith, refl, sym, subst, ◌∙◌, String, inl, inr,
}
use katsdpcontroller.Errors.{Error, fail_reply}
use katsdpcontroller.ProductController.{
  ProductState, Product, Job, product_is, set_state, configure_start, configure_launch, init_start,
  init_telstate, init_transition, done_start, done_transition, deconfigure_wait, deconfigure_start,
  deconfigure_done, deconfigure_kill, deconfigure_burndown, deconfigure_shutdown,
}
use katsdpcontroller.ProductController.Tasks.{awaits, raises}
use katsdpcontroller.ProductController.Operations.{
  Wakeup, result, exception, cancellation, Step, advance, or_raise, init_begin, init_hold, done_end,
  done_awake, deconfigure_next, deconfigure_begin, deconfigure_loop, done_begin,
}
use katsdpcontroller.ProductController.Requests.{IsReady}
use katsdpcontroller.ProductController.Control.{starts, is_operation, fits, agrees}
use katsdpcontroller.ProductController.Accounts.{is_open}
use katsdpcontroller.ProductController.Accounts.Knowledge.{Always, IsKnown}
use katsdpcontroller.ProductController.Accounts.Operations.{
  alike-IsKnown, set_state-IsKnown, set_fields,
}
use katsdpcontroller.ProductController.Accounts.Live.{
  Live, KnowsStep, init_failed-Known, init_begin-Known, init_end-Known, done_begin-Known,
  deconfigure_next-Known, loop-Known, pop_same, done_end-Known, rebase,
}

module _ (p : Product) (k : IsKnown p) (fitting : fits p.state p.current_capture_block ≡ true) where
  abbrev Meets : Wakeup → Job → Type 0
  Meets w job = KnowsStep job p (advance w job p)

  abbrev IsGood : Job → Type 0
  IsGood job = agrees job p.state p.current_capture_block ≡ true

  stays : (job : Job) (e : Error) → KnowsStep job p (p, raises e)
  stays job e = (k, tt)

  moved :
      (job job' : Job) (s : ProductState)
      → (is_open s ≡ true → is_open p.state ≡ true)
      → Always job' (set_state s p) × Live job' (set_state s p)
      → starts job' ≡ none
      → KnowsStep job p (set_state s p, awaits job')
  moved job job' s closing known new =
      (set_state-IsKnown s p k closing, (known.0, known.1, λ x e. absurd (cc)))

  advance-telstate :
      (w : Wakeup) (o : ℕ)
      → w ≢ cancellation
      → IsGood (init_telstate o)
      → Always (init_telstate o) p
      → Live (init_telstate o) p
      → Meets w (init_telstate o)
  unfolding advance
  advance-telstate result o woken good below live = (
    alike-IsKnown p (init_hold o p) k refl refl refl refl refl k.accounted.captures
        k.accounted.sole,
    (below, live, λ x e. (e, refl)),
  )
  advance-telstate (exception e) o woken good below live =
      init_failed-Known p k (init_telstate o) o e below (ground arith) (ground arith)
  advance-telstate cancellation o woken good below live = absurd (woken refl)

  advance-transition :
      (w : Wakeup) (o : ℕ)
      → w ≢ cancellation
      → IsGood (init_transition o)
      → Always (init_transition o) p
      → Live (init_transition o) p
      → Meets w (init_transition o)
  unfolding advance
  advance-transition result o woken good below live =
      init_end-Known o p k below live.0 (ground arith) (ground arith) live.1
  advance-transition (exception e) o woken good below live =
      init_failed-Known p k (init_transition o) o e below (ground arith) (ground arith)
  advance-transition cancellation o woken good below live = absurd (woken refl)

  failed_end :
      (o : ℕ) (e : Bool) (failure : Option Error)
      → IsGood (done_transition o e)
      → KnowsStep (done_transition o e) p (done_end o e failure (set_state ProductState.error p))
  failed_end o e failure good =
      let p' = set_state ProductState.error p in
      let f = set_fields ProductState.error p in
      let k' = set_state-IsKnown ProductState.error p k (λ x. ground arith) in
      rebase (done_transition o e) p p' (done_end o e failure p') f.4
        (done_end-Known p' k' o e failure (ground (arith, f)))

  advance-done :
      (w : Wakeup) (o : ℕ) (e : Bool)
      → w ≢ cancellation
      → IsGood (done_transition o e)
      → Meets w (done_transition o e)
  unfolding advance done_awake
  advance-done result o e woken good =
      elim (Bool-cases (product_is p.state ProductState.error && not e)) [
        | inl failed ↦ rw failed (failed_end o e (some fail_reply) good)
        | inr fine ↦ rw fine (done_end-Known p k o e none (ground arith))
      ]
  advance-done (exception x) o e woken good = failed_end o e (some x) good
  advance-done cancellation o e woken good = absurd (woken refl)

  closed : is_open (set_state ProductState.deconfiguring p).state ≢ true
  unfolding set_state
  closed e = ground arith

  left-IsKnown :
      p.state ≢ ProductState.dead
      → IsKnown (record (set_state ProductState.deconfiguring p) { current_capture_block = none })
  left-IsKnown alive =
      let f = set_fields ProductState.deconfiguring p in
      let p' = record (set_state ProductState.deconfiguring p) { current_capture_block = none } in
      alike-IsKnown p p' k f.0 f.1 f.2 f.3 f.4 tt (λ a la e opened. absurd (closed opened))

  begin_idle :
      (force : Bool)
      → p.current_capture_block ≡ none
      → deconfigure_begin force p ≡ deconfigure_next force (set_state ProductState.deconfiguring p)
  unfolding deconfigure_begin set_state
  begin_idle force nothing = ground arith

  begin_busy :
      (force : Bool) (o : ℕ)
      → p.current_capture_block ≡ some o
      → deconfigure_begin force p ≡ (
        record (set_state ProductState.deconfiguring p) { current_capture_block = none },
        awaits (deconfigure_done force),
      )
  unfolding deconfigure_begin set_state
  begin_busy force o current = ground arith

  begin-Known :
      (force : Bool)
      → p.state ≢ ProductState.dead
      → KnowsStep (deconfigure_start force) p (deconfigure_begin force p)
  begin-Known force alive =
      let job = deconfigure_start force in
      let p' = set_state ProductState.deconfiguring p in
      let f = set_fields ProductState.deconfiguring p in
      elim (Option-cases p.current_capture_block) [
        | inl nothing ↦
            let k' = set_state-IsKnown ProductState.deconfiguring p k (λ x. absurd (cc)) in
            subst (KnowsStep job p) (sym (begin_idle force nothing)) (
              rebase job p p' (deconfigure_next force p') f.4
                (deconfigure_next-Known p' k' job force (f.5 ∙ nothing)))
        | inr (o, current) ↦
            subst (KnowsStep job p) (sym (begin_busy force o current))
              (left-IsKnown alive, (tt, tt, λ x e. absurd (cc)))
      ]

  advance-deconfigure_done :
      (w : Wakeup) (force : Bool)
      → w ≢ cancellation
      → IsGood (deconfigure_done force)
      → Meets w (deconfigure_done force)
  unfolding advance
  advance-deconfigure_done result force woken good =
      deconfigure_next-Known p k (deconfigure_done force) force (ground arith)
  advance-deconfigure_done (exception e) force woken good =
      deconfigure_next-Known p k (deconfigure_done force) force (ground arith)
  advance-deconfigure_done cancellation force woken good = absurd (woken refl)

  or_raises :
      (w : Wakeup) (job : Job) (s : Step) → KnowsStep job p s → KnowsStep job p (or_raise w p s)
  or_raises result job s known = known
  or_raises (exception e) job s known = (k, tt)
  or_raises cancellation job s known = (k, tt)

  advance-wait :
      (w : Wakeup) (n : String) (o : ℕ)
      → w ≢ cancellation
      → Always (deconfigure_wait n o) p
      → (w ≡ result → IsReady (deconfigure_wait n o) p)
      → Meets w (deconfigure_wait n o)
  unfolding advance
  advance-wait result n o woken known ready =
      let job = deconfigure_wait n o in
      subst (KnowsStep job p) (sym (pop_same p k n o known (ready refl)))
        (loop-Known p k job p.capture_blocks k.accounted.listed)
  advance-wait (exception e) n o woken known ready = (k, tt)
  advance-wait cancellation n o woken known ready = absurd (woken refl)

  pub advance-Known :
      (w : Wakeup) (job : Job)
      → is_operation job ≡ true
      → w ≢ cancellation
      → IsGood job
      → Always job p
      → Live job p
      → (w ≡ result → IsReady job p)
      → Meets w job
  unfolding advance
  advance-Known w configure_start op woken good known live ready =
      or_raises w configure_start (p, awaits configure_launch) (k, (tt, tt, λ x e. absurd (cc)))
  advance-Known result configure_launch op woken good known live ready =
      (set_state-IsKnown ProductState.idle p k (λ e. ground arith), tt)
  advance-Known (exception e) configure_launch op woken good known live ready =
      (k, (tt, tt, λ x f. absurd (cc)))
  advance-Known cancellation configure_launch op woken good known live ready = absurd (woken refl)
  advance-Known w (init_start o) op woken good known live ready =
      or_raises w (init_start o) (init_begin o p)
        (init_begin-Known o p k known live (ground arith) (ground arith))
  advance-Known w (init_telstate o) op woken good known live ready =
      advance-telstate w o woken good known live
  advance-Known w (init_transition o) op woken good known live ready =
      advance-transition w o woken good known live
  advance-Known w (done_start e) op woken good known live ready =
      or_raises w (done_start e) (done_begin e p) (done_begin-Known p k e)
  advance-Known w (done_transition o e) op woken good known live ready =
      advance-done w o e woken good
  advance-Known w (deconfigure_start force) op woken good known live ready =
      or_raises w (deconfigure_start force) (deconfigure_begin force p)
        (begin-Known force (ground arith))
  advance-Known w (deconfigure_done force) op woken good known live ready =
      advance-deconfigure_done w force woken good
  advance-Known w deconfigure_kill op woken good known live ready =
      or_raises w deconfigure_kill (deconfigure_loop p.capture_blocks p)
        (loop-Known p k deconfigure_kill p.capture_blocks k.accounted.listed)
  advance-Known w deconfigure_burndown op woken good known live ready =
      or_raises w deconfigure_burndown
        (set_state ProductState.postprocessing p, awaits deconfigure_shutdown)
        (moved deconfigure_burndown deconfigure_shutdown ProductState.postprocessing
          (λ e. absurd (cc)) (tt, tt) refl)
  advance-Known w deconfigure_shutdown op woken good known live ready =
      or_raises w deconfigure_shutdown (deconfigure_loop p.capture_blocks p)
        (loop-Known p k deconfigure_shutdown p.capture_blocks k.accounted.listed)
  advance-Known w (deconfigure_wait n o) op woken good known live ready =
      advance-wait w n o woken known ready
  advance-Known w job op woken good known live ready = absurd (cc)
