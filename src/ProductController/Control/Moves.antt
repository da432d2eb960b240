-- ===== src/ProductController/Control/Moves.antt =====
-- What a task of `SubarrayProduct` does to the product's state and to the current capture block,
-- from one `await` to the next. product_controller.py.
use katsdpcontroller.Prelude.{
  nat_eq, ℕ, ◌≤◌, ◌≡◌, ◌≢◌, Bool, true, false, ◌||◌, Option, none, some, arith, refl, sym, subst,
  Option-cases, remove, [], ◌∷◌, String, Dict, inl, inr,
}
use katsdpcontroller.Errors.{Error, fail_reply}
use katsdpcontroller.ProductController.{
  ProductState, CaptureBlockState, Job, Product, product_is, set_state, set_block_state,
  capture_block_dead, configure_start, configure_launch, init_start, init_telstate, init_transition,
  done_start, done_transition, postprocess_transition, postprocess_callback, deconfigure_start,
  deconfigure_done, deconfigure_kill, deconfigure_burndown, deconfigure_shutdown, deconfigure_wait,
}
use katsdpcontroller.ProductController.Tasks.{Next, awaits, cancel}
use katsdpcontroller.ProductController.Operations.{
  Wakeup, result, exception, cancellation, advance, abandon_all, done_end, done_awake, init_failed,
  init_end, deconfigure_next, Step, postprocess_awake, postprocess_begin, postprocess_leave,
  init_begin, done_begin, deconfigure_begin, deconfigure_loop, deconfigure_pop, abandon,
}
use katsdpcontroller.ProductController.Control.{
  is_operation, fits, agrees, follows, IsFresh, IsTame, IsTame-refl, IsTame-trans, NoNewLife,
  NoNewStart, set_block_state-IsTame, capture_block_dead-IsTame,
}

cancel-IsTame : (t : ℕ) (p : Product) → IsTame p (cancel t p)
cancel-IsTame t p = record {
  same_state = refl;
  same_current = refl;
  same_operation = refl;
  no_new = λ u l. ground arith;
  no_start = λ u o e. ground arith;
  fresh = λ h u le. ground (arith, h u le);
  grows = omega arith;
  same_telstate = refl;
}

pub abandon-IsTame : (c : Option ℕ) (o : ℕ) (p : Product) → IsTame p (abandon c o p)
abandon-IsTame none o p = capture_block_dead-IsTame o p
abandon-IsTame (some t) o p = cancel-IsTame t p

pub abandon_all-IsTame : (d : Dict ℕ) (p : Product) → IsTame p (abandon_all d p)
unfolding abandon_all
abandon_all-IsTame [] p = IsTame-refl p
abandon_all-IsTame ((n, o) ∷ d) p =
    let q = abandon (p.blocks o).postprocess_task o p in
    IsTame-trans p q (abandon_all d q) (abandon-IsTame (p.blocks o).postprocess_task o p)
      (abandon_all-IsTame d q)

-- The next job of a task is no operation.
abbrev pub IsQuiet : Next → Type 0
IsQuiet (awaits job) = is_operation job ≡ false
IsQuiet _ = Unit

abbrev pub IsQuietStep : Product → Step → Type 0
IsQuietStep p (q, next) = IsTame p q × IsQuiet next

pub advance-cancelled : (job : Job) (p : Product) → IsQuietStep p (advance cancellation job p)
unfolding advance done_awake postprocess_awake postprocess_leave
advance-cancelled (init_telstate o) p = (capture_block_dead-IsTame o p, tt)
advance-cancelled (init_transition o) p = (capture_block_dead-IsTame o p, tt)
advance-cancelled (postprocess_callback o) p = (capture_block_dead-IsTame o p, tt)
advance-cancelled job p = ground (arith, IsTame-refl p)

-- A job that is no operation, however its wait ends.
pub advance-quiet :
    (w : Wakeup) (job : Job) (p : Product)
    → is_operation job ≡ false
    → IsQuietStep p (advance w job p)
unfolding advance postprocess_begin postprocess_awake postprocess_leave
advance-quiet cancellation job p quiet = advance-cancelled job p
advance-quiet result (postprocess_callback o) p quiet = (capture_block_dead-IsTame o p, tt)
advance-quiet (exception e) (postprocess_callback o) p quiet = (capture_block_dead-IsTame o p, tt)
advance-quiet result (postprocess_transition o) p quiet =
    (set_block_state-IsTame o CaptureBlockState.postprocessing p, refl)
advance-quiet w job p quiet = ground (arith, IsTame-refl p)

-- What an operation does: the state goes on, and the operation finds what it expects.
pub record IsMove (p q : Product) (next : Next) : Type 0 where
  pub fitting : fits q.state q.current_capture_block ≡ true
  pub following : follows p.state q.state ≡ true
  pub same_operation : q.async_task ≡ p.async_task
  pub no_new : NoNewLife p q
  pub no_start : NoNewStart p q
  pub fresh : IsFresh p → IsFresh q
  pub grows : p.next_task ≤ q.next_task
  pub same_telstate : q.has_telstate ≡ p.has_telstate
  pub agreeing : (job : Job) → next ≡ awaits job → agrees job q.state q.current_capture_block ≡ true

abbrev pub IsMoveStep : Product → Step → Type 0
IsMoveStep p (q, next) = IsMove p q next

module _ (p : Product) (fitting : fits p.state p.current_capture_block ≡ true) where
  abbrev IsGood : Job → Type 0
  IsGood job = agrees job p.state p.current_capture_block ≡ true

  abbrev Awake : Job → Wakeup → Type 0
  Awake job w = IsMoveStep p (advance w job p)

  -- After a tame change.
  tame-IsMove :
      (q : Product) (next : Next)
      → IsTame p q
      → ((job : Job) → next ≡ awaits job → agrees job p.state p.current_capture_block ≡ true)
      → IsMove p q next
  tame-IsMove q next h agreeing = record {
    fitting = ground (arith, h);
    following = ground (arith, h);
    same_operation = h.same_operation;
    no_new = h.no_new;
    no_start = h.no_start;
    fresh = h.fresh;
    grows = h.grows;
    same_telstate = h.same_telstate;
    agreeing = λ job e. ground (arith, h, agreeing job e);
  }

  advance-init : (w : Wakeup) (o : ℕ) → IsGood (init_transition o) → Awake (init_transition o) w
  unfolding advance init_end set_state init_failed capture_block_dead
  advance-init w o good = ground arith

  advance-telstate : (w : Wakeup) (o : ℕ) → IsGood (init_telstate o) → Awake (init_telstate o) w
  unfolding advance set_state init_failed capture_block_dead
  advance-telstate w o good = ground arith

  advance-init_start : (w : Wakeup) (o : ℕ) → IsGood (init_start o) → Awake (init_start o) w
  unfolding advance init_begin set_state init_failed capture_block_dead
  advance-init_start w o good = ground arith

  advance-configure : (w : Wakeup) → IsGood configure_launch → Awake configure_launch w
  unfolding advance set_state
  advance-configure w good = ground arith

  advance-done_end :
      (o : ℕ) (expected : Bool) (failure : Option Error)
      → IsGood (done_transition o expected)
      → IsMoveStep p (done_end o expected failure p)
  unfolding done_end set_state set_block_state
  advance-done_end o expected failure good = ground arith

  advance-done_start : (w : Wakeup) (e : Bool) → IsGood (done_start e) → Awake (done_start e) w
  unfolding advance done_begin
  advance-done_start w e good = ground arith

  advance-deconfigure_next :
      (force : Bool)
      → p.state ≡ ProductState.deconfiguring
      → IsMoveStep p (deconfigure_next force p)
        × ((deconfigure_next force p).0.state ≡ ProductState.deconfiguring)
  unfolding deconfigure_next
  advance-deconfigure_next true s = ground (arith, abandon_all-IsTame p.capture_blocks p)
  advance-deconfigure_next false s = ground arith

  advance-loop :
      (d : Dict ℕ)
      → (product_is p.state ProductState.deconfiguring
          || product_is p.state ProductState.postprocessing)
        ≡ true
      → IsMoveStep p (deconfigure_loop d p)
  unfolding set_state
  advance-loop [] s = ground arith
  advance-loop (e ∷ d) s = ground arith

module _ (p : Product) (fitting : fits p.state p.current_capture_block ≡ true) where
  -- A failing stop of a capture block: the product is in the error state first.
  advance-done_failed :
      (o : ℕ) (expected : Bool) (failure : Option Error)
      → IsGood p fitting (done_transition o expected)
      → IsMoveStep p (done_end o expected failure (set_state ProductState.error p))
  unfolding set_state
  advance-done_failed o expected failure good =
      ground
        (arith, advance-done_end (set_state ProductState.error p) (ground arith) o expected failure)

  advance-done :
      (w : Wakeup) (o : ℕ) (expected : Bool)
      → IsGood p fitting (done_transition o expected)
      → Awake p fitting (done_transition o expected) w
  unfolding advance done_awake
  advance-done result o expected good = ground (
    arith,
    advance-done_failed o expected (some fail_reply) good,
    advance-done_end p fitting o expected none good,
  )
  advance-done (exception e) o expected good = advance-done_failed o expected (some e) good
  advance-done cancellation o expected good = ground arith

  advance-deconfigure_idle :
      (force : Bool)
      → p.current_capture_block ≡ none
      → p.state ≢ ProductState.dead
      → IsMoveStep p (deconfigure_next force (set_state ProductState.deconfiguring p))
  unfolding set_state
  advance-deconfigure_idle force no_block alive = ground (
    arith,
    advance-deconfigure_next (set_state ProductState.deconfiguring p) (ground arith) force,
  )

  deconfigure_begin_idle :
      (force : Bool)
      → p.current_capture_block ≡ none
      → deconfigure_begin force p ≡ deconfigure_next force (set_state ProductState.deconfiguring p)
  unfolding deconfigure_begin set_state
  deconfigure_begin_idle force no_block = ground arith

  deconfigure_begin-IsMove :
      (force : Bool) → p.state ≢ ProductState.dead → IsMoveStep p (deconfigure_begin force p)
  unfolding deconfigure_begin set_state
  deconfigure_begin-IsMove force alive = elim (Option-cases p.current_capture_block) [
    | inl no_block ↦
        subst (IsMoveStep p) (sym (deconfigure_begin_idle force no_block))
          (advance-deconfigure_idle force no_block alive)
    | inr (o, block) ↦ ground arith
  ]

  advance-deconfigure_start :
      (w : Wakeup) (force : Bool)
      → IsGood p fitting (deconfigure_start force)
      → Awake p fitting (deconfigure_start force) w
  unfolding advance
  advance-deconfigure_start w force good = ground (arith, deconfigure_begin-IsMove force)

  advance-deconfigure_done :
      (w : Wakeup) (force : Bool)
      → IsGood p fitting (deconfigure_done force)
      → Awake p fitting (deconfigure_done force) w
  unfolding advance
  advance-deconfigure_done w force good = ground (arith, advance-deconfigure_next p fitting force)

  pop_move :
      (n : String)
      → (product_is p.state ProductState.deconfiguring
          || product_is p.state ProductState.postprocessing)
        ≡ true
      → IsMoveStep p (deconfigure_pop n p)
  pop_move n s = ground (
    arith,
    advance-loop (record p { capture_blocks = remove n p.capture_blocks }) fitting
        (remove n p.capture_blocks) s,
  )

  -- Every operation, however its wait ends.
  pub advance-IsMove :
      (w : Wakeup) (job : Job)
      → is_operation job ≡ true
      → IsGood p fitting job
      → Awake p fitting job w
  unfolding advance set_state
  advance-IsMove w configure_start runs good = ground arith
  advance-IsMove w configure_launch runs good = advance-configure p fitting w good
  advance-IsMove w (init_start o) runs good = advance-init_start p fitting w o good
  advance-IsMove w (init_telstate o) runs good = advance-telstate p fitting w o good
  advance-IsMove w (init_transition o) runs good = advance-init p fitting w o good
  advance-IsMove w (done_start e) runs good = advance-done_start p fitting w e good
  advance-IsMove w (done_transition o e) runs good = advance-done w o e good
  advance-IsMove w (deconfigure_start force) runs good = advance-deconfigure_start w force good
  advance-IsMove w (deconfigure_done force) runs good = advance-deconfigure_done w force good
  advance-IsMove w deconfigure_kill runs good =
      ground (arith, advance-loop p fitting p.capture_blocks)
  advance-IsMove w deconfigure_burndown runs good = ground arith
  advance-IsMove w deconfigure_shutdown runs good =
      ground (arith, advance-loop p fitting p.capture_blocks)
  advance-IsMove w (deconfigure_wait n o) runs good = ground (arith, pop_move n)
  advance-IsMove w job runs good = absurd (cc)
