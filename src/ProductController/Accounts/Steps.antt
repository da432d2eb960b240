-- ===== src/ProductController/Accounts/Steps.antt =====
-- Every step of a `SubarrayProduct` keeps the accounts of the capture blocks. product_controller.py.
use katsdpcontroller.Prelude.{
  nat_eq, string_eq, ℕ, ◌<◌, ◌≡◌, ◌≢◌, ◌⊎◌, Bool, true, false, not, ◌&&◌, Option, Bool-cases,
  Option-cases, none, some, arith, refl, sym, subst, ap, ◌∙◌, [], ◌∷◌, Dict, inl, inr, insert,
  remove,
}
use katsdpcontroller.Errors.{Error, fail_reply, assertion_error}
use katsdpcontroller.ProductController.{
  ProductState, CaptureBlockState, Product, Job, Task, put, product_is, update_capture_block_sensor,
  capture_block_dead, set_state, configure_start, configure_launch, init_start, init_telstate,
  init_transition, done_start, done_transition, deconfigure_wait, deconfigure_start,
  deconfigure_done, deconfigure_kill, deconfigure_burndown, deconfigure_shutdown,
}
use katsdpcontroller.ProductController.Tasks.{awaits, remains}
use katsdpcontroller.ProductController.Operations.{
  Wakeup, result, exception, cancellation, Step, advance, start_postprocess, init_begin, init_end,
  init_failed, done_end, done_awake, deconfigure_next, deconfigure_begin, done_begin, or_raise,
  deconfigure_loop, deconfigure_pop,
}
use katsdpcontroller.ProductController.Control.{
  starts, task_starts, is_operation, is_live, IsControlled,
}
use katsdpcontroller.ProductController.Control.{set_block_state-IsTame, capture_block_dead-IsTame}
use katsdpcontroller.ProductController.Control.Moves.{abandon_all-IsTame}
use katsdpcontroller.ProductController.Accounts.Knowledge.{Always, AlwaysTask, IsKnown}
use katsdpcontroller.ProductController.Accounts.Live.{IsEarly, Live}
use katsdpcontroller.ProductController.Accounts.Quiet.{Spares}

-- What a task that is not cancelled knows.
abbrev pub LiveTask : Option Task → Product → Type 0
LiveTask none p = Unit
LiveTask (some task) p = is_live (some task) ≡ true → Live task.job p

pub record IsSound (p : Product) : Type 0 where
  pub controlled : IsControlled p
  pub known : IsKnown p
  pub lively : (u : ℕ) → LiveTask (p.tasks u) p
  pub unstarted : (u o : ℕ) → p.current_capture_block ≡ some o → task_starts (p.tasks u) ≢ some o

-- The current capture block is as before, or is the one that the task has started.
abbrev pub FromStart : Job → Product → Step → Type 0
FromStart job p (q, next) =
    (o : ℕ)
    → q.current_capture_block ≡ some o
    → (p.current_capture_block ≡ some o) ⊎ ((starts job ≡ some o) × (remains next ≡ none))

current-next :
    (force : Bool) (p : Product)
    → (deconfigure_next force p).0.current_capture_block ≡ p.current_capture_block
unfolding deconfigure_next
current-next true p = (abandon_all-IsTame p.capture_blocks p).same_current
current-next false p = refl

current-state :
    (s : ProductState) (p : Product)
    → (set_state s p).current_capture_block ≡ p.current_capture_block
unfolding set_state
current-state s p = ground arith

current-begin :
    (force : Bool) (p : Product) → (deconfigure_begin force p).0.current_capture_block ≡ none
unfolding deconfigure_begin
current-begin force p =
    elim (Option-cases (set_state ProductState.deconfiguring p).current_capture_block) [
      | inl nothing ↦
          ground (arith, nothing, current-next force (set_state ProductState.deconfiguring p))
      | inr (o, current) ↦ ground (arith, current)
    ]

current-dead :
    (o : ℕ) (p : Product) → (capture_block_dead o p).current_capture_block ≡ p.current_capture_block
current-dead o p = (capture_block_dead-IsTame o p).same_current

current-failed :
    (o : ℕ) (e : Error) (p : Product)
    → (init_failed o e p).0.current_capture_block ≡ p.current_capture_block
unfolding init_failed
current-failed o e p =
    current-dead o (set_state ProductState.error p) ∙ current-state ProductState.error p

placed_product : ℕ → Product → Product
placed_product o p = update_capture_block_sensor (record p {
  capture_blocks = insert (p.blocks o).name o p.capture_blocks;
  blocks = put o (record (p.blocks o) { watched = true }) p.blocks;
})

current-init_begin :
    (o : ℕ) (p : Product) → (init_begin o p).0.current_capture_block ≡ p.current_capture_block
unfolding init_begin placed_product
current-init_begin o p = elim (Bool-cases p.has_telstate) [
  | inl there ↦ ground (arith, there)
  | inr absent ↦ ground (arith, absent, current-failed o assertion_error (placed_product o p))
]

init_end-FromStart : (o : ℕ) (p : Product) → FromStart (init_transition o) p (init_end o p)
unfolding init_end
init_end-FromStart o p x e = elim (Bool-cases (product_is p.state ProductState.error)) [
  | inl failed ↦ inl (ground (arith, failed, current-failed o fail_reply p))
  | inr fine ↦ elim (Option-cases p.current_capture_block) [
    | inr (y, there) ↦ inl (ground (arith, fine, there))
    | inl nothing ↦
        let r = record (set_state ProductState.capturing p) { current_capture_block = some o } in
        let same = (set_block_state-IsTame o CaptureBlockState.capturing r).same_current in
        inr (ground (arith, fine, nothing, same), ground (arith, fine, nothing))
  ]
]

start_postprocess_current :
    (o : ℕ) (p : Product) → (start_postprocess o p).current_capture_block ≡ none
unfolding start_postprocess
start_postprocess_current o p =
    (set_block_state-IsTame o CaptureBlockState.burndown
      (record p { current_capture_block = none })).same_current

done_end-FromStart :
    (o : ℕ) (e : Bool) (failure : Option Error) (job : Job) (p : Product)
    → FromStart job p (done_end o e failure p)
unfolding done_end
done_end-FromStart o e failure job p x is = inl (
    ground (
      arith,
      start_postprocess_current o p,
      start_postprocess_current o (set_state ProductState.idle p),
    ))

current-loop :
    (d : Dict ℕ) (p : Product)
    → (deconfigure_loop d p).0.current_capture_block ≡ p.current_capture_block
current-loop [] p = current-state ProductState.dead p
current-loop (e ∷ d) p = refl

or_raise-FromStart :
    (w : Wakeup) (job : Job) (p : Product) (s : Step)
    → FromStart job p s
    → FromStart job p (or_raise w p s)
or_raise-FromStart result job p s f = f
or_raise-FromStart (exception e) job p s f = λ o is. inl is
or_raise-FromStart cancellation job p s f = λ o is. inl is

failed_end-FromStart :
    (o : ℕ) (e : Bool) (failure : Option Error) (job : Job) (p : Product)
    → FromStart job p (done_end o e failure (set_state ProductState.error p))
failed_end-FromStart o e failure job p x is =
    let p' = set_state ProductState.error p in
    elim (done_end-FromStart o e failure job p' x is) [
      | inl before ↦ inl (sym (current-state ProductState.error p) ∙ before)
      | inr started ↦ inr started
    ]

done_awake-FromStart :
    (w : Wakeup) (o : ℕ) (e : Bool) (job : Job) (p : Product) → FromStart job p (done_awake w o e p)
unfolding done_awake
done_awake-FromStart result o e job p =
    elim (Bool-cases (product_is p.state ProductState.error && not e)) [
      | inl failed ↦ rw failed (failed_end-FromStart o e (some fail_reply) job p)
      | inr fine ↦ rw fine (done_end-FromStart o e none job p)
    ]
done_awake-FromStart (exception x) o e job p = failed_end-FromStart o e (some x) job p
done_awake-FromStart cancellation o e job p = λ x is. inl is

current-done_begin : (e : Bool) (p : Product) → (done_begin e p).0 ≡ p
unfolding done_begin
current-done_begin e p = ground arith

pub advance-FromStart :
    (w : Wakeup) (job : Job) (p : Product)
    → is_operation job ≡ true
    → FromStart job p (advance w job p)
unfolding advance
advance-FromStart w configure_start p op =
    or_raise-FromStart w configure_start p (p, awaits configure_launch) (λ o e. inl e)
advance-FromStart w configure_launch p op =
    λ o e. inl (ground (arith, current-state ProductState.idle p))
advance-FromStart w (init_start x) p op =
    or_raise-FromStart w (init_start x) p (init_begin x p)
      (λ o e. inl (sym (current-init_begin x p) ∙ e))
advance-FromStart result (init_telstate x) p op = λ o e. inl e
advance-FromStart (exception y) (init_telstate x) p op = λ o e. inl (sym (current-failed x y p) ∙ e)
advance-FromStart cancellation (init_telstate x) p op = λ o e. inl (sym (current-dead x p) ∙ e)
advance-FromStart result (init_transition x) p op = init_end-FromStart x p
advance-FromStart (exception y) (init_transition x) p op =
    λ o e. inl (sym (current-failed x y p) ∙ e)
advance-FromStart cancellation (init_transition x) p op = λ o e. inl (sym (current-dead x p) ∙ e)
advance-FromStart w (done_start x) p op =
    or_raise-FromStart w (done_start x) p (done_begin x p) (λ o e.
      inl (ap (λ (q : Product). q.current_capture_block) (sym (current-done_begin x p)) ∙ e))
advance-FromStart w (done_transition x y) p op = done_awake-FromStart w x y (done_transition x y) p
advance-FromStart w (deconfigure_start f) p op =
    or_raise-FromStart w (deconfigure_start f) p (deconfigure_begin f p)
      (λ o e. absurd (let none_is = current-begin f p in cc))
advance-FromStart cancellation (deconfigure_done f) p op = λ o e. inl e
advance-FromStart result (deconfigure_done f) p op = λ o e. inl (sym (current-next f p) ∙ e)
advance-FromStart (exception y) (deconfigure_done f) p op = λ o e. inl (sym (current-next f p) ∙ e)
advance-FromStart w deconfigure_kill p op =
    or_raise-FromStart w deconfigure_kill p (deconfigure_loop p.capture_blocks p)
      (λ o e. inl (sym (current-loop p.capture_blocks p) ∙ e))
advance-FromStart w deconfigure_burndown p op =
    or_raise-FromStart w deconfigure_burndown p
      (set_state ProductState.postprocessing p, awaits deconfigure_shutdown)
      (λ o e. inl (sym (current-state ProductState.postprocessing p) ∙ e))
advance-FromStart w deconfigure_shutdown p op =
    or_raise-FromStart w deconfigure_shutdown p (deconfigure_loop p.capture_blocks p)
      (λ o e. inl (sym (current-loop p.capture_blocks p) ∙ e))
advance-FromStart w (deconfigure_wait n x) p op =
    or_raise-FromStart w (deconfigure_wait n x) p (deconfigure_pop n p) (λ o e. inl (
      sym (
        current-loop (remove n p.capture_blocks)
          (record p { capture_blocks = remove n p.capture_blocks }))
      ∙ e))
advance-FromStart w job p op = absurd (cc)

pub live_of :
    (o : Option Task) (p : Product) (task : Task)
    → o ≡ some task
    → LiveTask o p
    → LiveTask (some task) p
live_of o p task e l = subst (λ x. LiveTask x p) e l

pub LiveTask-Spares :
    (o : Option Task) (p q : Product)
    → AlwaysTask o p
    → ((a : ℕ)
        → a < p.next_block
        → IsEarly a p
        → task_starts o ≡ some a
        → is_live o ≡ true
        → Spares a p q)
    → LiveTask o p
    → LiveTask o q
LiveTask-Spares none p q known spares l = tt
LiveTask-Spares (some task) p q known spares l =
    λ alive. spare task.job known (λ a la e s. spares a la e s alive) (l alive)
  where
    spare :
        (job : Job)
        → Always job p
        → ((a : ℕ) → a < p.next_block → IsEarly a p → starts job ≡ some a → Spares a p q)
        → Live job p
        → Live job q
    spare (init_start a) la each live = (each a la live refl).0 live
    spare (init_telstate a) la each live =
        let (early, placed) = each a la live.0 refl in (early live.0, placed live.1)
    spare (init_transition a) la each live =
        let (early, placed) = each a la live.0 refl in (early live.0, placed live.1)
    spare job la each live = ground arith

pub LiveTask-dead : (o : Option Task) (q : Product) → is_live o ≡ false → LiveTask o q
LiveTask-dead none q over = tt
LiveTask-dead (some task) q over = λ alive. absurd (cc)
