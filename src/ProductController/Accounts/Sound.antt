-- ===== src/ProductController/Accounts/Sound.antt =====
-- A `SubarrayProduct` stays sound when a task of it runs on. product_controller.py.
use katsdpcontroller.Prelude.{
  ◌==◌, nat_eq, string_eq, ℕ, ◌≡◌, ◌≢◌, true, false, Option, Bool-cases, none, some, arith, refl,
  sym, subst, ap, ◌∙◌, inl, inr,
}
use katsdpcontroller.ProductController.{Product, Job, Task}
use katsdpcontroller.ProductController.Tasks.{Next, awaits, returns, raises, remains, settle}
use katsdpcontroller.ProductController.Operations.{Wakeup, result, exception, cancellation, advance}
use katsdpcontroller.ProductController.Requests.{IsReady, Wakes, run_task}
use katsdpcontroller.ProductController.Control.{
  starts, task_starts, is_operation, is_live, IsTame, IsControlled, obeys, NoNewStart, NoNewLife,
}
use katsdpcontroller.ProductController.Control.Moves.{
  advance-cancelled, advance-quiet, advance-IsMove,
}
use katsdpcontroller.ProductController.Control.Steps.{only_one, run_task-GoesOn}
use katsdpcontroller.ProductController.Accounts.{IsAccounted}
use katsdpcontroller.ProductController.Accounts.Knowledge.{
  Always, AlwaysTask, IsKnown, AlwaysTask-Lasts, same-Lasts,
}
use katsdpcontroller.ProductController.Accounts.Live.{Live, Knows, KnowsStep}
use katsdpcontroller.ProductController.Accounts.Advance.{advance-Known}
use katsdpcontroller.ProductController.Accounts.Quiet.{
  IsGentle, advance-IsGentle, advance-IsGentle_cancelled,
}
use katsdpcontroller.ProductController.Accounts.Steps.{
  LiveTask, IsSound, FromStart, advance-FromStart, live_of, LiveTask-Spares, LiveTask-dead,
}

pub same-IsAccounted :
    (q : Product) (ts : ℕ → Option Task) → IsAccounted q → IsAccounted (record q { tasks = ts })
same-IsAccounted q ts a = record {
  listed = a.listed;
  once = a.once;
  named = a.named;
  buried = a.buried;
  captures = a.captures;
  sole = a.sole;
  unique = a.unique;
  sensed = a.sensed;
}

pub task_alike :
    (o : Option Task) (q : Product) (ts : ℕ → Option Task)
    → LiveTask o q
    → LiveTask o (record q { tasks = ts })
task_alike none q ts l = tt
task_alike (some task) q ts l = λ alive. alike task.job (l alive)
  where
    alike : (job : Job) → Live job q → Live job (record q { tasks = ts })
    alike job live = ground arith

module _ (p q : Product) (t : ℕ) (task : Task) (next : Next) (h : IsSound p)
    (runs : p.tasks t ≡ some task) (k : KnowsStep task.job p (q, next)) (no_start : NoNewStart p q)
    (from : FromStart task.job p (q, next))
    (others : (u : ℕ) → (u == t) ≡ false → LiveTask (q.tasks u) q) where
  abbrev r : Product
  r = settle t next q

  own_starts : task_starts (p.tasks t) ≡ starts task.job
  own_starts = ap task_starts runs

  -- What the task is starting when it waits again.
  next_starts :
      (n : Next) (x : ℕ)
      → Knows task.job p n q
      → task_starts (remains n) ≡ some x
      → (starts task.job ≡ some x) × (q.tasks ≡ p.tasks)
  next_starts (awaits job) x known e = known.2 x e
  next_starts returns x known e = absurd (cc)
  next_starts (raises y) x known e = absurd (cc)

  settled_starts : (u x : ℕ) → task_starts (r.tasks u) ≡ some x → task_starts (p.tasks u) ≡ some x
  settled_starts u x e = elim (Bool-cases (u == t)) [
    | inl same ↦
        let is = (nat_eq.same_iff u t).0 same in
        let began = next_starts next x k.1 (rw same at e) in
        subst (λ y. task_starts (p.tasks y) ≡ some x) (sym is) (own_starts ∙ began.0)
    | inr other ↦ no_start u x (rw other at e)
  ]

  next_always : (n : Next) → Knows task.job p n q → AlwaysTask (remains n) q
  next_always (awaits job) known = known.0
  next_always returns known = tt
  next_always (raises y) known = tt

  next_live : (n : Next) → Knows task.job p n q → LiveTask (remains n) q
  next_live (awaits job) known = λ alive. known.1
  next_live returns known = tt
  next_live (raises y) known = tt

  settled-IsKnown : IsKnown r
  settled-IsKnown = record {
    accounted = same-IsAccounted q r.tasks k.0.accounted;
    always = λ u. AlwaysTask-Lasts (r.tasks u) q r (same-Lasts q r refl refl) (always_at u);
    separate = λ a b x e f. h.known.separate a b x (settled_starts a x e) (settled_starts b x f);
  }
    where
      always_at : (u : ℕ) → AlwaysTask (r.tasks u) q
      always_at u = elim (Bool-cases (u == t)) [
        | inl same ↦ rw same (next_always next k.1)
        | inr other ↦ rw other (k.0.always u)
      ]

  settled_lively : (u : ℕ) → LiveTask (r.tasks u) r
  settled_lively u = elim (Bool-cases (u == t)) [
    | inl same ↦ rw same (task_alike (remains next) q r.tasks (next_live next k.1))
    | inr other ↦ rw other (task_alike (q.tasks u) q r.tasks (others u other))
  ]

  ended : (n : Next) (x : ℕ) → remains n ≡ none → task_starts (remains n) ≢ some x
  ended n x e f = let wrong = rw e at f in cc

  settled_unstarted :
      (u x : ℕ) → r.current_capture_block ≡ some x → task_starts (r.tasks u) ≢ some x
  settled_unstarted u x current begun = elim (from x current) [
    | inl before ↦ h.unstarted u x before (settled_starts u x begun)
    | inr (started, over) ↦ elim (Bool-cases (u == t)) [
      | inl same ↦ ended next x over (rw same at begun)
      | inr other ↦
          let is = h.known.separate u t x (settled_starts u x begun) (own_starts ∙ started) in
          let same : (u == t) ≡ true = (nat_eq.same_iff u t).1 is in absurd (cc)
    ]
  ]

  pub settled-IsSound : IsControlled r → IsSound r
  settled-IsSound controlled = record {
    controlled = controlled;
    known = settled-IsKnown;
    lively = settled_lively;
    unstarted = settled_unstarted;
  }

-- A task that is told of its cancellation, or is no operation, leaves the others to go on.
spared :
    (p q : Product) (t u : ℕ) (task : Task) (next : Next)
    → IsSound p
    → p.tasks t ≡ some task
    → IsGentle task.job p (q, next)
    → IsTame p q
    → (u == t) ≡ false
    → LiveTask (q.tasks u) q
spared p q t u task next h runs gentle tame other = elim (Bool-cases (is_live (q.tasks u))) [
  | inr over ↦ LiveTask-dead (q.tasks u) q over
  | inl alive ↦
      let is = tame.no_new u alive in
      let apart : (a : ℕ) → task_starts (p.tasks u) ≡ some a → starts task.job ≢ some a = λ a e f.
        let same = h.known.separate u t a e (ap task_starts runs ∙ f) in
        let equal : (u == t) ≡ true = (nat_eq.same_iff u t).1 same in cc in
      subst (λ o. LiveTask o q) (sym is)
        (LiveTask-Spares (p.tasks u) p q (h.known.always u)
          (λ a la e s l. gentle.1 a la e (apart a s)) (h.lively u))
]

-- No other task is live while an operation runs.
alone :
    (p q : Product) (t u : ℕ) (task : Task)
    → IsSound p
    → p.tasks t ≡ some task
    → is_live (some task) ≡ true
    → NoNewLife p q
    → (u == t) ≡ false
    → is_live (q.tasks u) ≡ false
alone p q t u task h runs alive no_new other = elim (Bool-cases (is_live (q.tasks u))) [
  | inr over ↦ over
  | inl live ↦
      let is = no_new u live in
      let over = only_one p t u task h.controlled runs alive other in absurd (cc)
]

pub run_task-IsSound :
    (p : Product) (t : ℕ) (task : Task) (w : Wakeup)
    → IsSound p
    → p.tasks t ≡ some task
    → Wakes w task p
    → IsSound (run_task t w task.job p)
unfolding run_task
run_task-IsSound p t task w h runs wakes =
    let controlled = (run_task-GoesOn p t task w h.controlled runs wakes).0 in
    let known = subst (λ o. AlwaysTask o p) runs (h.known.always t) in
    elim (Bool-cases (is_live (some task))) [
      | inl alive ↦
          let (q, next) = advance w task.job p in
          let mine = subst (λ o. obeys t o p ≡ true) runs (h.controlled.obedient t) in
          let move =
            advance-IsMove p h.controlled.fitting w task.job (ground arith) (ground arith) in
          let k =
            advance-Known p h.known h.controlled.fitting w task.job (ground arith)
              (woken w wakes alive) (ground arith) known
              (live_of (p.tasks t) p task runs (h.lively t) alive) (ready w wakes) in
          settled-IsSound p q t task next h runs k move.no_start
            (advance-FromStart w task.job p (ground arith))
            (λ u other.
              LiveTask-dead (q.tasks u) q (alone p q t u task h runs alive move.no_new other))
            controlled
      | inr over ↦
          let (q, next) = advance w task.job p in
          let (gentle, tame) = quiet w wakes over known in
          settled-IsSound p q t task next h runs gentle.0 tame.no_start
            (λ o e. inl (sym tame.same_current ∙ e))
            (λ u other. spared p q t u task next h runs gentle tame other) controlled
    ]
  where
    woken : (w' : Wakeup) → Wakes w' task p → is_live (some task) ≡ true → w' ≢ cancellation
    woken result wakes' alive = λ e. cc
    woken (exception e) wakes' alive = λ f. cc
    woken cancellation wakes' alive = ground arith

    ready : (w' : Wakeup) → Wakes w' task p → w' ≡ result → IsReady task.job p
    ready result wakes' e = wakes'.1
    ready (exception x) wakes' e = absurd (cc)
    ready cancellation wakes' e = absurd (cc)

    started : (o : ℕ) → starts task.job ≡ some o → p.current_capture_block ≢ some o
    started o e current = h.unstarted t o current (ap task_starts runs ∙ e)

    quiet :
        (w' : Wakeup)
        → Wakes w' task p
        → is_live (some task) ≡ false
        → Always task.job p
        → IsGentle task.job p (advance w' task.job p) × IsTame p (advance w' task.job p).0
    quiet cancellation wakes' over known = elim (Bool-cases (is_operation task.job)) [
      | inl op ↦ (
        advance-IsGentle_cancelled p h.known task.job op known started,
        (advance-cancelled task.job p).0,
      )
      | inr none_op ↦ (
        advance-IsGentle p h.known cancellation task.job none_op known,
        (advance-cancelled task.job p).0,
      )
    ]
    quiet result wakes' over known = (
      advance-IsGentle p h.known result task.job (ground arith) known,
      (advance-quiet result task.job p (ground arith)).0,
    )
    quiet (exception e) wakes' over known = (
      advance-IsGentle p h.known (exception e) task.job (ground arith) known,
      (advance-quiet (exception e) task.job p (ground arith)).0,
    )
