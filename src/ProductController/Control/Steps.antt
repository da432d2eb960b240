-- ===== src/ProductController/Control/Steps.antt =====
-- Every step of a `SubarrayProduct` keeps its control part in order. product_controller.py.
use katsdpcontroller.Prelude.{
  ◌==◌, nat_eq, ℕ, ◌≤◌, ◌<◌, ◌≡◌, true, false, Option, Bool-cases, none, some, arith, refl, subst,
  Option-cases, inl, inr,
}
use katsdpcontroller.ProductController.{ProductState, Job, Task, Product}
use katsdpcontroller.ProductController.Tasks.{
  is_some, Next, awaits, returns, raises, remains, settle, async_busy,
}
use katsdpcontroller.ProductController.Operations.{
  Wakeup, result, exception, cancellation, advance, is_current,
}
use katsdpcontroller.ProductController.Requests.{Wakes, run_task}
use katsdpcontroller.ProductController.Control.{
  is_live, fits, agrees, follows, obeys, IsFresh, IsRecent, IsControlled, IsTame,
}
use katsdpcontroller.ProductController.Control.Moves.{
  IsQuiet, IsQuietStep, advance-cancelled, advance-quiet, IsMove, advance-IsMove,
}

-- Control in order, and the state gone on.
abbrev pub GoesOn : Product → Product → Type 0
GoesOn p q = IsControlled q × (follows p.state q.state ≡ true) × (q.has_telstate ≡ p.has_telstate)

pub follows_refl : (s : ProductState) → follows s s ≡ true
follows_refl s = ground arith

pub obeys_dead : (u : ℕ) (o : Option Task) (q : Product) → is_live o ≡ false → obeys u o q ≡ true
obeys_dead u none q l = refl
obeys_dead u (some task) q l = rw l refl

pub obeys_live :
    (u : ℕ) (o : Option Task) (q : Product)
    → obeys u o q ≡ true
    → is_live o ≡ true
    → is_current u q.async_task ≡ true
obeys_live u none q h l = cc
obeys_live u (some task) q h l = ground arith

obeys_alike :
    (u : ℕ) (o : Option Task) (p q : Product)
    → q.state ≡ p.state
    → q.current_capture_block ≡ p.current_capture_block
    → q.async_task ≡ p.async_task
    → obeys u o p ≡ true
    → obeys u o q ≡ true
obeys_alike u none p q s c a h = refl
obeys_alike u (some task) p q s c a h = rw (s, c, a) h

obeys_tame :
    (p q : Product) (u : ℕ)
    → IsTame p q
    → obeys u (p.tasks u) p ≡ true
    → obeys u (q.tasks u) q ≡ true
obeys_tame p q u tame h = elim (Bool-cases (is_live (q.tasks u))) [
  | inl alive ↦
      rw (tame.no_new u alive)
        (obeys_alike u (p.tasks u) p q tame.same_state tame.same_current tame.same_operation h)
  | inr over ↦ obeys_dead u (q.tasks u) q over
]

obeys_quiet :
    (u : ℕ) (after : Next) (q : Product) → IsQuiet after → obeys u (remains after) q ≡ true
obeys_quiet u (awaits job) q quiet = rw quiet refl
obeys_quiet u returns q quiet = refl
obeys_quiet u (raises e) q quiet = refl

obeys-settle :
    (t u : ℕ) (after : Next) (q : Product)
    → obeys t (remains after) q ≡ true
    → ((u == t) ≡ false → obeys u (q.tasks u) q ≡ true)
    → obeys u ((settle t after q).tasks u) (settle t after q) ≡ true
obeys-settle t u after q own other = elim (Bool-cases (u == t)) [
  | inl same ↦
      let e = (nat_eq.same_iff u t).0 same in
      rw same (rw e (obeys_alike t (remains after) q (settle t after q) refl refl refl own))
  | inr apart ↦
      rw apart (obeys_alike u (q.tasks u) q (settle t after q) refl refl refl (other apart))
]

IsFresh-settle :
    (p q : Product) (t : ℕ) (task : Task) (after : Next)
    → IsFresh p
    → p.tasks t ≡ some task
    → p.next_task ≤ q.next_task
    → IsFresh q
    → IsFresh (settle t after q)
IsFresh-settle p q t task after old runs grows new u le = ground (arith, old t, new u)

IsRecent-grows :
    (p q : Product)
    → q.async_task ≡ p.async_task
    → p.next_task ≤ q.next_task
    → IsRecent p.async_task p.next_task
    → IsRecent q.async_task q.next_task
IsRecent-grows p q same grows recent = ground arith

-- Another task than the one that runs is not live.
pub only_one :
    (p : Product) (t u : ℕ) (task : Task)
    → IsControlled p
    → p.tasks t ≡ some task
    → is_live (some task) ≡ true
    → (u == t) ≡ false
    → is_live (p.tasks u) ≡ false
only_one p t u task h runs alive apart = elim (Bool-cases (is_live (p.tasks u))) [
  | inr over ↦ over
  | inl too ↦
      let mine = obeys_live t (p.tasks t) p (h.obedient t) (rw runs alive) in
      let other = obeys_live u (p.tasks u) p (h.obedient u) too in ground arith
]

module _ (p q : Product) (t : ℕ) (task : Task) (after : Next) (h : IsControlled p)
    (runs : p.tasks t ≡ some task) where
  settle_quiet : IsTame p q → IsQuiet after → GoesOn p (settle t after q)
  settle_quiet tame quiet = (
    record {
      fitting = rw (tame.same_state, tame.same_current) h.fitting;
      fresh = IsFresh-settle p q t task after h.fresh runs tame.grows (tame.fresh h.fresh);
      recent = IsRecent-grows p q tame.same_operation tame.grows h.recent;
      obedient = λ u.
          obeys-settle t u after q (obeys_quiet t after q quiet)
            (λ apart. obeys_tame p q u tame (h.obedient u));
    },
    rw tame.same_state (follows_refl p.state),
    tame.same_telstate,
  )

  obeys_move : is_live (some task) ≡ true → IsMove p q after → obeys t (remains after) q ≡ true
  obeys_move alive move =
      let mine = obeys_live t (p.tasks t) p (h.obedient t) (rw runs alive) in own after move mine
    where
      own :
          (step : Next)
          → IsMove p q step
          → is_current t p.async_task ≡ true
          → obeys t (remains step) q ≡ true
      own (awaits job) move mine = ground (arith, move, move.agreeing job refl)
      own returns move mine = refl
      own (raises e) move mine = refl

  settle_move : is_live (some task) ≡ true → IsMove p q after → GoesOn p (settle t after q)
  settle_move alive move = (
    record {
      fitting = move.fitting;
      fresh = IsFresh-settle p q t task after h.fresh runs move.grows (move.fresh h.fresh);
      recent = IsRecent-grows p q move.same_operation move.grows h.recent;
      obedient = λ u. obeys-settle t u after q (obeys_move alive move) (λ apart.
          elim (Bool-cases (is_live (q.tasks u))) [
            | inr over ↦ obeys_dead u (q.tasks u) q over
            | inl alive' ↦
                let e = move.no_new u alive' in
                let over = only_one p t u task h runs alive apart in absurd (cc)
          ]);
    },
    move.following,
    move.same_telstate,
  )

pub run_task-GoesOn :
    (p : Product) (t : ℕ) (task : Task) (w : Wakeup)
    → IsControlled p
    → p.tasks t ≡ some task
    → Wakes w task p
    → GoesOn p (run_task t w task.job p)
unfolding run_task
run_task-GoesOn p t task w h runs wakes =
    let (q, after) = advance w task.job p in
    elim (Bool-cases (is_live (some task))) [
      | inl alive ↦
          let mine = subst (λ o. obeys t o p ≡ true) runs (h.obedient t) in
          settle_move p q t task after h runs alive
            (advance-IsMove p h.fitting w task.job (ground arith) (ground arith))
      | inr over ↦
          let quiet : IsQuietStep p (q, after) = quiet_step w wakes over in
          settle_quiet p q t task after h runs quiet.0 quiet.1
    ]
  where
    quiet_step :
        (w' : Wakeup)
        → Wakes w' task p
        → is_live (some task) ≡ false
        → IsQuietStep p (advance w' task.job p)
    quiet_step cancellation woken over = advance-cancelled task.job p
    quiet_step result woken over = advance-quiet result task.job p (ground arith)
    quiet_step (exception e) woken over = advance-quiet (exception e) task.job p (ground arith)

pub busy_of_live :
    (p : Product) (u : ℕ) → IsControlled p → is_live (p.tasks u) ≡ true → async_busy p ≡ true
unfolding async_busy
busy_of_live p u h alive =
    let mine = obeys_live u (p.tasks u) p (h.obedient u) alive in
    elim (Option-cases p.async_task) [
      | inl nothing ↦ (let wrong = rw nothing at mine in cc)
      | inr (v, e) ↦
          let same : v ≡ u = (nat_eq.same_iff v u).0 (rw e at mine) in
          rw e (rw same (busy (p.tasks u) alive))
    ]
  where
    busy : (o : Option Task) → is_live o ≡ true → is_some o ≡ true
    busy none l = cc
    busy (some task) l = refl

-- A new operation, where none was live.
pub start_operation-IsControlled :
    (p q : Product) (job : Job)
    → IsControlled p
    → IsFresh q
    → p.next_task < q.next_task
    → q.async_task ≡ some p.next_task
    → ((u : ℕ) → (u == p.next_task) ≡ false → is_live (q.tasks u) ≡ false)
    → q.tasks p.next_task ≡ some (record { job = job; cancelled = false })
    → fits q.state q.current_capture_block ≡ true
    → agrees job q.state q.current_capture_block ≡ true
    → IsControlled q
start_operation-IsControlled p q job h fresh grows current others new fitting good = record {
  fitting = fitting;
  fresh = fresh;
  recent = rw current grows;
  obedient = λ u. elim (Bool-cases (u == p.next_task)) [
    | inl same ↦
        let e = (nat_eq.same_iff u p.next_task).0 same in
        rw e (rw new (rw (current, good) (ground arith)))
    | inr apart ↦ obeys_dead u (q.tasks u) q (others u apart)
  ];
}

pub not_live :
    (p : Product) (u : ℕ) → IsControlled p → async_busy p ≡ false → is_live (p.tasks u) ≡ false
not_live p u h free = elim (Bool-cases (is_live (p.tasks u))) [
  | inr over ↦ over
  | inl alive ↦ let busy = busy_of_live p u h alive in absurd (cc)
]
