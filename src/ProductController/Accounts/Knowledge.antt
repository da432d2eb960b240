-- ===== src/ProductController/Accounts/Knowledge.antt =====
-- What the waiting tasks of a `SubarrayProduct` know of the capture blocks. product_controller.py.
use katsdpcontroller.Prelude.{
  ◌==◌, nat_eq, string_eq, ℕ, ◌≤◌, ◌<◌, ◌≡◌, ◌≢◌, true, Option, Bool-cases, none, some, arith, refl,
  sym, subst, ap, ◌∙◌, List, [], ◌∷◌, ◌++◌, inl, inr, remove,
}
use katsdpcontroller.ProductController.{
  CaptureBlockState, CaptureBlock, Product, Job, Task, put, enter, has_state, set_block_state,
  capture_block_dead, init_start, init_telstate, init_transition, done_transition,
  postprocess_start, postprocess_transition, postprocess_run, postprocess_finally,
  postprocess_callback, deconfigure_wait,
}
use katsdpcontroller.ProductController.Tasks.{cancel, cancelled_task}
use katsdpcontroller.ProductController.Control.{task_starts}
use katsdpcontroller.ProductController.Accounts.{IsAccounted}
use katsdpcontroller.ProductController.Accounts.Blocks.{
  set_block_state_cases, set_block_state-IsAccounted, capture_block_dead-IsAccounted,
}

-- The capture block is burning down, or later.
abbrev pub IsOver : CaptureBlock → Type 0
IsOver b =
    (b.state ≢ CaptureBlockState.initialising)
    × (b.state ≢ CaptureBlockState.capturing)
    × (has_state CaptureBlockState.capturing b.state_time ≡ true)
    × (has_state CaptureBlockState.burndown b.state_time ≡ true)

abbrev pub Always : Job → Product → Type 0
Always (init_start o) p = o < p.next_block
Always (init_telstate o) p = o < p.next_block
Always (init_transition o) p = o < p.next_block
Always (done_transition o e) p = o < p.next_block
Always (postprocess_start o) p = (o < p.next_block) × IsOver (p.blocks o)
Always (postprocess_transition o) p = (o < p.next_block) × IsOver (p.blocks o)
Always (postprocess_run o) p = (o < p.next_block) × IsOver (p.blocks o)
Always (postprocess_finally o) p = (o < p.next_block) × IsOver (p.blocks o)
Always (postprocess_callback o) p = (o < p.next_block) × IsOver (p.blocks o)
Always (deconfigure_wait n o) p = (o < p.next_block) × ((p.blocks o).name ≡ n)
Always _ p = Unit

abbrev pub AlwaysTask : Option Task → Product → Type 0
AlwaysTask none p = Unit
AlwaysTask (some task) p = Always task.job p

pub record IsKnown (p : Product) : Type 0 where
  pub accounted : IsAccounted p
  pub always : (u : ℕ) → AlwaysTask (p.tasks u) p
  pub separate :
      (t u o : ℕ) → task_starts (p.tasks t) ≡ some o → task_starts (p.tasks u) ≡ some o → t ≡ u

-- What blocks do not lose.
pub record Lasts (p q : Product) : Type 0 where
  pub bigger : p.next_block ≤ q.next_block
  pub same_name : (a : ℕ) → a < p.next_block → (q.blocks a).name ≡ (p.blocks a).name
  pub later : (a : ℕ) → a < p.next_block → IsOver (p.blocks a) → IsOver (q.blocks a)

pub Always-Lasts : (job : Job) (p q : Product) → Lasts p q → Always job p → Always job q
Always-Lasts (init_start o) p q l k = omega (arith, l.bigger)
Always-Lasts (init_telstate o) p q l k = omega (arith, l.bigger)
Always-Lasts (init_transition o) p q l k = omega (arith, l.bigger)
Always-Lasts (done_transition o e) p q l k = omega (arith, l.bigger)
Always-Lasts (postprocess_start o) p q l k = (omega (arith, l.bigger), l.later o k.0 k.1)
Always-Lasts (postprocess_transition o) p q l k = (omega (arith, l.bigger), l.later o k.0 k.1)
Always-Lasts (postprocess_run o) p q l k = (omega (arith, l.bigger), l.later o k.0 k.1)
Always-Lasts (postprocess_finally o) p q l k = (omega (arith, l.bigger), l.later o k.0 k.1)
Always-Lasts (postprocess_callback o) p q l k = (omega (arith, l.bigger), l.later o k.0 k.1)
Always-Lasts (deconfigure_wait n o) p q l k = (omega (arith, l.bigger), l.same_name o k.0 ∙ k.1)
Always-Lasts job p q l k = ground arith

pub AlwaysTask-Lasts :
    (o : Option Task) (p q : Product) → Lasts p q → AlwaysTask o p → AlwaysTask o q
AlwaysTask-Lasts none p q l k = tt
AlwaysTask-Lasts (some task) p q l k = Always-Lasts task.job p q l k

-- Steps that leave the tasks alone.
pub same_tasks-IsKnown :
    (p q : Product) → IsKnown p → Lasts p q → q.tasks ≡ p.tasks → IsAccounted q → IsKnown q
same_tasks-IsKnown p q k l same a = record {
  accounted = a;
  always = λ u.
      subst (λ o. AlwaysTask o q) (sym (ap (λ (f : ℕ → Option Task). f u) same))
        (AlwaysTask-Lasts (p.tasks u) p q l (k.always u));
  separate = λ t u o e f.
      k.separate t u o (subst (λ (g : ℕ → Option Task). task_starts (g t) ≡ some o) same e)
        (subst (λ (g : ℕ → Option Task). task_starts (g u) ≡ some o) same f);
}

pub has_state-append :
    (s v : CaptureBlockState) (xs : List CaptureBlockState)
    → has_state s xs ≡ true
    → has_state s (xs ++ v ∷ []) ≡ true
has_state-append s v [] h = cc
has_state-append s v (x ∷ xs) h = ground (arith, has_state-append s v xs)

enter-IsOver :
    (v : CaptureBlockState) (b : CaptureBlock)
    → v ≢ CaptureBlockState.initialising
    → v ≢ CaptureBlockState.capturing
    → IsOver b
    → IsOver (enter v b)
enter-IsOver v b early capturing h = (
  early,
  capturing,
  reached CaptureBlockState.capturing h.2,
  reached CaptureBlockState.burndown h.3,
)
  where
    reached :
        (s : CaptureBlockState)
        → has_state s b.state_time ≡ true
        → has_state s (enter v b).state_time ≡ true
    reached s e = elim (Bool-cases (has_state v b.state_time)) [
      | inl there ↦ rw there e
      | inr new ↦ rw new (has_state-append s v b.state_time e)
    ]

-- One block has changed.
pub put-Lasts :
    (o : ℕ) (b : CaptureBlock) (p q : Product)
    → q.blocks ≡ put o b p.blocks
    → q.next_block ≡ p.next_block
    → b.name ≡ (p.blocks o).name
    → (IsOver (p.blocks o) → IsOver b)
    → Lasts p q
put-Lasts o b p q is count name over = record {
  bigger = rw count (omega arith);
  same_name = λ a la. rw is (elim (Bool-cases (a == o)) [
    | inl same ↦ rw same (name ∙ ap (λ x. (p.blocks x).name) (sym ((nat_eq.same_iff a o).0 same)))
    | inr differs ↦ rw differs refl
  ]);
  later = λ a la h. rw is (elim (Bool-cases (a == o)) [
    | inl same ↦ rw same (over (subst (λ x. IsOver (p.blocks x)) ((nat_eq.same_iff a o).0 same) h))
    | inr differs ↦ rw differs h
  ]);
}

pub same-Lasts : (p q : Product) → q.blocks ≡ p.blocks → q.next_block ≡ p.next_block → Lasts p q
same-Lasts p q is count = record {
  bigger = rw count (omega arith);
  same_name = λ a la. rw is refl;
  later = λ a la h. rw is h;
}

module _ (o : ℕ) (v : CaptureBlockState) (p : Product)
    (over : IsOver (p.blocks o) → IsOver (enter v (p.blocks o))) where
  set_block_state-Lasts : Lasts p (set_block_state o v p)
  set_block_state-Lasts = elim (set_block_state_cases o v p) [
    | inl (same, e) ↦ same-Lasts p (set_block_state o v p) (rw e refl) (rw e refl)
    | inr (inl (watched, e)) ↦
        put-Lasts o (enter v (p.blocks o)) p (set_block_state o v p) (rw e refl) (rw e refl) refl
          over
    | inr (inr (unwatched, e)) ↦
        put-Lasts o (enter v (p.blocks o)) p (set_block_state o v p) (rw e refl) (rw e refl) refl
          over
  ]

  set_block_state-tasks : (set_block_state o v p).tasks ≡ p.tasks
  unfolding set_block_state
  set_block_state-tasks = ground arith

module _ (o : ℕ) (p : Product) (k : IsKnown p) (below : o < p.next_block)
    (other : p.current_capture_block ≢ some o) where
  pub postprocessing-IsKnown : IsKnown (set_block_state o CaptureBlockState.postprocessing p)
  postprocessing-IsKnown =
      let v = CaptureBlockState.postprocessing in
      let over = enter-IsOver v (p.blocks o) (λ e. cc) (λ e. cc) in
      same_tasks-IsKnown p (set_block_state o v p) k (set_block_state-Lasts o v p over)
        (set_block_state-tasks o v p over)
        (set_block_state-IsAccounted o v p k.accounted below (λ e. cc) (λ e. cc) other)

  pub postprocessing-Lasts : Lasts p (set_block_state o CaptureBlockState.postprocessing p)
  postprocessing-Lasts =
      let v = CaptureBlockState.postprocessing in
      set_block_state-Lasts o v p (enter-IsOver v (p.blocks o) (λ e. cc) (λ e. cc))

  pub dead-Lasts : Lasts p (capture_block_dead o p)
  unfolding capture_block_dead
  dead-Lasts =
      let v = CaptureBlockState.dead in
      let p' = record p { capture_blocks = remove (p.blocks o).name p.capture_blocks } in
      let l = set_block_state-Lasts o v p' (enter-IsOver v (p.blocks o) (λ e. cc) (λ e. cc)) in
      record { bigger = l.bigger; same_name = l.same_name; later = l.later }

  dead-tasks : (capture_block_dead o p).tasks ≡ p.tasks
  unfolding capture_block_dead
  dead-tasks = ground arith

  pub dead-IsKnown : IsKnown (capture_block_dead o p)
  dead-IsKnown =
      same_tasks-IsKnown p (capture_block_dead o p) k dead-Lasts dead-tasks
        (capture_block_dead-IsAccounted o p k.accounted below other)

cancelled_always :
    (o : Option Task) (p : Product) → AlwaysTask o p → AlwaysTask (cancelled_task o) p
cancelled_always none p a = tt
cancelled_always (some task) p a = a

cancelled_starts : (o : Option Task) → task_starts (cancelled_task o) ≡ task_starts o
cancelled_starts none = refl
cancelled_starts (some task) = refl

pub cancel_starts :
    (t u : ℕ) (p : Product) → task_starts ((cancel t p).tasks u) ≡ task_starts (p.tasks u)
cancel_starts t u p = elim (Bool-cases (u == t)) [
  | inl same ↦ rw same (
      cancelled_starts (p.tasks t)
      ∙ ap (λ x. task_starts (p.tasks x)) (sym ((nat_eq.same_iff u t).0 same)))
  | inr differs ↦ rw differs refl
]

pub cancel-IsKnown : (t : ℕ) (p : Product) → IsKnown p → IsKnown (cancel t p)
cancel-IsKnown t p k = record {
  accounted = record {
    listed = k.accounted.listed;
    once = k.accounted.once;
    named = k.accounted.named;
    buried = k.accounted.buried;
    captures = k.accounted.captures;
    sole = k.accounted.sole;
    unique = k.accounted.unique;
    sensed = k.accounted.sensed;
  };
  always = λ u. elim (Bool-cases (u == t)) [
    | inl same ↦ rw same (known t (cancelled_always (p.tasks t) p (k.always t)))
    | inr differs ↦ rw differs (other (p.tasks u) (k.always u))
  ];
  separate =
      λ a b o e f. k.separate a b o (sym (cancel_starts t a p) ∙ e) (sym (cancel_starts t b p) ∙ f);
}
  where
    other : (o : Option Task) → AlwaysTask o p → AlwaysTask o (cancel t p)
    other o h = AlwaysTask-Lasts o p (cancel t p) (same-Lasts p (cancel t p) refl refl) h

    known :
        (a : ℕ)
        → AlwaysTask (cancelled_task (p.tasks a)) p
        → AlwaysTask (cancelled_task (p.tasks a)) (cancel t p)
    known a h = other (cancelled_task (p.tasks a)) h
