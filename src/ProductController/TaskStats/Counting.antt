-- ===== src/ProductController/TaskStats/Counting.antt =====
-- The sensors of `TaskStats` count the tasks that report to them. product_controller.py, with what
-- `PhysicalTask` of scheduler.py reports.
use katsdpcontroller.Prelude.{
  if◌then◌else◌, ◌==◌, nat_eq, ℕ, zero, suc, ◌+◌, ◌≡◌, ◌<◌, Bool, true, false, ◌&&◌, not, Option,
  none, some, List, [], ◌∷◌, arith, refl, sum_of, one_if, get_elem?, set, Bool-cases, inl, inr,
  subst, sym, ap, ◌∙◌, All,
}
use katsdpcontroller.Scheduler.PhysicalNode.{TaskState, value, state_eq}
use katsdpcontroller.Scheduler.PhysicalNode.Stats.{
  Change, is_about, gained, lost, PhysicalTask, task_set_state, add_task, collect, counts,
  IsBalanced, task_set_state-IsBalanced, add_task-IsBalanced, set_queue-IsBalanced,
}
use katsdpcontroller.ProductController.Tasks.{is_some}
use katsdpcontroller.ProductController.TaskStats.{
  ℤ, pos, negsuc, up, down, Sensor, TaskStats, add_delta, add_deltas, task_state_changes, reading,
  new_stats, Reads, up-Difference, down-Difference,
}

-- The tasks, and the sensors that they report to.
pub record World : Type 0 where
  pub tasks : List PhysicalTask
  pub stats : TaskStats

-- A task after a change, with its report.
abbrev pub report : ℕ → PhysicalTask × List Change → World → World
report i (t, changes) w = record {
  tasks = set w.tasks i t;
  stats = task_state_changes changes w.stats;
}

abbrev pub IsNew : PhysicalTask → Type 0
IsNew t = (value t.node.state < 2) × (t.has_stats ≡ false) × (t.queue ≡ none)

pub data Happens (w : World) : World → Type 0 where
  enters :
      (i q : ℕ) (t : PhysicalTask)
      → get_elem? w.tasks i ≡ some t
      → IsNew t
      → Happens w (report i (add_task q t) w)
  moves :
      (i : ℕ) (s : TaskState) (t : PhysicalTask)
      → get_elem? w.tasks i ≡ some t
      → Happens w (report i (task_set_state s t) w)
  leaves :
      (i : ℕ) (t : PhysicalTask)
      → get_elem? w.tasks i ≡ some t
      → value t.node.state < 2
      → Happens w (report i (collect t) w)

pub data Reach (w : World) : World → Type 0 where
  here : Reach w w
  next : {v u : World} → Reach w v → Happens v u → Reach w u

-- A change that is about a sensor is about a queue and a state if that sensor is.
about_same :
    (a a' x x' q q' : ℕ) → (a == x && a' == x') ≡ true → (a == q && a' == q') ≡ (q == x && q' == x')
about_same a a' x x' q q' h = ground arith

about_other :
    (a a' x x' q q' : ℕ)
    → (a == x && a' == x') ≡ false
    → (q == x && q' == x') ≡ true
    → (a == q && a' == q') ≡ false
about_other a a' x x' q q' h g = ground arith

-- One change, if it is about a sensor.
abbrev changed : Bool → Bool → ℤ → ℤ
changed about gain z = if about then (if gain then up z else down z) else z

abbrev changed_reading : Bool → Bool → Option ℤ → Option ℤ
changed_reading about gain none = none
changed_reading about gain (some z) = some (changed about gain z)

unchanged : (gain : Bool) (r : Option ℤ) → r ≡ changed_reading false gain r
unchanged gain none = refl
unchanged gain (some z) = refl

changed-Reads :
    (a b : ℕ) (gain about : Bool) (r : Option ℤ)
    → Reads a b r
    → Reads
        (a + (one_if (gain && about) + 0))
        (b + (one_if (not gain && about) + 0))
        (changed_reading about gain r)
changed-Reads a b gain about none h = tt
changed-Reads a b true true (some z) h = ground (arith, up-Difference a b z)
changed-Reads a b false true (some z) h = ground (arith, down-Difference a b z)
changed-Reads a b true false (some z) h = ground arith
changed-Reads a b false false (some z) h = ground arith

add_zero : (a : ℕ) → a + 0 ≡ a
add_zero a = omega arith

Reads-eq : {a b a' b' : ℕ} (r : Option ℤ) → Reads a b r → a ≡ a' → b ≡ b' → Reads a' b' r
Reads-eq none h p q = tt
Reads-eq (some (pos n)) h p q = omega arith
Reads-eq (some (negsuc n)) h p q = omega arith

Reads-cancel : {a b : ℕ} (n k : ℕ) (r : Option ℤ) → Reads a b r → a ≡ n + k → b ≡ k → Reads n 0 r
Reads-cancel n k none h p q = tt
Reads-cancel n k (some (pos m)) h p q = omega arith
Reads-cancel n k (some (negsuc m)) h p q = omega arith

listed_changed :
    (about gain : Bool) (r : Option ℤ) → is_some (changed_reading about gain r) ≡ is_some r
listed_changed about gain none = refl
listed_changed about gain (some z) = refl

exact : (n : ℕ) (r : Option ℤ) → Reads n 0 r → is_some r ≡ true → r ≡ some (pos n)
exact n none h listed = cc
exact n (some (pos m)) h listed = ground arith
exact n (some (negsuc m)) h listed = absurd (omega arith)

listed_at : (q : ℕ) → q < 2 → (s : TaskState) → is_some (reading q s new_stats.in_state) ≡ true
unfolding new_stats
listed_at zero small s = ground arith
listed_at (suc zero) small s = ground arith
listed_at (suc (suc q)) small s = absurd (omega arith)

module _ (q : ℕ) (s : TaskState) where
  abbrev pub total : List PhysicalTask → ℕ
  total = sum_of (counts q s)

  total-set :
      (i : ℕ) (t t' : PhysicalTask) (ts : List PhysicalTask)
      → get_elem? ts i ≡ some t
      → total (set ts i t') + counts q s t ≡ total ts + counts q s t'
  total-set i t t' [] e = cc
  total-set zero t t' (x ∷ ts) e =
      let same : x ≡ t = cc in
      subst (λ y. total (t' ∷ ts) + counts q s y ≡ total (x ∷ ts) + counts q s t') same
        (omega arith)
  total-set (suc i) t t' (x ∷ ts) e = omega (arith, total-set i t t' ts e)

  reading-add_delta :
      (c : Change) (l : List Sensor)
      → reading q s (add_delta c l) ≡ changed_reading (is_about q s c) c.gain (reading q s l)
  reading-add_delta c [] = refl
  reading-add_delta c (x ∷ l) = elim (Bool-cases (c.queue == x.queue && state_eq c.state x.state)) [
    | inl about ↦
        let same = about_same c.queue (value c.state) x.queue (value x.state) q (value s) about in
        elim (Bool-cases (q == x.queue && state_eq s x.state)) [
          | inl this ↦ rw (about, same, this) refl
          | inr other ↦ rw (about, same, other) (unchanged c.gain (reading q s l))
        ]
    | inr apart ↦ elim (Bool-cases (q == x.queue && state_eq s x.state)) [
      | inl this ↦
          let other =
            about_other c.queue (value c.state) x.queue (value x.state) q (value s) apart this in
          rw (apart, this, other) refl
      | inr other ↦ rw (apart, other) (reading-add_delta c l)
    ]
  ]

  add_deltas-Reads :
      (a b : ℕ) (cs : List Change) (l : List Sensor)
      → Reads a b (reading q s l)
      → Reads (a + gained q s cs) (b + lost q s cs) (reading q s (add_deltas cs l))
  add_deltas-Reads a b [] l h = rw (add_zero a, add_zero b) h
  add_deltas-Reads a b (c ∷ cs) l h =
      let once =
        subst
          (Reads (a + (one_if (c.gain && is_about q s c) + 0))
            (b + (one_if (not c.gain && is_about q s c) + 0)))
          (sym (reading-add_delta c l))
          (changed-Reads a b c.gain (is_about q s c) (reading q s l) h) in
      let rest =
        add_deltas-Reads (a + (one_if (c.gain && is_about q s c) + 0))
          (b + (one_if (not c.gain && is_about q s c) + 0)) cs (add_delta c l) once in
      Reads-eq (reading q s (add_deltas cs (add_delta c l))) rest (omega arith) (omega arith)

  report-Reads :
      (i : ℕ) (t : PhysicalTask) (after : PhysicalTask × List Change) (w : World)
      → get_elem? w.tasks i ≡ some t
      → IsBalanced q s t after
      → Reads (total w.tasks) 0 (reading q s w.stats.in_state)
      → Reads (total (report i after w).tasks) 0 (reading q s (report i after w).stats.in_state)
  unfolding task_state_changes
  report-Reads i t (t', cs) w e balanced h =
      let added = add_deltas-Reads (total w.tasks) 0 cs w.stats.in_state h in
      let sums = total-set i t t' w.tasks e in
      Reads-cancel (total (set w.tasks i t')) (lost q s cs)
        (reading q s (add_deltas cs w.stats.in_state)) added (omega arith) (omega arith)

  collect-IsBalanced : (t : PhysicalTask) → value t.node.state < 2 → IsBalanced q s t (collect t)
  unfolding collect
  collect-IsBalanced t early = set_queue-IsBalanced q s none t early

  Happens-Reads :
      (w v : World)
      → Happens w v
      → Reads (total w.tasks) 0 (reading q s w.stats.in_state)
      → Reads (total v.tasks) 0 (reading q s v.stats.in_state)
  Happens-Reads w _ (enters i k t e new) h =
      report-Reads i t (add_task k t) w e (add_task-IsBalanced q s k t new.0 new.1 new.2) h
  Happens-Reads w _ (moves i state t e) h =
      report-Reads i t (task_set_state state t) w e (task_set_state-IsBalanced q s state t) h
  Happens-Reads w _ (leaves i t e early) h =
      report-Reads i t (collect t) w e (collect-IsBalanced t early) h

  no_tasks : (ts : List PhysicalTask) → All IsNew ts → total ts ≡ 0
  no_tasks [] new = refl
  no_tasks (t ∷ ts) new = ground (arith, no_tasks ts)

  zero-Reads : Reads 0 0 (reading q s new_stats.in_state)
  unfolding new_stats
  zero-Reads = ground arith

  Reach-Reads :
      (w v : World)
      → Reach w v
      → Reads (total w.tasks) 0 (reading q s w.stats.in_state)
      → Reads (total v.tasks) 0 (reading q s v.stats.in_state)
  Reach-Reads w v here h = h
  Reach-Reads w v (next {v = u} r step) h = Happens-Reads u v step (Reach-Reads w u r h)

  -- No sensor comes or goes.
  listed_deltas :
      (cs : List Change) (l : List Sensor)
      → is_some (reading q s (add_deltas cs l)) ≡ is_some (reading q s l)
  listed_deltas [] l = refl
  listed_deltas (c ∷ cs) l =
      listed_deltas cs (add_delta c l)
      ∙ ap is_some (reading-add_delta c l)
      ∙ listed_changed (is_about q s c) c.gain (reading q s l)

  listed_report :
      (i : ℕ) (after : PhysicalTask × List Change) (w : World)
      → is_some (reading q s (report i after w).stats.in_state)
        ≡ is_some (reading q s w.stats.in_state)
  unfolding task_state_changes
  listed_report i (t, cs) w = listed_deltas cs w.stats.in_state

  listed_Reach :
      (w v : World)
      → Reach w v
      → is_some (reading q s v.stats.in_state) ≡ is_some (reading q s w.stats.in_state)
  listed_Reach w v here = refl
  listed_Reach w _ (next {v = u} r (enters i k t e new)) =
      listed_report i (add_task k t) u ∙ listed_Reach w u r
  listed_Reach w _ (next {v = u} r (moves i state t e)) =
      listed_report i (task_set_state state t) u ∙ listed_Reach w u r
  listed_Reach w _ (next {v = u} r (leaves i t e early)) =
      listed_report i (collect t) u ∙ listed_Reach w u r

  listed_new : q < 2 → is_some (reading q s new_stats.in_state) ≡ true
  listed_new small = listed_at q small s

  -- The sensors of TaskStats count tasks. Start from any tasks that have not started and have
  -- neither a queue nor statistics, and from new sensors; let tasks enter queues while they are
  -- like that, change their states in any way, and be collected before they are STARTED, each
  -- reporting to the sensors: then for the queue 0 (default) or 1 (batch) and any state, the
  -- sensor's value is the number of tasks that are in that queue and state.
  pub reading_refines_total :
      (ts : List PhysicalTask) (w : World)
      → q < 2
      → All IsNew ts
      → Reach (record { tasks = ts; stats = new_stats }) w
      → reading q s w.stats.in_state ≡ some (pos (total w.tasks))
  reading_refines_total ts w small new reached =
      let start : World = record { tasks = ts; stats = new_stats } in
      exact (total w.tasks) (reading q s w.stats.in_state)
        (Reach-Reads start w reached (rw (no_tasks ts new) zero-Reads))
        (listed_Reach start w reached ∙ listed_new small)
