-- ===== src/Scheduler/PhysicalNode/Stats.antt =====
-- The statistics of `PhysicalTask`: what `set_state` and the `queue` setter report to `TaskStats`.
-- A queue is a number; the dictionaries of deltas are lists of single changes.
use katsdpcontroller.Prelude.{
  if◌then◌else◌, one_if, sum_of, ◌==◌, ℕ, ◌+◌, ◌<◌, ◌≡◌, Bool, true, false, not, ◌&&◌, Option, none,
  some, List, [], ◌∷◌, ◌++◌, arith, refl, sum_of-append, nat_eq, string_eq,
}
use katsdpcontroller.Scheduler.PhysicalNode.{
  TaskState, value, ◌<s◌, state_eq, PhysicalNode, set_state, started,
}

pub record PhysicalTask : Type 0 where
  pub node : PhysicalNode
  pub queue : Option ℕ
  pub has_stats : Bool

-- `{queue: {state: 1}}` or `{queue: {state: -1}}`
pub record Change : Type 0 where
  pub queue : ℕ
  pub state : TaskState
  pub gain : Bool

-- `PhysicalTask.set_state`
unfoldable pub task_set_state : TaskState → PhysicalTask → PhysicalTask × List Change
task_set_state state self =
    let node' = set_state state self.node in
    let self' = record self { node = node' } in
    elim self.queue [
      | none ↦ (self', [])
      | some q ↦ (
        self',
        if self.has_stats && not (state_eq node'.state self.node.state)
            then record { queue = q; state = self.node.state; gain = false }
              ∷ record { queue = q; state = node'.state; gain = true }
              ∷ []
            else [],
      )
    ]

abbrev pub change_of : Option ℕ → TaskState → Bool → List Change
change_of none state gain = []
change_of (some q) state gain = record { queue = q; state = state; gain = gain } ∷ []

abbrev pub same_queue : Option ℕ → Option ℕ → Bool
same_queue none none = true
same_queue none (some b) = false
same_queue (some a) none = false
same_queue (some a) (some b) = a == b

-- The setter of `queue`
unfoldable pub set_queue : Option ℕ → PhysicalTask → PhysicalTask × List Change
set_queue queue self = (
  record self { queue = queue },
  if self.has_stats && not (same_queue queue self.queue) && (self.node.state <s started)
      then change_of self.queue self.node.state false ++ change_of queue self.node.state true
      else [],
)

-- What `LaunchQueue.add` does to a task.
unfoldable pub add_task : ℕ → PhysicalTask → PhysicalTask × List Change
unfolding set_queue
add_task queue self = set_queue (some queue) (record self { has_stats = true })

-- `__del__`
unfoldable pub collect : PhysicalTask → PhysicalTask × List Change
unfolding set_queue
collect self = set_queue none self

-- A sequence of state changes, and all that they report.
abbrev pub set_states : List TaskState → PhysicalTask → PhysicalTask × List Change
set_states [] t = (t, [])
set_states (state ∷ states) t =
    let (t', first) = task_set_state state t in
    let (t'', later) = set_states states t' in (t'', first ++ later)

-- From the task's entry into a queue.
abbrev pub enqueue_and_set : ℕ → List TaskState → PhysicalTask → PhysicalTask × List Change
enqueue_and_set queue states t =
    let (t', first) = add_task queue t in
    let (t'', later) = set_states states t' in (t'', first ++ later)

module _ (q : ℕ) (s : TaskState) where
  -- The task counts for queue `q` in state `s`.
  abbrev pub counts : PhysicalTask → ℕ
  counts t = one_if (t.has_stats && same_queue t.queue (some q) && state_eq t.node.state s)

  abbrev pub is_about : Change → Bool
  is_about c = c.queue == q && state_eq c.state s

  abbrev pub gained : List Change → ℕ
  gained = sum_of (λ c. one_if (c.gain && is_about c))

  abbrev pub lost : List Change → ℕ
  lost = sum_of (λ c. one_if (not c.gain && is_about c))

  abbrev pub IsBalanced : PhysicalTask → PhysicalTask × List Change → Type 0
  IsBalanced t (t', cs) = gained cs + counts t ≡ lost cs + counts t'

  pub task_set_state-IsBalanced :
      (state : TaskState) (t : PhysicalTask) → IsBalanced t (task_set_state state t)
  unfolding task_set_state
  task_set_state-IsBalanced state t = ground arith

  pub set_queue-IsBalanced :
      (queue : Option ℕ) (t : PhysicalTask)
      → value t.node.state < 2
      → IsBalanced t (set_queue queue t)
  unfolding set_queue
  set_queue-IsBalanced none t early = ground arith
  set_queue-IsBalanced (some k) t early = ground arith

  pub add_task-IsBalanced :
      (queue : ℕ) (t : PhysicalTask)
      → value t.node.state < 2
      → t.has_stats ≡ false
      → t.queue ≡ none
      → IsBalanced t (add_task queue t)
  unfolding add_task
  add_task-IsBalanced queue t early fresh no_queue = ground arith

  set_states-IsBalanced :
      (states : List TaskState) (t : PhysicalTask) → IsBalanced t (set_states states t)
  set_states-IsBalanced [] t = refl
  set_states-IsBalanced (state ∷ states) t =
      let (t', first) = task_set_state state t in
      let (t'', later) = set_states states t' in
      let here : IsBalanced t (task_set_state state t) = task_set_state-IsBalanced state t in
      let there : IsBalanced t' (set_states states t') = set_states-IsBalanced states t' in
      omega (
        arith,
        sum_of-append (λ c. one_if (c.gain && is_about c)) first later,
        sum_of-append (λ c. one_if (not c.gain && is_about c)) first later,
        here,
        there,
      )

  -- For a task that has not started and has neither a queue nor statistics yet, and for each
  -- queue and state: after the task has entered a queue and gone through any state changes, the
  -- gains that it reported are the losses plus one if it is in that queue and state now.
  pub enqueue_and_set-IsBalanced :
      (queue : ℕ) (states : List TaskState) (t : PhysicalTask)
      → value t.node.state < 2
      → t.has_stats ≡ false
      → t.queue ≡ none
      → gained (enqueue_and_set queue states t).1
        ≡ lost (enqueue_and_set queue states t).1 + counts (enqueue_and_set queue states t).0
  enqueue_and_set-IsBalanced queue states t early fresh no_queue =
      let (t', first) = add_task queue t in
      let (t'', later) = set_states states t' in
      let here : IsBalanced t (add_task queue t) =
        add_task-IsBalanced queue t early fresh no_queue in
      let there : IsBalanced t' (set_states states t') = set_states-IsBalanced states t' in
      ground (
        arith,
        sum_of-append (λ c. one_if (c.gain && is_about c)) first later,
        sum_of-append (λ c. one_if (not c.gain && is_about c)) first later,
        here,
        there,
      )

  -- For a task that has not started and has neither a queue nor statistics yet, and for each
  -- queue and state: if the task enters a queue, goes through any state changes, and is collected
  -- before it has reached STARTED, then the gains and the losses that it reported in all are
  -- equal.
  pub collect_leaves_no_trace :
      (queue : ℕ) (states : List TaskState) (t : PhysicalTask)
      → value t.node.state < 2
      → t.has_stats ≡ false
      → t.queue ≡ none
      → value (enqueue_and_set queue states t).0.node.state < 2
      → gained (enqueue_and_set queue states t).1
          + gained (collect (enqueue_and_set queue states t).0).1
        ≡ lost (enqueue_and_set queue states t).1
          + lost (collect (enqueue_and_set queue states t).0).1
  unfolding collect
  collect_leaves_no_trace queue states t early fresh no_queue late =
      let (t', reported) = enqueue_and_set queue states t in
      let before = enqueue_and_set-IsBalanced queue states t early fresh no_queue in
      let at_end : IsBalanced t' (set_queue none t') = set_queue-IsBalanced none t' late in
      let nothing : counts (set_queue none t').0 ≡ 0 = ground arith in
      omega (arith, before, at_end, nothing)
