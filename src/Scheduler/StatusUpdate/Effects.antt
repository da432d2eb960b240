-- ===== src/Scheduler/StatusUpdate/Effects.antt =====
-- What a status update does, and what holds of the active tasks.
use katsdpcontroller.Prelude.{
  ◌⊎◌, ◌+◌, ◌<◌, not, ◌&&◌, ltb, sym, if◌then◌else◌, Bool-cases, Option-cases, ◌==◌, lookup,
  lookup-insert, lookup-remove, insert-Each, remove-Each, lookup-Each, ℕ, ◌≤◌, refl, ap, ◌∙◌, inl,
  inr, some, some_inj, [], ◌∷◌, arith, nat_eq, string_eq, Dict, Each, String, ◌≡◌, ◌≢◌, true, false,
  none,
}
use katsdpcontroller.Scheduler.PhysicalNode.Stats.{task_set_state}
use katsdpcontroller.Scheduler.PhysicalNode.{value, set_state, dead, running}
use katsdpcontroller.Scheduler.StatusUpdate.{
  Updated, is_overdue, status_update, kill_task, acknowledge, StatusState, is_terminal, Status,
  ActiveTask, set_status, next_state, is_killing, task_running, task_killing, other_status,
}

-- An active task is not dead, and has no end time.
abbrev pub IsLive : String → ActiveTask → Type 0
IsLive task_id self = (self.task.node.state ≢ dead) × (self.end_time ≡ none)

abbrev pub AreLive : Dict ActiveTask → Type 0
AreLive = Each IsLive

set_status_fields :
    (status : Status) (self : ActiveTask)
    → ((set_status status self).task ≡ self.task)
      × (is_terminal status.state ≡ false → (set_status status self).end_time ≡ self.end_time)
      × (is_terminal status.state ≡ true → (set_status status self).end_time ≢ none)
      × (is_terminal status.state ≡ true
          → self.end_time ≡ none
          → (set_status status self).start_time ≢ none)
unfolding set_status is_terminal
set_status_fields status self = ground arith

running_not_dead :
    (state : StatusState) (self : ActiveTask)
    → is_terminal state ≡ false
    → self.task.node.state ≢ dead
    → (next_state state self).0.node.state ≢ dead
unfolding next_state task_set_state set_state is_terminal
running_not_dead state self h k = ground arith

terminal_dead :
    (state : StatusState) (self : ActiveTask)
    → is_terminal state ≡ true
    → (next_state state self).0.node.state ≡ dead
unfolding next_state task_set_state set_state
terminal_dead state self h = ground arith

-- A status after which a task is over, or not.
abbrev pub IsOver : StatusState → Type 0
IsOver state = (state ≢ task_running) × (state ≢ task_killing) × (state ≢ other_status)

abbrev pub IsGoing : StatusState → Type 0
IsGoing state = (state ≡ task_running) ⊎ ((state ≡ task_killing) ⊎ (state ≡ other_status))

is_terminal-IsOver : (state : StatusState) → is_terminal state ≡ true → IsOver state
unfolding is_terminal
is_terminal-IsOver state h = ground arith

is_terminal-IsGoing : (state : StatusState) → is_terminal state ≡ false → IsGoing state
unfolding is_terminal
is_terminal-IsGoing task_running h = inl refl
is_terminal-IsGoing task_killing h = inr (inl refl)
is_terminal-IsGoing other_status h = inr (inr refl)
is_terminal-IsGoing state h = absurd (cc)

killing_only : (state : StatusState) → state ≢ task_killing → is_killing state ≡ false
killing_only task_killing h = absurd (h refl)
killing_only state h = ground arith

-- A kill was sent, so long ago that its timeout is over, and Mesos does not say that it is killing.
abbrev pub IsOverdue : ℕ → ℕ → Status → ActiveTask → Type 0
IsOverdue now kill_timeout status self =
    (sent : ℕ) × (self.kill_sent_time ≡ some sent)
    × (sent + kill_timeout < now)
    × (status.state ≢ task_killing)

-- A task that has ended: when it started is kept, or is now known to be no later than this.
pub record Ended (status : Status) (self self' : ActiveTask) : Type 0 where
  pub is_dead : self'.task.node.state ≡ dead
  pub end_is : self'.end_time ≡ some status.timestamp
  pub start_kept : self.start_time ≢ none → self'.start_time ≡ self.start_time
  pub start_known : self.start_time ≡ none → self'.start_time ≡ some status.timestamp
  pub status_is : self'.status ≡ some status

-- A task that goes on: TASK_RUNNING makes it RUNNING if it was not so far, and is its start.
pub record Continued (status : Status) (self self' : ActiveTask) : Type 0 where
  pub runs :
      status.state ≡ task_running
      → value self.task.node.state < value running
      → self'.task.node.state ≡ running
  pub stays :
      (status.state ≢ task_running) ⊎ (value running ≤ value self.task.node.state)
      → self'.task.node.state ≡ self.task.node.state
  pub starts :
      status.state ≡ task_running
      → self.start_time ≡ none
      → self'.start_time ≡ some status.timestamp
  pub start_kept :
      (status.state ≢ task_running) ⊎ (self.start_time ≢ none) → self'.start_time ≡ self.start_time
  pub end_is : self'.end_time ≡ self.end_time
  pub kill_is : self'.kill_sent_time ≡ self.kill_sent_time
  pub status_is : self'.status ≡ some status

-- The cases of an update.
pub data Effect (now kill_timeout : ℕ) (status : Status) (active : Dict ActiveTask)
    (updated : Updated) : Type 0 where
  -- An unknown task is killed, unless it has ended.
  unknown :
      lookup status.task_id active ≡ none
      → updated.active ≡ active
      → (IsOver status.state × (updated.calls ≡ acknowledge status.task_id ∷ []))
        ⊎ (IsGoing status.state
            × (updated.calls ≡ kill_task status.task_id ∷ acknowledge status.task_id ∷ []))
      → Effect now kill_timeout status active updated
  -- A task that has ended is not active any more.
  ended :
      (self self' : ActiveTask)
      → lookup status.task_id active ≡ some self
      → IsOver status.state
      → updated.object ≡ some self'
      → Ended status self self'
      → ((k : String)
          → lookup k updated.active ≡ (if k == status.task_id then none else lookup k active))
      → updated.calls ≡ acknowledge status.task_id ∷ []
      → Effect now kill_timeout status active updated
  -- Otherwise it stays active, and a kill that is overdue is sent again.
  goes_on :
      (self self' : ActiveTask)
      → lookup status.task_id active ≡ some self
      → IsGoing status.state
      → updated.object ≡ some self'
      → Continued status self self'
      → ((k : String)
          → lookup k updated.active ≡ (if k == status.task_id then some self' else lookup k active))
      → (IsOverdue now kill_timeout status self
          × (updated.calls ≡ kill_task status.task_id ∷ acknowledge status.task_id ∷ []))
        ⊎ ((IsOverdue now kill_timeout status self → ⊥)
            × (updated.calls ≡ acknowledge status.task_id ∷ []))
      → Effect now kill_timeout status active updated

module _ (status : Status) (self : ActiveTask) where
  -- The task after the update.
  abbrev after : ActiveTask
  after = set_status status (record self { task = (next_state status.state self).0 })

  set_status_same :
      (after.task ≡ (next_state status.state self).0)
      × (after.kill_sent_time ≡ self.kill_sent_time)
      × (after.status ≡ some status)
  unfolding set_status
  set_status_same = ground arith

  set_status_over :
      is_terminal status.state ≡ true
      → self.end_time ≡ none
      → (after.end_time ≡ some status.timestamp)
        × (self.start_time ≢ none → after.start_time ≡ self.start_time)
        × (self.start_time ≡ none → after.start_time ≡ some status.timestamp)
  unfolding set_status is_terminal
  set_status_over over no_end = ground arith

  set_status_going :
      is_terminal status.state ≡ false
      → (after.end_time ≡ self.end_time)
        × (status.state ≡ task_running
            → self.start_time ≡ none
            → after.start_time ≡ some status.timestamp)
        × ((status.state ≢ task_running) ⊎ (self.start_time ≢ none)
            → after.start_time ≡ self.start_time)
  unfolding set_status is_terminal
  set_status_going going = ground arith

  next_running :
      is_terminal status.state ≡ false
      → status.state ≡ task_running
      → value self.task.node.state < value running
      → (next_state status.state self).0.node.state ≡ running
  unfolding next_state task_set_state set_state
  next_running going is low = ground arith

  next_same :
      is_terminal status.state ≡ false
      → (status.state ≢ task_running) ⊎ (value running ≤ value self.task.node.state)
      → (next_state status.state self).0.node.state ≡ self.task.node.state
  unfolding next_state task_set_state set_state is_terminal
  next_same going other = ground arith

  state_is : after.task.node.state ≡ (next_state status.state self).0.node.state
  state_is = ap (λ t. t.node.state) set_status_same.0

  after-Ended : is_terminal status.state ≡ true → self.end_time ≡ none → Ended status self after
  after-Ended over no_end =
      let (end_is, start_kept, start_known) = set_status_over over no_end in
      record {
        is_dead = state_is ∙ terminal_dead status.state self over;
        end_is = end_is;
        start_kept = start_kept;
        start_known = start_known;
        status_is = set_status_same.2;
      }

  after-Continued : is_terminal status.state ≡ false → Continued status self after
  after-Continued going =
      let (end_is, starts, start_kept) = set_status_going going in
      record {
        runs = λ is low. state_is ∙ next_running going is low;
        stays = λ other. state_is ∙ next_same going other;
        starts = starts;
        start_kept = start_kept;
        end_is = end_is;
        kill_is = set_status_same.1;
        status_is = set_status_same.2;
      }

  not_killing : is_killing status.state ≡ false → status.state ≢ task_killing
  not_killing h e = ground arith

  is_overdue_cases :
      (now kill_timeout : ℕ)
      → is_terminal status.state ≡ false
      → (IsOverdue now kill_timeout status self
          × (is_overdue now kill_timeout status.state after ≡ true))
        ⊎ ((IsOverdue now kill_timeout status self → ⊥)
            × (is_overdue now kill_timeout status.state after ≡ false))
  unfolding is_overdue
  is_overdue_cases now kill_timeout going = elim (Option-cases self.kill_sent_time) [
    | inl never ↦
        let same : after.kill_sent_time ≡ none = set_status_same.1 ∙ never in
        inr (λ late. cc, rw same refl)
    | inr (sent, was) ↦
        let same : after.kill_sent_time ≡ some sent = set_status_same.1 ∙ was in
        elim (Bool-cases (not (is_killing status.state) && ltb (sent + kill_timeout) now)) [
          | inl late ↦ inl (
            (sent, was, ground arith, not_killing (ground arith)),
            rw (same, going) (ground arith),
          )
          | inr fine ↦ inr (
            λ (sent', was', late, other).
                let is : sent' ≡ sent = some_inj (sym was' ∙ was) in
                let calm = killing_only status.state other in ground (arith, calm),
            rw (same, going) (ground arith),
          )
        ]
  ]

never_overdue :
    (now kill_timeout : ℕ) (state : StatusState) (self : ActiveTask)
    → is_terminal state ≡ true
    → is_overdue now kill_timeout state self ≡ false
unfolding is_overdue
never_overdue now kill_timeout state self h = ground arith

-- With live active tasks, a status update does one of three things. If its task is unknown, the
-- active tasks stay, and the task is killed if the status is TASK_RUNNING, TASK_KILLING or any
-- that does not end a task. If the status ends a known task, the task becomes DEAD, its end time
-- is the status's and so is its start time unless it had one, and it alone is not active any
-- more. Otherwise the task alone is updated: TASK_RUNNING makes it RUNNING if its state is before
-- that and gives it a start time if it had none, and else its state, start time, end time and the
-- time of its kill stay; and it is killed exactly if a kill was sent more than the timeout ago
-- and the status is not TASK_KILLING. A known task keeps the status, and the update is
-- acknowledged last, once.
pub status_update-Effect :
    (now kill_timeout : ℕ) (status : Status) (active : Dict ActiveTask)
    → AreLive active
    → Effect now kill_timeout status active (status_update now kill_timeout status active)
unfolding status_update
status_update-Effect now kill_timeout status active h =
    elim (Option-cases (lookup status.task_id active)) [
      | inl absent ↦
          unknown absent (rw (status_update, absent) refl)
            (elim (Bool-cases (is_terminal status.state)) [
              | inl over ↦
                  inl (is_terminal-IsOver status.state over, rw (status_update, absent, over) refl)
              | inr going ↦
                  inr
                    (is_terminal-IsGoing status.state going, rw (status_update, absent, going) refl)
            ])
      | inr (self, at) ↦
          let self' = after status self in
          let live = lookup-Each IsLive status.task_id self active h at in
          elim (Bool-cases (is_terminal status.state)) [
            | inl over ↦
                ended self self' at (is_terminal-IsOver status.state over)
                  (rw (status_update, at) refl) (after-Ended status self over live.1)
                  (λ k. rw (status_update, at, over) (lookup-remove k status.task_id active))
                  (rw (status_update, at, never_overdue now kill_timeout status.state self' over)
                    refl)
            | inr going ↦
                goes_on self self' at (is_terminal-IsGoing status.state going)
                  (rw (status_update, at) refl) (after-Continued status self going)
                  (λ k. rw (status_update, at, going) (lookup-insert k status.task_id self' active))
                  (elim (is_overdue_cases status self now kill_timeout going) [
                    | inl (overdue, is) ↦ inl (overdue, rw (status_update, at, is) refl)
                    | inr (fine, is) ↦ inr (fine, rw (status_update, at, is) refl)
                  ])
          ]
    ]

-- If no active task is DEAD or has an end time, then this still holds after any status update.
pub status_update-AreLive :
    (now kill_timeout : ℕ) (status : Status) (active : Dict ActiveTask)
    → AreLive active
    → AreLive (status_update now kill_timeout status active).active
unfolding status_update
status_update-AreLive now kill_timeout status active h =
    elim (Option-cases (lookup status.task_id active)) [
      | inl absent ↦ rw (status_update, absent) h
      | inr (self, at) ↦
          let moved = record self { task = (next_state status.state self).0 } in
          let fields = set_status_fields status moved in
          let (alive, no_end) = lookup-Each IsLive status.task_id self active h at in
          elim (Bool-cases (is_terminal status.state)) [
            | inl over ↦ rw (status_update, at, over) (remove-Each IsLive status.task_id active h)
            | inr still ↦
                rw (status_update, at, still)
                  (insert-Each IsLive status.task_id (set_status status moved) active h (
                    rw fields.0 (running_not_dead status.state self still alive),
                    fields.1 still ∙ no_end,
                  ))
          ]
    ]
