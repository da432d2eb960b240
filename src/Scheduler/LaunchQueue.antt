-- ===== src/Scheduler/LaunchQueue.antt =====
-- `LaunchQueue` of scheduler.py, and how `_launch_once` chooses the groups to try. A launch group is
-- its identity, its deadline (`none` for `math.inf`), and whether its future has been cancelled.
pub mod Choice
use katsdpcontroller.Prelude.{
  ltb, if◌then◌else◌, ◌==◌, ℕ, min, String, Bool, true, false, not, Option, none, some, List, [],
  ◌∷◌, ◌++◌, nat_eq, string_eq,
}
use katsdpcontroller.Scheduler.Devices.{is_empty}
use katsdpcontroller.Errors.{Result, value_error, index_error, ok, err, ◌>>=◌}

pub record LaunchGroup : Type 0 where
  pub id : ℕ
  pub deadline : Option ℕ
  pub is_cancelled : Bool

pub record LaunchQueue : Type 0 where
  pub role : String
  pub priority : ℕ
  pub groups : List LaunchGroup

unfoldable pub drop_cancelled : List LaunchGroup → List LaunchGroup
drop_cancelled [] = []
drop_cancelled (group ∷ groups) =
    let rest = drop_cancelled groups in if group.is_cancelled then rest else group ∷ groups

-- `_clear_cancelled`
unfoldable pub clear_cancelled : LaunchQueue → LaunchQueue
unfolding drop_cancelled
clear_cancelled self = record self { groups = drop_cancelled self.groups }

abbrev pub first_of : List LaunchGroup → Result LaunchGroup
first_of [] = err index_error
first_of (group ∷ groups) = ok group

-- `front`
unfoldable pub front : LaunchQueue → Result LaunchGroup × LaunchQueue
unfolding clear_cancelled
front self = let self' = clear_cancelled self in (first_of self'.groups, self')

-- `__bool__`
unfoldable pub has_groups : LaunchQueue → Bool × LaunchQueue
unfolding clear_cancelled
has_groups self = let self' = clear_cancelled self in (not (is_empty self'.groups), self')

abbrev without : ℕ → List LaunchGroup → Result (List LaunchGroup)
without id [] = err value_error
without id (group ∷ groups) =
    let rest = without id groups in
    if group.id == id then ok groups else (do kept ← rest; ok (group ∷ kept))

-- `remove`
unfoldable pub remove_group : LaunchGroup → LaunchQueue → Result LaunchQueue
remove_group group self = do
  groups ← without group.id self.groups
  ok (record self { groups = groups })

-- `add`, but for the tasks' statistics
unfoldable pub add_group : LaunchGroup → LaunchQueue → LaunchQueue
add_group group self = record self { groups = self.groups ++ group ∷ [] }

-- `__iter__`
unfoldable pub live_groups : List LaunchGroup → List LaunchGroup
live_groups [] = []
live_groups (group ∷ groups) =
    let rest = live_groups groups in if group.is_cancelled then rest else group ∷ rest

-- The candidates of `_launch_once`: the queues that have groups, with their first groups, and all
-- queues as they are left.
pub record Candidate : Type 0 where
  pub queue : LaunchQueue
  pub group : LaunchGroup

-- `(queue, queue.front()) … if queue`
abbrev pub with_front : LaunchQueue → List Candidate → List Candidate
with_front queue rest =
    let (any, queue') = has_groups queue in
    let (r, queue'') = front queue' in
    if any
    then elim r [ err e ↦ rest | ok group ↦ record { queue = queue''; group = group } ∷ rest ]
    else rest

unfoldable pub candidates : List LaunchQueue → List Candidate
unfolding front has_groups
candidates [] = []
candidates (queue ∷ queues) = with_front queue (candidates queues)

abbrev pub lowest_of : ℕ → List Candidate → ℕ
lowest_of low [] = low
lowest_of low (c ∷ cs) = lowest_of (min low c.queue.priority) cs

-- `min(queue.priority …)`, of at least one candidate
unfoldable pub lowest_priority : List Candidate → ℕ
lowest_priority [] = 0
lowest_priority (c ∷ cs) = lowest_of c.queue.priority cs

abbrev pub of_priority : ℕ → List Candidate → List Candidate
of_priority low [] = []
of_priority low (c ∷ cs) =
    let rest = of_priority low cs in if c.queue.priority == low then c ∷ rest else rest

-- a < b on deadlines
abbrev pub earlier : Option ℕ → Option ℕ → Bool
earlier none b = false
earlier (some a) none = true
earlier (some a) (some b) = ltb a b

-- `candidates.sort(key=…)`, which is stable
unfoldable pub insert_by_deadline : Candidate → List Candidate → List Candidate
insert_by_deadline c [] = c ∷ []
insert_by_deadline c (d ∷ ds) =
    if earlier d.group.deadline c.group.deadline then d ∷ insert_by_deadline c ds else c ∷ d ∷ ds

unfoldable pub sort_by_deadline : List Candidate → List Candidate
unfolding insert_by_deadline
sort_by_deadline [] = []
sort_by_deadline (c ∷ cs) = insert_by_deadline c (sort_by_deadline cs)

-- The groups to try, in order.
unfoldable pub choose : List LaunchQueue → List Candidate
unfolding sort_by_deadline candidates lowest_priority
choose queues =
    let all = candidates queues in sort_by_deadline (of_priority (lowest_priority all) all)
