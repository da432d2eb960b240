-- ===== src/Scheduler/LaunchQueue/Choice.antt =====
-- A queue serves its live groups in order, and the groups that are tried are the first ones of the
-- queues of the highest priority, by deadline.
use katsdpcontroller.Prelude.{
  Bool-cases, ltb, one_if, sum_of, All, ◌==◌, ℕ, ◌+◌, ◌≤◌, min, Bool, true, false, ◌&&◌, Option,
  none, some, nat_eq, string_eq, ◌≡◌, refl, sym, ap, subst, ◌∙◌, ◌⊎◌, inl, inr, List, [], ◌∷◌,
  arith,
}
use katsdpcontroller.Scheduler.LaunchQueue.{
  has_groups, with_front, lowest_of, lowest_priority, of_priority, earlier, insert_by_deadline,
  sort_by_deadline, choose, LaunchGroup, LaunchQueue, drop_cancelled, clear_cancelled, first_of,
  front, live_groups, Candidate, candidates,
}
use katsdpcontroller.Errors.{ok}

live_groups-drop_cancelled :
    (groups : List LaunchGroup) → live_groups (drop_cancelled groups) ≡ live_groups groups
unfolding live_groups drop_cancelled
live_groups-drop_cancelled [] = refl
live_groups-drop_cancelled (group ∷ groups) = ground (arith, live_groups-drop_cancelled groups)

first_of-drop_cancelled :
    (groups : List LaunchGroup) → first_of (drop_cancelled groups) ≡ first_of (live_groups groups)
unfolding live_groups drop_cancelled
first_of-drop_cancelled [] = refl
first_of-drop_cancelled (group ∷ groups) = ground (arith, first_of-drop_cancelled groups)

-- LaunchQueue.front gives the first group that iterating over the queue gives, or raises
-- IndexError if there is none, and leaves the groups of the iteration as they are.
pub front-live_groups :
    (self : LaunchQueue)
    → ((front self).0 ≡ first_of (live_groups self.groups))
      × (live_groups (front self).1.groups ≡ live_groups self.groups)
unfolding front
front-live_groups self =
    (first_of-drop_cancelled self.groups, live_groups-drop_cancelled self.groups)

-- A candidate is the first live group of a queue.
abbrev pub IsFront : LaunchQueue → Candidate → Type 0
IsFront queue c =
    (c.queue.priority ≡ queue.priority)
    × (c.queue.role ≡ queue.role)
    × (first_of (live_groups queue.groups) ≡ ok c.group)

-- In the order of the queues, and none is left out.
pub data AreFronts : List LaunchQueue → List Candidate → Type 0 where
  no_more : AreFronts [] []
  idle :
      {queue : LaunchQueue} {queues : List LaunchQueue} {cs : List Candidate}
      → live_groups queue.groups ≡ []
      → AreFronts queues cs
      → AreFronts (queue ∷ queues) cs
  busy :
      {queue : LaunchQueue} {queues : List LaunchQueue} {c : Candidate} {cs : List Candidate}
      → IsFront queue c
      → AreFronts queues cs
      → AreFronts (queue ∷ queues) (c ∷ cs)

drop_cancelled_again :
    (groups : List LaunchGroup) → drop_cancelled (drop_cancelled groups) ≡ drop_cancelled groups
unfolding drop_cancelled
drop_cancelled_again [] = refl
drop_cancelled_again (group ∷ groups) = ground (arith, drop_cancelled_again groups)

List-cases {ℓ} :
    {A : Type ℓ} (xs : List A) → (xs ≡ []) ⊎ ((x : A) × (rest : List A) × (xs ≡ x ∷ rest))
List-cases [] = inl refl
List-cases (x ∷ xs) = inr (x, xs, refl)

no_live_groups : (groups : List LaunchGroup) → drop_cancelled groups ≡ [] → live_groups groups ≡ []
unfolding live_groups drop_cancelled
no_live_groups [] h = refl
no_live_groups (group ∷ groups) h = ground (arith, no_live_groups groups)

with_front_busy :
    (queue : LaunchQueue) (group : LaunchGroup) (groups : List LaunchGroup) (rest : List Candidate)
    → drop_cancelled queue.groups ≡ group ∷ groups
    → with_front queue rest
      ≡ record { queue = clear_cancelled (clear_cancelled queue); group = group } ∷ rest
unfolding front has_groups clear_cancelled
with_front_busy queue group groups rest left =
    let again = drop_cancelled_again queue.groups ∙ left in ground (arith, left, again)

pub candidates-AreFronts : (queues : List LaunchQueue) → AreFronts queues (candidates queues)
unfolding candidates clear_cancelled
candidates-AreFronts [] = no_more
candidates-AreFronts (queue ∷ queues) = elim (List-cases (drop_cancelled queue.groups)) [
  | inl none_left ↦
      let same : candidates (queue ∷ queues) ≡ candidates queues = rw none_left refl in
      subst (AreFronts (queue ∷ queues)) (sym same)
        (idle (no_live_groups queue.groups none_left) (candidates-AreFronts queues))
  | inr (group, groups, left) ↦
      let c : Candidate = record {
        queue = clear_cancelled (clear_cancelled queue);
        group = group;
      } in
      let same : candidates (queue ∷ queues) ≡ c ∷ candidates queues =
        with_front_busy queue group groups (candidates queues) left in
      subst (AreFronts (queue ∷ queues)) (sym same) (
        busy (refl, refl, sym (first_of-drop_cancelled queue.groups) ∙ ap first_of left)
          (candidates-AreFronts queues))
]

-- The choice among the candidates.
lowest_of_le :
    (low : ℕ) (cs : List Candidate)
    → (lowest_of low cs ≤ low) × All (λ c. lowest_of low cs ≤ c.queue.priority) cs
lowest_of_le low [] = (omega arith, tt)
lowest_of_le low (c ∷ cs) =
    let (below, each) = lowest_of_le (min low c.queue.priority) cs in
    (omega (arith, below), (omega (arith, below), each))

-- The lowest number is that of a candidate.
lowest_of_attained :
    (low : ℕ) (cs : List Candidate)
    → (lowest_of low cs ≡ low)
      ⊎ (1 ≤ sum_of (λ c. one_if (c.queue.priority == lowest_of low cs)) cs)
lowest_of_attained low [] = inl refl
lowest_of_attained low (c ∷ cs) = elim (lowest_of_attained (min low c.queue.priority) cs) [
  | inr later ↦ inr (omega (arith, later))
  | inl here ↦ elim (Bool-cases (ltb c.queue.priority low)) [
    | inl less ↦
        let is : lowest_of low (c ∷ cs) ≡ c.queue.priority = here ∙ ground arith in
        inr (rw is (ground arith))
    | inr more ↦ inl (here ∙ ground arith)
  ]
]

lowest_priority_attained :
    (cs : List Candidate)
    → (cs ≡ []) ⊎ (1 ≤ sum_of (λ c. one_if (c.queue.priority == lowest_priority cs)) cs)
unfolding lowest_priority
lowest_priority_attained [] = inl refl
lowest_priority_attained (c ∷ cs) = elim (lowest_of_attained c.queue.priority cs) [
  | inr later ↦ inr (omega (arith, later))
  | inl here ↦ inr (rw here (ground arith))
]

lowest_priority_le : (cs : List Candidate) → All (λ c. lowest_priority cs ≤ c.queue.priority) cs
unfolding lowest_priority
lowest_priority_le [] = tt
lowest_priority_le (c ∷ cs) = let (below, each) = lowest_of_le c.queue.priority cs in (below, each)

-- How often a candidate with some property stands in a list.
abbrev pub count_of : (Candidate → Bool) → List Candidate → ℕ
count_of test = sum_of (λ c. one_if (test c))

count_of-of_priority :
    (test : Candidate → Bool) (low : ℕ) (cs : List Candidate)
    → count_of test (of_priority low cs) ≡ count_of (λ c. test c && c.queue.priority == low) cs
count_of-of_priority test low [] = refl
count_of-of_priority test low (c ∷ cs) = ground (arith, count_of-of_priority test low cs)

count_of-insert :
    (test : Candidate → Bool) (c : Candidate) (cs : List Candidate)
    → count_of test (insert_by_deadline c cs) ≡ one_if (test c) + count_of test cs
unfolding insert_by_deadline
count_of-insert test c [] = refl
count_of-insert test c (d ∷ ds) = ground (arith, count_of-insert test c ds)

count_of-sort :
    (test : Candidate → Bool) (cs : List Candidate)
    → count_of test (sort_by_deadline cs) ≡ count_of test cs
unfolding sort_by_deadline
count_of-sort test [] = refl
count_of-sort test (c ∷ cs) =
    omega (arith, count_of-insert test c (sort_by_deadline cs), count_of-sort test cs)

-- No candidate stands in front of one with an earlier deadline.
abbrev pub IsByDeadline : List Candidate → Type 0
IsByDeadline [] = Unit
IsByDeadline (c ∷ []) = Unit
IsByDeadline (c ∷ d ∷ ds) =
    (earlier d.group.deadline c.group.deadline ≡ false) × IsByDeadline (d ∷ ds)

earlier_asym : (a b : Option ℕ) → earlier a b ≡ true → earlier b a ≡ false
earlier_asym none b h = absurd (cc)
earlier_asym (some a) none h = refl
earlier_asym (some a) (some b) h = ground arith

insert_by_deadline-IsByDeadline :
    (c : Candidate) (cs : List Candidate) → IsByDeadline cs → IsByDeadline (insert_by_deadline c cs)
unfolding insert_by_deadline
insert_by_deadline-IsByDeadline c [] h = tt
insert_by_deadline-IsByDeadline c (d ∷ []) h =
    ground (arith, earlier_asym d.group.deadline c.group.deadline)
insert_by_deadline-IsByDeadline c (d ∷ e ∷ ds) h = ground (
  arith,
  earlier_asym d.group.deadline c.group.deadline,
  insert_by_deadline-IsByDeadline c (e ∷ ds) h.1,
)

sort_by_deadline-IsByDeadline : (cs : List Candidate) → IsByDeadline (sort_by_deadline cs)
unfolding sort_by_deadline
sort_by_deadline-IsByDeadline [] = tt
sort_by_deadline-IsByDeadline (c ∷ cs) =
    insert_by_deadline-IsByDeadline c (sort_by_deadline cs) (sort_by_deadline-IsByDeadline cs)

-- What is chosen: of all candidates, those of the lowest number for the priority, by deadline.
pub record IsChoice (queues : List LaunchQueue) (chosen : List Candidate) : Type 0 where
  pub all : List Candidate
  pub low : ℕ
  pub fronts : AreFronts queues all
  pub lowest : All (λ c. low ≤ c.queue.priority) all
  pub attained : (all ≡ []) ⊎ (1 ≤ count_of (λ c. c.queue.priority == low) all)
  pub same :
      (test : Candidate → Bool)
      → count_of test chosen ≡ count_of (λ c. test c && c.queue.priority == low) all
  pub ordered : IsByDeadline chosen

-- The candidates that _launch_once tries are taken from the first live groups of all queues that
-- have one, in the order of the queues. The lowest number that is the priority of such a queue,
-- which there is unless no queue has a live group, decides: the candidates are those whose queue
-- has it, each as often as it is among the first groups, and none stands in front of one with an
-- earlier deadline.
pub choose-IsChoice : (queues : List LaunchQueue) → IsChoice queues (choose queues)
unfolding choose
choose-IsChoice queues =
    let cs = candidates queues in
    let low = lowest_priority cs in
    record {
      all = cs;
      low = low;
      fronts = candidates-AreFronts queues;
      lowest = lowest_priority_le cs;
      attained = lowest_priority_attained cs;
      same = λ test. count_of-sort test (of_priority low cs) ∙ count_of-of_priority test low cs;
      ordered = sort_by_deadline-IsByDeadline (of_priority low cs);
    }
