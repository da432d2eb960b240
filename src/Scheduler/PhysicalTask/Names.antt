-- ===== src/Scheduler/PhysicalTask/Names.antt =====
-- Each name stands for the item at its last place.
use katsdpcontroller.Prelude.{
  Bool-cases, some_inj, length, get_elem?, All, get_elem?_below, ◌==◌, Dict, same_refl, same_eq,
  lookup, insert, lookup-insert, ℕ, zero, suc, ◌<◌, String, ◌≡◌, refl, sym, ap, ◌∙◌, ◌≢◌, inl, inr,
  Option, none, some, List, [], ◌∷◌, arith, nat_eq, string_eq,
}
use katsdpcontroller.Scheduler.RangeResource.Iteration.{length-iter}
use katsdpcontroller.Scheduler.Resource.{IsInSync}
use katsdpcontroller.Scheduler.RangeResource.{range_hooks, iter}
use katsdpcontroller.Scheduler.PhysicalTask.{name_interfaces, name_items, Named, allocate}
use katsdpcontroller.Scheduler.Agent.{LogicalTask, ResourceAllocation}
use katsdpcontroller.Scheduler.Devices.{AgentInterface}
use katsdpcontroller.Errors.{ok-injective, >>=-eq-ok, ok}

-- The name is not at any place of the list.
abbrev pub IsUnused : String → List (Option String) → Type 0
IsUnused name = All (λ other. other ≢ some name)

name_items-unused :
    (name : String) (names : List (Option String)) (items : List ℕ) (d : Dict ℕ)
    → IsUnused name names
    → lookup name (name_items names items d) ≡ lookup name d
unfolding name_items
name_items-unused name [] items d h = refl
name_items-unused name (n ∷ names) [] d h = refl
name_items-unused name (none ∷ names) (item ∷ items) d h = name_items-unused name names items d h.1
name_items-unused name (some n ∷ names) (item ∷ items) d h =
    name_items-unused name names items (insert n item d) h.1 ∙ elim (Bool-cases (name == n)) [
      | inl same ↦ absurd (h.0 (ap (λ x. some x) (sym (same_eq name n same))))
      | inr apart_names ↦ lookup-insert name n item d ∙ rw apart_names refl
    ]

-- A list of names in which this one stands last at place `k`.
abbrev pub IsLastAt : String → ℕ → List (Option String) → Type 0
IsLastAt name k [] = ⊥
IsLastAt name zero (n ∷ names) = (n ≡ some name) × IsUnused name names
IsLastAt name (suc k) (n ∷ names) = IsLastAt name k names

pub name_items-IsLastAt :
    (name : String) (k item : ℕ) (names : List (Option String)) (items : List ℕ) (d : Dict ℕ)
    → IsLastAt name k names
    → get_elem? items k ≡ some item
    → lookup name (name_items names items d) ≡ some item
unfolding name_items
name_items-IsLastAt name k item [] items d h at = absurd h
name_items-IsLastAt name k item (n ∷ names) [] d h at = absurd (cc)
name_items-IsLastAt name zero item (none ∷ names) (x ∷ items) d h at = absurd (cc)
name_items-IsLastAt name zero item (some n ∷ names) (x ∷ items) d h at =
    let same : n ≡ name = some_inj h.0 in
    let is : x ≡ item = some_inj at in
    name_items-unused name names items (insert n x d) h.1
    ∙ lookup-insert name n x d
    ∙ rw (same, same_refl name, is) refl
name_items-IsLastAt name (suc k) item (none ∷ names) (x ∷ items) d h at =
    name_items-IsLastAt name k item names items d h at
name_items-IsLastAt name (suc k) item (some n ∷ names) (x ∷ items) d h at =
    name_items-IsLastAt name k item names items (insert n x d) h at

IsLastAt-lt :
    (name : String) (k : ℕ) (names : List (Option String))
    → IsLastAt name k names
    → k < length names
IsLastAt-lt name k [] h = absurd h
IsLastAt-lt name zero (n ∷ names) h = omega arith
IsLastAt-lt name (suc k) (n ∷ names) h = omega (arith, IsLastAt-lt name k names h)

-- If PhysicalTask.allocate returns for an allocation whose ports have their books in step and are
-- as many as the task asks for, then a port name whose last place in the task's list is k stands
-- for the k-th port of the allocation, which exists.
pub allocate_ports :
    (task : LogicalTask) (on_agent : List AgentInterface) (allocation : ResourceAllocation)
    (named : Named) (name : String) (k : ℕ)
    → allocate task on_agent allocation ≡ ok named
    → IsInSync range_hooks allocation.ports
    → allocation.ports.available ≡ length task.ports
    → IsLastAt name k task.ports
    → (port : ℕ) × (get_elem? (iter allocation.ports) k ≡ some port)
      × (lookup name named.ports ≡ some port)
unfolding allocate
allocate_ports task on_agent allocation named name k e sync as_many last =
    let (interfaces, found, e1) =
      >>=-eq-ok (name_interfaces on_agent task.interfaces allocation.interfaces []) _ e in
    let ports_are : named.ports ≡ name_items task.ports (iter allocation.ports) [] =
      sym (ap (λ n. n.ports) (ok-injective e1)) in
    let inside = IsLastAt-lt name k task.ports last in
    let (port, at) =
      get_elem?_below (iter allocation.ports) k
        (omega (arith, length-iter allocation.ports sync)) in
    (
      port,
      at,
      ap (lookup name) ports_are
          ∙ name_items-IsLastAt name k port task.ports (iter allocation.ports) [] last at,
    )
