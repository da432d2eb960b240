-- ===== src/Scheduler/Launch/Group.antt =====
-- The allocation of a group never raises, keeps the agents' books in step, and what the agents give
-- is what the tasks get.
use katsdpcontroller.Prelude.{
  Option-cases, sum_of-append, refl, ap₂, inl, inr, true, false, ◌++◌, map, length, sum_of, All, ℕ,
  ◌+◌, ◌≤◌, ◌≡◌, Option, none, some, List, [], ◌∷◌, arith,
}
use katsdpcontroller.Scheduler.Agent.Outcome.{IsRefused, allocate-Outcome, grants, refuses}
use katsdpcontroller.Scheduler.Agent.Planning.{IsSound}
use katsdpcontroller.Scheduler.RangeResource.Picking.{IsGenerator}
use katsdpcontroller.Scheduler.RangeResource.RandomItems.{holdings}
use katsdpcontroller.Scheduler.Launch.{
  Node, Found, allocate_nodes, physical_task, other_node, Placed, try_agents,
}
use katsdpcontroller.Scheduler.Decimals.{as_decimal}
use katsdpcontroller.Scheduler.RangeResource.{Generator}
use katsdpcontroller.Scheduler.Agent.{LogicalTask, Agent, ResourceAllocation}
use katsdpcontroller.Errors.{ok}

-- A task has what it asks for of the resources that are amounts, and its ports.
pub record IsServed (placed : Placed) : Type 0 where
  pub cpus : placed.allocation.cpus.available ≡ as_decimal placed.task.cpus
  pub mem : placed.allocation.mem.available ≡ as_decimal placed.task.mem
  pub disk : placed.allocation.disk.available ≡ as_decimal placed.task.disk
  pub ports : placed.allocation.ports.available ≡ length placed.task.ports
  pub cores : length placed.task.cores ≤ placed.allocation.cores.available

-- Sums over the agents and over the allocations.
abbrev pub agents_have : (Agent → ℕ) → List Agent → ℕ
agents_have = sum_of

abbrev pub tasks_have : (ResourceAllocation → ℕ) → List Placed → ℕ
tasks_have μ = sum_of (λ p. μ p.allocation)

-- One kind of resource is shared between what the agents keep and what the tasks get.
abbrev pub IsShared :
    (Agent → ℕ) → (ResourceAllocation → ℕ) → List Agent → List Agent → List Placed → Type 0
IsShared keeps gets before after allocations =
    agents_have keeps after + tasks_have gets allocations ≡ agents_have keeps before

pub record AreBalanced (before after : List Agent) (allocations : List Placed) : Type 0 where
  pub cpus : IsShared (λ a. a.cpus.available) (λ r. r.cpus.available) before after allocations
  pub mem : IsShared (λ a. a.mem.available) (λ r. r.mem.available) before after allocations
  pub disk : IsShared (λ a. a.disk.available) (λ r. r.disk.available) before after allocations
  pub ports :
      (x : ℕ)
      → IsShared (λ a. holdings x a.ports) (λ r. holdings x r.ports) before after allocations

abbrev one_or_none : Option Placed → List Placed
one_or_none none = []
one_or_none (some placed) = placed ∷ []

-- The logical tasks of the nodes.
abbrev pub tasks_of : List Node → List LogicalTask
tasks_of [] = []
tasks_of (other_node ∷ nodes) = tasks_of nodes
tasks_of (physical_task task ∷ nodes) = task ∷ tasks_of nodes

module _ (keeps : Agent → ℕ) (gets : ResourceAllocation → ℕ) where
  share_both :
      (before between after : List Agent) (first later : List Placed)
      → IsShared keeps gets before between first
      → IsShared keeps gets between after later
      → IsShared keeps gets before after (first ++ later)
  share_both before between after first later h k =
      omega (arith, sum_of-append (λ p. gets p.allocation) first later, h, k)

-- Two rounds of allocation, one after the other.
balance_both :
    (before between after : List Agent) (first later : List Placed)
    → AreBalanced before between first
    → AreBalanced between after later
    → AreBalanced before after (first ++ later)
balance_both before between after first later h k = record {
  cpus =
      share_both (λ a. a.cpus.available) (λ r. r.cpus.available) before between after first later
        h.cpus k.cpus;
  mem =
      share_both (λ a. a.mem.available) (λ r. r.mem.available) before between after first later
        h.mem k.mem;
  disk =
      share_both (λ a. a.disk.available) (λ r. r.disk.available) before between after first later
        h.disk k.disk;
  ports = λ x.
      share_both (λ a. holdings x a.ports) (λ r. holdings x r.ports) before between after first
        later (h.ports x) (k.ports x);
}

-- What the loop over the nodes gives.
pub record GroupAllocated (random : Generator) (nodes : List Node) (agents : List Agent)
    : Type 0 where
  pub found : Found
  pub agents' : List Agent
  pub done : allocate_nodes random nodes agents ≡ (ok found, agents')
  pub sound : All IsSound agents'
  pub balanced : AreBalanced agents agents' found.allocations
  pub served : All IsServed found.allocations
  pub complete : found.insufficient ≡ false → map (λ p. p.task) found.allocations ≡ tasks_of nodes

module _ (random : Generator) (law : IsGenerator random) where
  record Tried (task : LogicalTask) (agents : List Agent) : Type 0 where
    placed : Option Placed
    agents' : List Agent
    done : try_agents random task agents ≡ (ok placed, agents')
    sound : All IsSound agents'
    balanced : AreBalanced agents agents' (one_or_none placed)
    served : All IsServed (one_or_none placed)
    refused : placed ≡ none → All (IsRefused task) agents
    same_task : (p : Placed) → placed ≡ some p → p.task ≡ task

  try_agents_total :
      (task : LogicalTask) (agents : List Agent) → All IsSound agents → Tried task agents
  unfolding try_agents
  try_agents_total task [] h = record {
    placed = none;
    agents' = [];
    done = refl;
    sound = tt;
    balanced = record { cpus = refl; mem = refl; disk = refl; ports = λ x. refl };
    served = tt;
    refused = λ e. tt;
    same_task = λ p e. cc;
  }
  try_agents_total task (agent ∷ agents) h = elim (allocate-Outcome random law task agent h.0) [
    | grants at fitting valid g ↦
        let granted = g.granted in
        record {
          placed = some (record { task = task; agent_id = agent.agent_id; allocation = g.alloc });
          agents' = g.agent' ∷ agents;
          done = ground (arith, g.returns);
          sound = (g.sound, h.1);
          balanced = record {
            cpus = omega (arith, granted.cpus_left, granted.cpus_taken);
            mem = omega (arith, granted.mem_left, granted.mem_taken);
            disk = omega (arith, granted.disk_left, granted.disk_taken);
            ports = λ x. omega (arith, granted.ports_shared x);
          };
          served = (
            record {
              cpus = granted.cpus_taken;
              mem = granted.mem_taken;
              disk = granted.disk_taken;
              ports = granted.ports_taken;
              cores = granted.cores_enough;
            },
            tt,
          );
          refused = λ e. cc;
          same_task = λ p e. cc;
        }
    | refuses returns why ↦
        let t = try_agents_total task agents h.1 in
        record {
          placed = t.placed;
          agents' = agent ∷ t.agents';
          done = ground (arith, returns, t.done);
          sound = (h.0, t.sound);
          balanced = record {
            cpus = omega (arith, t.balanced.cpus);
            mem = omega (arith, t.balanced.mem);
            disk = omega (arith, t.balanced.disk);
            ports = λ x. omega (arith, t.balanced.ports x);
          };
          served = t.served;
          refused = λ e. (why, t.refused e);
          same_task = t.same_task;
        }
  ]

  -- For agents whose books are in step and a random generator whose choices picks a positive
  -- weight and whose randint stays in its bounds, the loop of _launch_once that allocates the
  -- nodes of a group raises nothing: the agents' books are in step afterwards; of CPUs, memory,
  -- disk and each port, what the agents keep and what the tasks got add up to what the agents
  -- had; each task that was placed has the amounts and the number of ports that it asks for and
  -- at least as many cores; and unless the resources were insufficient, all tasks of the group
  -- have been placed, in order.
  pub allocate_nodes-GroupAllocated :
      (nodes : List Node) (agents : List Agent)
      → All IsSound agents
      → GroupAllocated random nodes agents
  unfolding allocate_nodes
  allocate_nodes-GroupAllocated [] agents h = record {
    found = record { allocations = []; insufficient = false };
    agents' = agents;
    done = refl;
    sound = h;
    balanced = record {
      cpus = omega arith;
      mem = omega arith;
      disk = omega arith;
      ports = λ x. omega arith;
    };
    served = tt;
    complete = λ e. refl;
  }
  allocate_nodes-GroupAllocated (other_node ∷ nodes) agents h =
      let g = allocate_nodes-GroupAllocated nodes agents h in
      record {
        found = g.found;
        agents' = g.agents';
        done = g.done;
        sound = g.sound;
        balanced = g.balanced;
        served = g.served;
        complete = g.complete;
      }
  allocate_nodes-GroupAllocated (physical_task task ∷ nodes) agents h =
      let t = try_agents_total task agents h in
      let g = allocate_nodes-GroupAllocated nodes t.agents' t.sound in
      elim (Option-cases t.placed) [
        | inl nowhere_fits ↦
            let b = rw nowhere_fits at t.balanced in
            record {
              found = record g.found { insufficient = true };
              agents' = g.agents';
              done = ground (arith, t.done, nowhere_fits, g.done);
              sound = g.sound;
              balanced =
                  balance_both agents t.agents' g.agents' [] g.found.allocations b g.balanced;
              served = g.served;
              complete = λ e. absurd (cc);
            }
        | inr (placed, is) ↦
            let b = rw is at t.balanced in
            let s = rw is at t.served in
            record {
              found = record g.found { allocations = placed ∷ g.found.allocations };
              agents' = g.agents';
              done = ground (arith, t.done, is, g.done);
              sound = g.sound;
              balanced =
                  balance_both agents t.agents' g.agents' (placed ∷ []) g.found.allocations b
                    g.balanced;
              served = (s.0, g.served);
              complete = λ e. ap₂ (λ x l. x ∷ l) (t.same_task placed is) (g.complete e);
            }
      ]
