-- ===== src/Scheduler/Launch.antt =====
-- How `SchedulerBase._launch_once` in scheduler.py allocates a group: every task of the group is
-- tried on every agent, in order. A node that is not a `PhysicalTask` needs no resources.
pub mod Group
use katsdpcontroller.Prelude.{String, Bool, true, false, Option, none, some, List, [], ◌∷◌}
use katsdpcontroller.Scheduler.Agent.Allocation.{allocate}
use katsdpcontroller.Scheduler.RangeResource.{Generator}
use katsdpcontroller.Scheduler.Agent.{LogicalTask, Agent, ResourceAllocation}
use katsdpcontroller.Errors.{Result, insufficient_resources, ok, err}

pub data Node : Type 0 where
  -- a `PhysicalTask`, by its logical task
  physical_task : LogicalTask → Node
  other_node : Node

pub record Placed : Type 0 where
  pub task : LogicalTask
  pub agent_id : String
  pub allocation : ResourceAllocation

-- `for agent in agents`: the first agent that grants the task. Only `InsufficientResourcesError` is
-- caught.
unfoldable pub try_agents :
    Generator → LogicalTask → List Agent → Result (Option Placed) × List Agent
try_agents random task [] = (ok none, [])
try_agents random task (agent ∷ agents) =
    let (r, agent') = allocate random task agent in
    elim r [
      | ok allocation ↦ (
        ok (some (record { task = task; agent_id = agent.agent_id; allocation = allocation })),
        agent' ∷ agents,
      )
      | err insufficient_resources ↦
          let (r', agents') = try_agents random task agents in (r', agent' ∷ agents')
      | err e ↦ (err e, agent' ∷ agents)
    ]

-- What the loop over the nodes finds: `allocations`, and `insufficient`.
pub record Found : Type 0 where
  pub allocations : List Placed
  pub insufficient : Bool

-- `for node in nodes`
unfoldable pub allocate_nodes : Generator → List Node → List Agent → Result Found × List Agent
allocate_nodes random [] agents = (ok (record { allocations = []; insufficient = false }), agents)
allocate_nodes random (other_node ∷ nodes) agents = allocate_nodes random nodes agents
allocate_nodes random (physical_task task ∷ nodes) agents =
    let (r, agents') = try_agents random task agents in
    elim r [
      | err e ↦ (err e, agents')
      | ok none ↦
          let (r', agents'') = allocate_nodes random nodes agents' in
          (
            elim r' [ err e ↦ err e | ok found ↦ ok (record found { insufficient = true }) ],
            agents'',
          )
      | ok (some placed) ↦
          let (r', agents'') = allocate_nodes random nodes agents' in
          (
            elim r' [
              | err e ↦ err e
              | ok found ↦ ok (record found { allocations = placed ∷ found.allocations })
            ],
            agents'',
          )
    ]

-- `useful_agents.add`
unfoldable pub useful_agents : String → List Placed → List (String × String)
useful_agents role [] = []
useful_agents role (placed ∷ allocations) = (role, placed.agent_id) ∷ useful_agents role allocations
