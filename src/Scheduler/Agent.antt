-- ===== src/Scheduler/Agent.antt =====
-- `Agent` of scheduler.py: the free resources of one agent, and `allocate`. A method is a function
-- from the agent to its result and the agent that it leaves, also where it raises.
pub mod Checks
pub mod Allocation
pub mod Planning
pub mod Steps
pub mod Commit
pub mod Outcome
use katsdpcontroller.Scheduler.Decimals.{Real}
use katsdpcontroller.Scheduler.ScalarResource.{ScalarResource}
use katsdpcontroller.Scheduler.RangeResource.{RangeResource}
use katsdpcontroller.Scheduler.Devices.{
  GpuRequest, AgentGpu, InterfaceRequest, AgentInterface, VolumeRequest, Volume, GpuAllocation,
  InterfaceAllocation,
}
use katsdpcontroller.Prelude.{String, Option, List, ℕ}

-- `LogicalTask`: what a task asks for. `host` and `subsystem` are for `valid_agent`; `numa_share n`
-- is what `math.ceil(self.numa_nodes * n)` gives.
pub record LogicalTask : Type 0 where
  pub cpus : Real
  pub mem : Real
  pub disk : Real
  pub ports : List (Option String)
  pub cores : List (Option String)
  pub numa_share : ℕ → ℕ
  pub interfaces : List InterfaceRequest
  pub volumes : List VolumeRequest
  pub gpus : List GpuRequest
  pub host : Option String
  pub subsystem : Option String

-- `subsystems` is `none` for `_Everything`. `cores` is split by NUMA node, as the constructor does.
pub record Agent : Type 0 where
  pub agent_id : String
  pub host : String
  pub subsystems : Option (List String)
  pub cpus : ScalarResource
  pub mem : ScalarResource
  pub disk : ScalarResource
  pub ports : RangeResource
  pub numa : List (List ℕ)
  pub numa_cores : List RangeResource
  pub interfaces : List AgentInterface
  pub volumes : List Volume
  pub gpus : List AgentGpu

pub record ResourceAllocation : Type 0 where
  pub cpus : ScalarResource
  pub mem : ScalarResource
  pub disk : ScalarResource
  pub ports : RangeResource
  pub cores : RangeResource
  pub interfaces : List (Option InterfaceAllocation)
  pub volumes : List Volume
  pub gpus : List (Option GpuAllocation)
