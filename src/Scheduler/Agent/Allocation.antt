-- ===== src/Scheduler/Agent/Allocation.antt =====
-- `Agent.allocate`. A step is a function from the agent to its result and the agent that it leaves:
-- what is changed before an exception stays changed.
use katsdpcontroller.Prelude.{
  if◌then◌else◌, length, set, replicate, ℕ, zero, suc, ◌+◌, Bool, true, false, Option, none, some,
  List,
}
use katsdpcontroller.Scheduler.Agent.Checks.{
  take_volumes, element, no_cores, Plan, plan_numa_node, check_global,
}
use katsdpcontroller.Scheduler.ScalarResource.{ScalarResource, request_amount, scalar_allocate}
use katsdpcontroller.Scheduler.RangeResource.{Generator, RangeResource, range_allocate}
use katsdpcontroller.Scheduler.Agent.{LogicalTask, Agent, ResourceAllocation}
use katsdpcontroller.Scheduler.Devices.{
  Volume, is_empty, GpuAllocation, InterfaceAllocation, gpu_kind, interface_kind, take_all,
}
use katsdpcontroller.Errors.{Result, insufficient_resources, ok, err}

abbrev pub Action : Type 0 → Type 0
Action A = Agent → Result A × Agent

infixl 5 ◌>>=◌
abbrev pub ◌>>=◌ : {A B : Type 0} → Action A → (A → Action B) → Action B
◌>>=◌ m f agent =
    let (r, agent') = m agent in elim r [ ok a ↦ f a agent' | err e ↦ (err e, agent') ]

abbrev pub pure : {A : Type 0} → A → Action A
pure a agent = (ok a, agent)

-- One resource is replaced by what `allocate` left of it, unless that raises.
abbrev pub store : {A R : Type 0} → (R → Agent) → Agent → Result (A × R) → Result A × Agent
store put agent (ok (out, rest)) = (ok out, put rest)
store put agent (err e) = (err e, agent)

unfoldable pub take_cpus : LogicalTask → Action ScalarResource
take_cpus task agent =
    store (λ rest. record agent { cpus = rest }) agent
      (scalar_allocate (request_amount task.cpus) agent.cpus)

unfoldable pub take_mem : LogicalTask → Action ScalarResource
take_mem task agent =
    store (λ rest. record agent { mem = rest }) agent
      (scalar_allocate (request_amount task.mem) agent.mem)

unfoldable pub take_disk : LogicalTask → Action ScalarResource
take_disk task agent =
    store (λ rest. record agent { disk = rest }) agent
      (scalar_allocate (request_amount task.disk) agent.disk)

-- Ports are taken at random, by the class's own generator.
unfoldable pub take_ports : Generator → LogicalTask → Action RangeResource
take_ports random task agent =
    store (λ rest. record agent { ports = rest }) agent
      (range_allocate (some random) (length task.ports) agent.ports)

unfoldable pub take_cores : Option ℕ → ℕ → Action RangeResource
take_cores none need agent = store (λ rest. agent) agent (range_allocate none need no_cores)
take_cores (some node) need agent = elim (element agent.numa_cores node) [
  | err e ↦ (err e, agent)
  | ok cores ↦
      store (λ rest. record agent { numa_cores = set agent.numa_cores node rest }) agent
        (range_allocate none need cores)
]

unfoldable pub take_interfaces :
    LogicalTask → List (Option ℕ) → Action (List (Option InterfaceAllocation))
take_interfaces task assign agent =
    let (r, left) =
      take_all interface_kind 0 task.interfaces agent.interfaces assign
        (replicate (length task.interfaces) none) in
    (r, record agent { interfaces = left })

unfoldable pub take_gpus : LogicalTask → List (Option ℕ) → Action (List (Option GpuAllocation))
take_gpus task assign agent =
    let (r, left) =
      take_all gpu_kind 0 task.gpus agent.gpus assign (replicate (length task.gpus) none) in
    (r, record agent { gpus = left })

unfoldable pub find_volumes : Option ℕ → LogicalTask → Action (List Volume)
find_volumes numa_node task agent = (take_volumes numa_node task.volumes agent.volumes, agent)

-- `_allocate_numa_node` from "Create the resources for it" on.
unfoldable pub commit : Generator → Option ℕ → LogicalTask → Plan → Action ResourceAllocation
commit random numa_node task plan = do
  cpus ← take_cpus task
  mem ← take_mem task
  disk ← take_disk task
  ports ← take_ports random task
  cores ← take_cores numa_node plan.need
  interfaces ← take_interfaces task plan.interface_map
  volumes ← find_volumes numa_node task
  gpus ← take_gpus task plan.gpu_map
  pure (record {
    cpus = cpus;
    mem = mem;
    disk = disk;
    ports = ports;
    cores = cores;
    interfaces = interfaces;
    volumes = volumes;
    gpus = gpus;
  })

-- `_allocate_numa_node`
unfoldable pub allocate_numa_node : Generator → Option ℕ → LogicalTask → Action ResourceAllocation
allocate_numa_node random numa_node task agent = elim (plan_numa_node numa_node task agent) [
  | err e ↦ (err e, agent)
  | ok plan ↦ commit random numa_node task plan agent
]

-- `for numa_node in range(len(self.numa))`: the first node on which it succeeds. Only
-- `InsufficientResourcesError` is caught.
unfoldable pub try_nodes : Generator → LogicalTask → ℕ → ℕ → Action ResourceAllocation
try_nodes random task node zero agent = (err insufficient_resources, agent)
try_nodes random task node (suc n) agent =
    let (r, agent') = allocate_numa_node random (some node) task agent in
    elim r [
      | ok alloc ↦ (ok alloc, agent')
      | err insufficient_resources ↦ try_nodes random task (node + 1) n agent'
      | err e ↦ (err e, agent')
    ]

-- `allocate`
unfoldable pub allocate : Generator → LogicalTask → Action ResourceAllocation
allocate random task agent = elim (check_global task agent) [
  | err e ↦ (err e, agent)
  | ok _ ↦
      if is_empty task.cores
      then allocate_numa_node random none task agent
      else try_nodes random task 0 (length agent.numa) agent
]

-- `can_allocate`: the copy is thrown away; an exception of another kind is let through.
unfoldable pub can_allocate : Generator → LogicalTask → Agent → Result Bool
can_allocate random task agent = elim (allocate random task agent).0 [
  | ok _ ↦ ok true
  | err insufficient_resources ↦ ok false
  | err e ↦ err e
]
