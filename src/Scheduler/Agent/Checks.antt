-- ===== src/Scheduler/Agent/Checks.antt =====
-- The checks of `Agent.allocate` and `Agent._allocate_numa_node`, which change nothing.
use katsdpcontroller.Prelude.{
  member, leb, if◌then◌else◌, length, ℕ, zero, suc, max, String, Bool, true, false, ◌&&◌, ◌||◌,
  Option, none, some, List, [], ◌∷◌,
}
use katsdpcontroller.Scheduler.Resource.{empty}
use katsdpcontroller.Scheduler.Decimals.{as_decimal}
use katsdpcontroller.Scheduler.RangeResource.{total, RangeResource}
use katsdpcontroller.Scheduler.Agent.{LogicalTask, Agent}
use katsdpcontroller.Scheduler.Devices.{
  VolumeRequest, Volume, name_ok, volume_matches, gpu_kind, interface_kind, match_children,
}
use katsdpcontroller.Errors.{
  ◌>>=◌, Result, index_error, stop_iteration, insufficient_resources, ok, err,
}

abbrev pub wants_subsystem : Option String → Option (List String) → Bool
wants_subsystem none offered = true
wants_subsystem (some wanted) none = true
wants_subsystem (some wanted) (some offered) = member wanted offered

-- `LogicalTask.valid_agent`
unfoldable pub valid_agent : LogicalTask → Agent → Bool
valid_agent task agent =
    wants_subsystem task.subsystem agent.subsystems && name_ok task.host agent.host

-- `any(request.matches(volume, numa_node) for volume in self.volumes)`
unfoldable pub any_volume : VolumeRequest → Option ℕ → List Volume → Bool
any_volume request numa_node [] = false
any_volume request numa_node (volume ∷ volumes) =
    volume_matches request volume numa_node || any_volume request numa_node volumes

-- The check of the volumes. Its two exceptions are both `InsufficientResourcesError`.
unfoldable pub check_volumes : Option ℕ → List VolumeRequest → List Volume → Result (Unit {0})
check_volumes numa_node [] volumes = ok tt
check_volumes numa_node (request ∷ requests) volumes =
    let rest = check_volumes numa_node requests volumes in
    if any_volume request numa_node volumes then rest else err insufficient_resources

-- `next(volume for volume in self.volumes if request.matches(volume, numa_node))`
unfoldable pub next_volume : VolumeRequest → Option ℕ → List Volume → Result Volume
next_volume request numa_node [] = err stop_iteration
next_volume request numa_node (volume ∷ volumes) =
    let rest = next_volume request numa_node volumes in
    if volume_matches request volume numa_node then ok volume else rest

unfoldable pub take_volumes : Option ℕ → List VolumeRequest → List Volume → Result (List Volume)
take_volumes numa_node [] volumes = ok []
take_volumes numa_node (request ∷ requests) volumes = do
  volume ← next_volume request numa_node volumes
  rest ← take_volumes numa_node requests volumes
  ok (volume ∷ rest)

abbrev pub element {ℓ} : {A : Type ℓ} → List A → ℕ → Result A
element [] i = err index_error
element (x ∷ xs) zero = ok x
element (x ∷ xs) (suc i) = element xs i

-- `RangeResource("cores")`
abbrev pub no_cores : RangeResource
no_cores = empty "cores"

-- The cores of a NUMA node and `total_cores`.
unfoldable pub cores_of : Option ℕ → Agent → Result (RangeResource × ℕ)
cores_of none agent = ok (no_cores, 0)
cores_of (some node) agent = do
  cores ← element agent.numa_cores node
  group ← element agent.numa node
  ok (cores, length group)

abbrev pub cores_needed : LogicalTask → ℕ → ℕ
cores_needed task total = max (length task.cores) (task.numa_share total)

-- What the checks of `_allocate_numa_node` find out.
pub record Plan : Type 0 where
  pub need : ℕ
  pub interface_map : List (Option ℕ)
  pub gpu_map : List (Option ℕ)

abbrev pub check : Bool → Result (Unit {0})
check true = ok tt
check false = err insufficient_resources

-- `_allocate_numa_node` down to "Have now verified that the task fits".
unfoldable pub plan_numa_node : Option ℕ → LogicalTask → Agent → Result Plan
plan_numa_node numa_node task agent = do
  (cores, total_cores) ← cores_of numa_node agent
  _ ← check (leb (cores_needed task total_cores) cores.available)
  interface_map ← match_children interface_kind numa_node task.interfaces agent.interfaces
  _ ← check_volumes numa_node task.volumes agent.volumes
  gpu_map ← match_children gpu_kind numa_node task.gpus agent.gpus
  ok (record {
    need = cores_needed task total_cores;
    interface_map = interface_map;
    gpu_map = gpu_map;
  })

-- The checks at the start of `allocate`: the agent, and each resource but the cores.
unfoldable pub check_global : LogicalTask → Agent → Result (Unit {0})
check_global task agent = do
  _ ← check (valid_agent task agent)
  _ ← check (leb (as_decimal task.cpus) agent.cpus.available)
  _ ← check (leb (as_decimal task.mem) agent.mem.available)
  _ ← check (leb (as_decimal task.disk) agent.disk.available)
  check (leb (length task.ports) agent.ports.available)
