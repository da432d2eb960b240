-- ===== src/Scheduler/Agent/Commit.antt =====
-- `_allocate_numa_node`: once the checks have passed it returns, and the books balance.
use katsdpcontroller.Scheduler.Resource.{IsInSync}
use katsdpcontroller.Prelude.{
  All, ◌∙◌, List, length, get_elem?, replicate, ℕ, zero, suc, ◌+◌, ◌≤◌, ◌<◌, ◌≡◌, refl, sym, ap,
  subst, ◌≢◌, Option, none, some, ◌++◌, arith,
}
use katsdpcontroller.Scheduler.Agent.Allocation.{
  store, take_cores, take_cpus, take_mem, take_disk, take_ports, take_interfaces, take_gpus,
  find_volumes, commit,
}
use katsdpcontroller.Scheduler.Agent.Steps.{
  take_volumes_total, AreMounted, TookCores, take_cores_node, take_cores_none,
}
use katsdpcontroller.Scheduler.Agent.Planning.{IsSound, Planned}
use katsdpcontroller.Scheduler.Agent.Checks.{element, cores_of, Plan}
use katsdpcontroller.Scheduler.Devices.Slots.{take_all_total, Served}
use katsdpcontroller.Scheduler.Devices.Taking.{
  gpu_kind-IsLawfulKind, interface_kind-IsLawfulKind, scalar_allocate-TakesScalar,
}
use katsdpcontroller.Scheduler.RangeResource.Picking.{IsGenerator}
use katsdpcontroller.Scheduler.RangeResource.RandomItems.{holdings, range_allocate-SharesOut}
use katsdpcontroller.Scheduler.Decimals.{as_decimal}
use katsdpcontroller.Scheduler.RangeResource.{range_hooks, Generator, RangeResource, iter}
use katsdpcontroller.Scheduler.Agent.{LogicalTask, Agent, ResourceAllocation}
use katsdpcontroller.Scheduler.Devices.{
  GpuAllocation, InterfaceAllocation, gpu_kind, interface_kind,
}
use katsdpcontroller.Errors.{>>=-eq-ok, ok-injective, ok}

-- What a finished allocation has done to the agent.
pub record IsGranted (numa_node : Option ℕ) (task : LogicalTask) (agent : Agent)
    (alloc : ResourceAllocation) (agent' : Agent) : Type 0 where
  pub cpus_taken : alloc.cpus.available ≡ as_decimal task.cpus
  pub cpus_left : agent'.cpus.available + as_decimal task.cpus ≡ agent.cpus.available
  pub mem_taken : alloc.mem.available ≡ as_decimal task.mem
  pub mem_left : agent'.mem.available + as_decimal task.mem ≡ agent.mem.available
  pub disk_taken : alloc.disk.available ≡ as_decimal task.disk
  pub disk_left : agent'.disk.available + as_decimal task.disk ≡ agent.disk.available
  pub ports_taken : alloc.ports.available ≡ length task.ports
  pub ports_shared :
      (x : ℕ) → holdings x alloc.ports + holdings x agent'.ports ≡ holdings x agent.ports
  pub cores_enough : length task.cores ≤ alloc.cores.available
  pub cores_in_order :
      (node : ℕ)
      → numa_node ≡ some node
      → (before : RangeResource) × (after : RangeResource) × (get_elem? agent.numa_cores node
          ≡ some before)
        × (get_elem? agent'.numa_cores node ≡ some after)
        × (iter alloc.cores ++ iter after ≡ iter before)
  pub other_nodes :
      (node : ℕ)
      → numa_node ≢ some node
      → get_elem? agent'.numa_cores node ≡ get_elem? agent.numa_cores node
  pub interfaces_served :
      (k : ℕ)
      → k < length task.interfaces
      → Served interface_kind numa_node task.interfaces 0 k agent.interfaces alloc.interfaces
  pub gpus_served :
      (k : ℕ) → k < length task.gpus → Served gpu_kind numa_node task.gpus 0 k agent.gpus alloc.gpus
  pub volumes_mounted : AreMounted numa_node task.volumes alloc.volumes

pub record Committed (random : Generator) (numa_node : Option ℕ) (task : LogicalTask) (plan : Plan)
    (agent : Agent) : Type 0 where
  pub alloc : ResourceAllocation
  pub agent' : Agent
  pub done : commit random numa_node task plan agent ≡ (ok alloc, agent')
  pub sound : IsSound agent'
  pub granted : IsGranted numa_node task agent alloc agent'

-- What `allocate` has checked before.
pub record HasGlobal (task : LogicalTask) (agent : Agent) : Type 0 where
  pub cpus : as_decimal task.cpus ≤ agent.cpus.available
  pub mem : as_decimal task.mem ≤ agent.mem.available
  pub disk : as_decimal task.disk ≤ agent.disk.available
  pub ports : length task.ports ≤ agent.ports.available

-- The steps before have not touched the cores.
took_cores :
    (numa_node : Option ℕ) (task : LogicalTask) (agent : Agent) (plan : Plan) (now : Agent)
    → IsSound agent
    → Planned numa_node task agent plan
    → now.numa_cores ≡ agent.numa_cores
    → TookCores numa_node plan.need now
unfolding cores_of
took_cores none task agent plan now sound p same_cores =
    let same = ok-injective p.at_node in
    let none_there = ap (λ (c : RangeResource × ℕ). c.0.available) same in
    let zero_need : plan.need ≡ 0 = let f = p.fits in omega arith in
    subst (λ n. TookCores none n now) (sym zero_need)
      (take_cores_none now (subst (All (IsInSync range_hooks)) (sym same_cores) sound.numa_cores))
took_cores (some node) task agent plan now sound p same_cores =
    let (cores, at, e) = >>=-eq-ok (element agent.numa_cores node) _ p.at_node in
    let (group, at_group, e') = >>=-eq-ok (element agent.numa node) _ e in
    let same = ap (λ (c : RangeResource × ℕ). c.0.available) (ok-injective e') in
    take_cores_node node plan.need now cores
      (subst (All (IsInSync range_hooks)) (sym same_cores) sound.numa_cores)
      (ap (λ (l : List RangeResource). element l node) same_cores ∙ at)
      (let f = p.fits in omega arith)

length-replicate {ℓ} : {A : Type ℓ} (n : ℕ) (a : A) → length (replicate n a) ≡ n
length-replicate zero a = refl
length-replicate (suc n) a = ap suc (length-replicate n a)

-- The steps in a row.
commit_row :
    (random : Generator) (numa_node : Option ℕ) (task : LogicalTask) (plan : Plan)
    (a0 a1 a2 a3 a4 a5 a6 a7 : Agent) (alloc : ResourceAllocation)
    → take_cpus task a0 ≡ (ok alloc.cpus, a1)
    → take_mem task a1 ≡ (ok alloc.mem, a2)
    → take_disk task a2 ≡ (ok alloc.disk, a3)
    → take_ports random task a3 ≡ (ok alloc.ports, a4)
    → take_cores numa_node plan.need a4 ≡ (ok alloc.cores, a5)
    → take_interfaces task plan.interface_map a5 ≡ (ok alloc.interfaces, a6)
    → find_volumes numa_node task a6 ≡ (ok alloc.volumes, a6)
    → take_gpus task plan.gpu_map a6 ≡ (ok alloc.gpus, a7)
    → commit random numa_node task plan a0 ≡ (ok alloc, a7)
unfolding commit
commit_row random numa_node task plan a0 a1 a2 a3 a4 a5 a6 a7 alloc e1 e2 e3 e4 e5 e6 e7 e8 =
    ground arith

module _ (random : Generator) (law : IsGenerator random) (numa_node : Option ℕ) (task : LogicalTask)
    (agent : Agent) (plan : Plan) (sound : IsSound agent) (has : HasGlobal task agent)
    (p : Planned numa_node task agent plan) where
  pub commit_total : Committed random numa_node task plan agent
  unfolding take_cpus take_mem take_disk take_ports take_interfaces take_gpus find_volumes
  commit_total =
      let c = scalar_allocate-TakesScalar task.cpus agent.cpus sound.cpus has.cpus in
      let m = scalar_allocate-TakesScalar task.mem agent.mem sound.mem has.mem in
      let d = scalar_allocate-TakesScalar task.disk agent.disk sound.disk has.disk in
      let q =
        range_allocate-SharesOut random (length task.ports) agent.ports law sound.ports has.ports in
      let a1 : Agent = record agent { cpus = c.rest } in
      let a2 : Agent = record a1 { mem = m.rest } in
      let a3 : Agent = record a2 { disk = d.rest } in
      let a4 : Agent = record a3 { ports = q.rest } in
      let k = took_cores numa_node task agent plan a4 sound p refl in
      let no_interfaces : List (Option InterfaceAllocation) =
        replicate (length task.interfaces) none in
      let length-no_interfaces : length no_interfaces ≡ length task.interfaces =
        length-replicate (length task.interfaces) none in
      let i =
        take_all_total interface_kind numa_node task.interfaces interface_kind-IsLawfulKind 0
          agent.interfaces plan.interface_map no_interfaces sound.interfaces
          p.interfaces_match.justified in
      let (volumes, found, mounted) =
        take_volumes_total numa_node task.volumes agent.volumes p.volumes_found in
      let no_gpus : List (Option GpuAllocation) = replicate (length task.gpus) none in
      let length-no_gpus : length no_gpus ≡ length task.gpus =
        length-replicate (length task.gpus) none in
      let g =
        take_all_total gpu_kind numa_node task.gpus gpu_kind-IsLawfulKind 0 agent.gpus plan.gpu_map
          no_gpus sound.gpus p.gpus_match.justified in
      let a5 : Agent = record a4 { numa_cores = k.left } in
      let a6 : Agent = record a5 { interfaces = i.items' } in
      let a7 : Agent = record a6 { gpus = g.items' } in
      let alloc : ResourceAllocation = record {
        cpus = c.out;
        mem = m.out;
        disk = d.out;
        ports = q.out;
        cores = k.out;
        interfaces = i.slots';
        volumes = volumes;
        gpus = g.slots';
      } in
      record {
        alloc = alloc;
        agent' = a7;
        done =
            commit_row random numa_node task plan agent a1 a2 a3 a4 a5 a6 a7 alloc
              (ap (store (λ rest. record agent { cpus = rest }) agent) c.done)
              (ap (store (λ rest. record a1 { mem = rest }) a1) m.done)
              (ap (store (λ rest. record a2 { disk = rest }) a2) d.done)
              (ap (store (λ rest. record a3 { ports = rest }) a3) q.done) k.done (rw i.done)
              (rw found) (rw g.done);
        sound = record {
          cpus = c.rest_in_sync;
          mem = m.rest_in_sync;
          disk = d.rest_in_sync;
          ports = q.rest_in_sync;
          numa_cores = k.in_sync;
          nodes = k.as_many ∙ sound.nodes;
          interfaces = i.in_sync;
          gpus = g.in_sync;
        };
        granted = record {
          cpus_taken = c.out_has;
          cpus_left = c.rest_has;
          mem_taken = m.out_has;
          mem_left = m.rest_has;
          disk_taken = d.out_has;
          disk_left = d.rest_has;
          ports_taken = q.out_has;
          ports_shared = q.shared;
          cores_enough = omega (arith, k.out_has, p.need_is);
          cores_in_order = k.in_order;
          other_nodes = k.others;
          interfaces_served = λ n low.
              i.served n (let t = p.interfaces_match.one_each.0 n low in omega arith)
                (omega (arith, length-no_interfaces));
          gpus_served = λ n low.
              g.served n (let t = p.gpus_match.one_each.0 n low in omega arith)
                (omega (arith, length-no_gpus));
          volumes_mounted = mounted;
        };
      }
