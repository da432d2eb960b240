-- ===== src/Scheduler/Agent/Planning.antt =====
-- What the checks of `_allocate_numa_node` establish, and how they can fail.
use katsdpcontroller.Prelude.{
  leb→le, inl, inr, leb, length, All, ℕ, zero, suc, ◌≤◌, ◌<◌, ◌≡◌, refl, subst, Bool, true, Option,
  none, some, List, [], ◌∷◌, arith,
}
use katsdpcontroller.Scheduler.Agent.Checks.{
  no_cores, check_volumes, element, cores_of, cores_needed, Plan, check, plan_numa_node,
}
use katsdpcontroller.Scheduler.Devices.Taking.{IsScalarInSync, AreInSync}
use katsdpcontroller.Scheduler.Devices.Matching.{
  match_children-IsMatching, match_children-IsStuck, IsMatching,
}
use katsdpcontroller.Scheduler.Resource.{IsInSync}
use katsdpcontroller.Scheduler.RangeResource.{total, range_hooks, RangeResource}
use katsdpcontroller.Scheduler.Agent.{LogicalTask, Agent}
use katsdpcontroller.Scheduler.Devices.{
  VolumeRequest, Volume, AgentGpu, AgentInterface, gpu_kind, interface_kind, match_children,
}
use katsdpcontroller.Errors.{
  >>=-eq-err, Error, >>=-eq-ok, ok-injective, insufficient_resources, ok, err,
}

-- Every resource of the agent has its books in step, and each NUMA node has its cores.
pub record IsSound (agent : Agent) : Type 0 where
  pub cpus : IsScalarInSync agent.cpus
  pub mem : IsScalarInSync agent.mem
  pub disk : IsScalarInSync agent.disk
  pub ports : IsInSync range_hooks agent.ports
  pub numa_cores : All (IsInSync range_hooks) agent.numa_cores
  pub nodes : length agent.numa_cores ≡ length agent.numa
  pub interfaces : All (λ (i : AgentInterface). AreInSync i.resources) agent.interfaces
  pub gpus : All (λ (g : AgentGpu). AreInSync g.resources) agent.gpus

abbrev pub IsNode : Option ℕ → Agent → Type 0
IsNode none agent = Unit
IsNode (some node) agent = node < length agent.numa

pub element_total {ℓ} :
    {A : Type ℓ} (xs : List A) (i : ℕ) → i < length xs → (x : A) × (element xs i ≡ ok x)
element_total [] i h = absurd (omega arith)
element_total (x ∷ xs) zero h = (x, refl)
element_total (x ∷ xs) (suc i) h = element_total xs i (omega arith)

pub All-element {ℓ κ} :
    {A : Type ℓ} (P : A → Type κ) (xs : List A) (i : ℕ) (x : A)
    → All P xs
    → element xs i ≡ ok x
    → P x
All-element P [] i x all e = absurd (cc)
All-element P (y ∷ xs) zero x all e = subst P (ok-injective e) all.0
All-element P (y ∷ xs) (suc i) x all e = All-element P xs i x all.1 e

-- The outcome of the checks.
pub record Planned (numa_node : Option ℕ) (task : LogicalTask) (agent : Agent) (plan : Plan)
    : Type 0 where
  pub cores : RangeResource
  pub total_cores : ℕ
  pub at_node : cores_of numa_node agent ≡ ok (cores, total_cores)
  pub need_is : plan.need ≡ cores_needed task total_cores
  pub fits : plan.need ≤ cores.available
  pub interfaces_match :
      IsMatching interface_kind numa_node task.interfaces agent.interfaces plan.interface_map
  pub volumes_found : check_volumes numa_node task.volumes agent.volumes ≡ ok tt
  pub gpus_match : IsMatching gpu_kind numa_node task.gpus agent.gpus plan.gpu_map

check_ok : (b : Bool) (u : Unit {0}) → check b ≡ ok u → b ≡ true
check_ok b u e = ground arith

check_error : (b : Bool) (e : Error) → check b ≡ err e → e ≡ insufficient_resources
check_error b e h = ground arith

pub plan-Planned :
    (numa_node : Option ℕ) (task : LogicalTask) (agent : Agent) (plan : Plan)
    → plan_numa_node numa_node task agent ≡ ok plan
    → Planned numa_node task agent plan
unfolding plan_numa_node
plan-Planned numa_node task agent plan e =
    let ((cores, total_cores), at_node, e1) = >>=-eq-ok (cores_of numa_node agent) _ e in
    let (u, fits, e2) =
      >>=-eq-ok (check (leb (cores_needed task total_cores) cores.available)) _ e1 in
    let (interface_map, interfaces, e3) =
      >>=-eq-ok (match_children interface_kind numa_node task.interfaces agent.interfaces) _ e2 in
    let (v, volumes, e4) = >>=-eq-ok (check_volumes numa_node task.volumes agent.volumes) _ e3 in
    let (gpu_map, gpus, e5) =
      >>=-eq-ok (match_children gpu_kind numa_node task.gpus agent.gpus) _ e4 in
    subst (Planned numa_node task agent) (ok-injective e5) (record {
      cores = cores;
      total_cores = total_cores;
      at_node = at_node;
      need_is = refl;
      fits = leb→le _ _ (check_ok (leb (cores_needed task total_cores) cores.available) u fits);
      interfaces_match =
          match_children-IsMatching interface_kind numa_node task.interfaces agent.interfaces
            interface_map interfaces;
      volumes_found = volumes;
      gpus_match = match_children-IsMatching gpu_kind numa_node task.gpus agent.gpus gpu_map gpus;
    })

cores_of_total :
    (numa_node : Option ℕ) (agent : Agent)
    → IsSound agent
    → IsNode numa_node agent
    → (found : RangeResource × ℕ) × (cores_of numa_node agent ≡ ok found)
unfolding cores_of
cores_of_total none agent sound here = ((no_cores, 0), refl)
cores_of_total (some node) agent sound here =
    let (cores, at_cores) =
      element_total agent.numa_cores node (let n = sound.nodes in omega arith) in
    let (group, at_group) = element_total agent.numa node here in
    ((cores, length group), rw (at_cores, at_group))

check_volumes_error :
    (numa_node : Option ℕ) (requests : List VolumeRequest) (volumes : List Volume) (error : Error)
    → check_volumes numa_node requests volumes ≡ err error
    → error ≡ insufficient_resources
unfolding check_volumes
check_volumes_error numa_node [] volumes error e = absurd (cc)
check_volumes_error numa_node (request ∷ requests) volumes error e =
    ground (arith, check_volumes_error numa_node requests volumes error)

-- A check that fails does so with `InsufficientResourcesError`.
pub plan_error :
    (numa_node : Option ℕ) (task : LogicalTask) (agent : Agent) (error : Error)
    → IsSound agent
    → IsNode numa_node agent
    → plan_numa_node numa_node task agent ≡ err error
    → error ≡ insufficient_resources
unfolding plan_numa_node
plan_error numa_node task agent error sound here e =
    let ((cores, total), at_node) = cores_of_total numa_node agent sound here in
    let e0 = rw at_node at e in
    elim (>>=-eq-err (check (leb (cores_needed task total) cores.available)) _ e0) [
      | inl failed ↦ check_error _ error failed
      | inr (u, _, e1) ↦
          elim (>>=-eq-err
            (match_children interface_kind numa_node task.interfaces agent.interfaces) _ e1) [
              | inl failed ↦
                  (match_children-IsStuck interface_kind numa_node task.interfaces agent.interfaces
                    error failed).0
              | inr (interface_map, _, e2) ↦
                  elim (>>=-eq-err (check_volumes numa_node task.volumes agent.volumes) _ e2) [
                    | inl failed ↦
                        check_volumes_error numa_node task.volumes agent.volumes error failed
                    | inr (v, _, e3) ↦
                        elim (>>=-eq-err (match_children gpu_kind numa_node task.gpus agent.gpus) _
                          e3) [
                            | inl failed ↦
                                (match_children-IsStuck gpu_kind numa_node task.gpus agent.gpus
                                  error failed).0
                            | inr (gpu_map, _, e4) ↦ absurd (cc)
                          ]
                  ]
            ]
    ]
