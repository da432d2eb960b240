-- ===== src/Scheduler/Agent/Outcome.antt =====
-- `Agent.allocate` either grants all that a task asks for, or raises `InsufficientResourcesError`
-- and leaves the agent as it was.
use katsdpcontroller.Scheduler.Decimals.{as_decimal}
use katsdpcontroller.Scheduler.Devices.{is_empty}
use katsdpcontroller.Prelude.{
  leb, leb→le, String, false, List, ◌∷◌, Bool-cases, length, ◌==◌, ℕ, zero, suc, ◌+◌, ◌≤◌, ◌<◌, ◌≡◌,
  refl, sym, ap, subst, ◌∙◌, ◌≢◌, ◌⊎◌, inl, inr, true, Option, none, some, [], arith, nat_eq,
  string_eq,
}
use katsdpcontroller.Scheduler.Agent.Allocation.{allocate, allocate_numa_node, try_nodes}
use katsdpcontroller.Scheduler.Agent.Planning.{plan-Planned, IsSound, IsNode, plan_error}
use katsdpcontroller.Scheduler.Agent.Checks.{valid_agent, plan_numa_node, check_global}
use katsdpcontroller.Scheduler.Agent.Commit.{IsGranted, HasGlobal, commit_total}
use katsdpcontroller.Scheduler.RangeResource.Picking.{IsGenerator}
use katsdpcontroller.Scheduler.RangeResource.{Generator}
use katsdpcontroller.Scheduler.Agent.{LogicalTask, Agent, ResourceAllocation}
use katsdpcontroller.Errors.{Result, Result-cases, insufficient_resources, ok, err}

-- All is granted, on this node, and the agent's books are in step afterwards.
pub record Granted (random : Generator) (task : LogicalTask) (agent : Agent) (numa_node : Option ℕ)
    (result : Result ResourceAllocation × Agent) : Type 0 where
  pub alloc : ResourceAllocation
  pub agent' : Agent
  pub returns : result ≡ (ok alloc, agent')
  pub sound : IsSound agent'
  pub granted : IsGranted numa_node task agent alloc agent'

abbrev pub refused : Agent → Result ResourceAllocation × Agent
refused agent = (err insufficient_resources, agent)

-- Why an allocation is refused: a check at the start, or the checks on the node or on every node.
abbrev pub IsRefused : LogicalTask → Agent → Type 0
IsRefused task agent =
    (check_global task agent ≡ err insufficient_resources)
    ⊎ ((task.cores ≡ []) × (plan_numa_node none task agent ≡ err insufficient_resources)
        ⊎ (task.cores ≢ [])
          × ((node : ℕ)
              → node < length agent.numa
              → plan_numa_node (some node) task agent ≡ err insufficient_resources))

-- A task is granted on one node, which is a NUMA node of the agent exactly if it asks for cores.
abbrev pub IsFittingNode : LogicalTask → Agent → Option ℕ → Type 0
IsFittingNode task agent none = task.cores ≡ []
IsFittingNode task agent (some node) = (task.cores ≢ []) × (node < length agent.numa)

pub data Outcome (random : Generator) (task : LogicalTask) (agent : Agent) : Type 0 where
  grants :
      (numa_node : Option ℕ)
      → IsFittingNode task agent numa_node
      → valid_agent task agent ≡ true
      → Granted random task agent numa_node (allocate random task agent)
      → Outcome random task agent
  refuses :
      allocate random task agent ≡ refused agent → IsRefused task agent → Outcome random task agent

module _ (random : Generator) (law : IsGenerator random) (task : LogicalTask) (agent : Agent)
    (sound : IsSound agent) where
  numa_node_outcome :
      (numa_node : Option ℕ)
      → HasGlobal task agent
      → IsNode numa_node agent
      → Granted random task agent numa_node (allocate_numa_node random numa_node task agent)
        ⊎ (allocate_numa_node random numa_node task agent ≡ refused agent)
          × (plan_numa_node numa_node task agent ≡ err insufficient_resources)
  unfolding allocate_numa_node
  numa_node_outcome numa_node has here = elim (Result-cases (plan_numa_node numa_node task agent)) [
    | inl (plan, planned) ↦
        let c =
          commit_total random law numa_node task agent plan sound has
            (plan-Planned numa_node task agent plan planned) in
        inl (record {
          alloc = c.alloc;
          agent' = c.agent';
          returns = ground (arith, planned, c.done);
          sound = c.sound;
          granted = c.granted;
        })
    | inr (error, failed) ↦
        let is = plan_error numa_node task agent error sound here failed in
        let failed' = failed ∙ ap (λ e. err e) is in inr (ground (arith, failed'), failed')
  ]

  try_nodes_outcome :
      (n node : ℕ)
      → HasGlobal task agent
      → node + n ≡ length agent.numa
      → ((at : ℕ) × (at < length agent.numa)
          × Granted random task agent (some at) (try_nodes random task node n agent))
        ⊎ (try_nodes random task node n agent ≡ refused agent)
          × ((at : ℕ)
              → node ≤ at
              → at < length agent.numa
              → plan_numa_node (some at) task agent ≡ err insufficient_resources)
  unfolding try_nodes
  try_nodes_outcome zero node has end = inr (refl, λ at low high. absurd (omega arith))
  try_nodes_outcome (suc n) node has end = elim (numa_node_outcome (some node) has (omega arith)) [
    | inl g ↦ inl (
      node,
      omega arith,
      record {
        alloc = g.alloc;
        agent' = g.agent';
        returns = ground (arith, g.returns);
        sound = g.sound;
        granted = g.granted;
      },
    )
    | inr (failed, plan_failed) ↦ elim (try_nodes_outcome n (node + 1) has (omega arith)) [
      | inl (at, low, g) ↦ inl (
        at,
        low,
        record {
          alloc = g.alloc;
          agent' = g.agent';
          returns = ground (arith, failed, g.returns);
          sound = g.sound;
          granted = g.granted;
        },
      )
      | inr (failed', others) ↦ inr (
        ground (arith, failed, failed'),
        λ at low high. elim (Bool-cases (at == node)) [
          | inl same ↦
              let e : at ≡ node = ground arith in
              subst (λ m. plan_numa_node (some m) task agent ≡ err insufficient_resources) (sym e)
                plan_failed
          | inr later ↦ others at (ground arith) high
        ],
      )
    ]
  ]

  check_global_cases :
      HasGlobal task agent × (check_global task agent ≡ ok tt) × (valid_agent task agent ≡ true)
      ⊎ (check_global task agent ≡ err insufficient_resources)
  unfolding check_global
  check_global_cases = elim (Bool-cases (valid_agent task agent)) [
    | inr v ↦ inr (rw v)
    | inl v ↦ elim (Bool-cases (leb (as_decimal task.cpus) agent.cpus.available)) [
      | inr c ↦ inr (rw (v, c))
      | inl c ↦ elim (Bool-cases (leb (as_decimal task.mem) agent.mem.available)) [
        | inr m ↦ inr (rw (v, c, m))
        | inl m ↦ elim (Bool-cases (leb (as_decimal task.disk) agent.disk.available)) [
          | inr d ↦ inr (rw (v, c, m, d))
          | inl d ↦ elim (Bool-cases (leb (length task.ports) agent.ports.available)) [
            | inr p ↦ inr (rw (v, c, m, d, p))
            | inl p ↦ inl (
              record {
                cpus = leb→le _ _ c;
                mem = leb→le _ _ m;
                disk = leb→le _ _ d;
                ports = leb→le _ _ p;
              },
              rw (v, c, m, d, p),
              v,
            )
          ]
        ]
      ]
    ]
  ]

  Outcome-without_cores :
      HasGlobal task agent
      → check_global task agent ≡ ok tt
      → valid_agent task agent ≡ true
      → task.cores ≡ []
      → Outcome random task agent
  unfolding allocate
  Outcome-without_cores has checked valid no_cores_asked = elim (numa_node_outcome none has tt) [
    | inl g ↦ grants none no_cores_asked valid (record {
      alloc = g.alloc;
      agent' = g.agent';
      returns = ground (arith, checked, g.returns, ap is_empty no_cores_asked);
      sound = g.sound;
      granted = g.granted;
    })
    | inr (failed, plan_failed) ↦
        refuses (ground (arith, checked, failed, ap is_empty no_cores_asked))
          (inr (inl (no_cores_asked, plan_failed)))
  ]

  Outcome-with_cores :
      HasGlobal task agent
      → check_global task agent ≡ ok tt
      → valid_agent task agent ≡ true
      → is_empty task.cores ≡ false
      → Outcome random task agent
  unfolding allocate
  Outcome-with_cores has checked valid cores_asked =
      let ne : task.cores ≢ [] = λ e. cc (ap is_empty e) in
      elim (try_nodes_outcome (length agent.numa) 0 has (omega arith)) [
        | inl (at, low, g) ↦
            grants (some at) (ne, low) valid
              (record {
                alloc = g.alloc;
                agent' = g.agent';
                returns = ground (arith, checked, g.returns);
                sound = g.sound;
                granted = g.granted;
              })
        | inr (failed, none_fits) ↦
            refuses (ground (arith, checked, failed))
              (inr (inr (ne, λ at low. none_fits at (omega arith) low)))
      ]

  nil_of_is_empty : (l : List (Option String)) → is_empty l ≡ true → l ≡ []
  nil_of_is_empty [] h = refl
  nil_of_is_empty (x ∷ xs) h = absurd (cc)

  -- Agent.allocate is all or nothing. For an agent whose books are in step, any task, and any
  -- random generator whose choices picks a positive weight and whose randint stays in its bounds:
  -- either it returns an allocation, without a NUMA node if the task asks for no cores and
  -- otherwise on a node of the agent, where CPUs, memory and disk in the allocation are what the
  -- task asks for and the agent has so much less, each port number is held by the allocation and
  -- the agent as often as by the agent before, the allocation has as many ports as the task asks
  -- for and at least as many cores, which are the first of the node while the other nodes keep
  -- theirs, every interface and GPU request is served by a device that suits it, every volume is
  -- mounted, and the agent's books are in step again; or it raises InsufficientResourcesError and
  -- the agent is unchanged, because a check at the start failed, or the checks for a task without
  -- cores failed, or those for a task with cores failed on every NUMA node.
  pub allocate-Outcome : Outcome random task agent
  unfolding allocate
  allocate-Outcome = elim check_global_cases [
    | inr failed ↦ refuses (ground (arith, failed)) (inl failed)
    | inl (has, checked, valid) ↦ elim (Bool-cases (is_empty task.cores)) [
      | inl no_cores_asked ↦
          Outcome-without_cores has checked valid (nil_of_is_empty task.cores no_cores_asked)
      | inr cores_asked ↦ Outcome-with_cores has checked valid cores_asked
    ]
  ]
