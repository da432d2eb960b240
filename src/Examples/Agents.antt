-- ===== src/Examples/Agents.antt =====
-- Tests and examples of the devices and of `Agent.allocate`.
use katsdpcontroller.Scheduler.Launch.Group.{GroupAllocated, allocate_nodes-GroupAllocated}
use katsdpcontroller.Scheduler.Launch.{Node, physical_task, other_node}
use katsdpcontroller.Prelude.{ℕ, ◌≡◌, refl, Option, none, some, List, [], ◌∷◌}
use katsdpcontroller.Examples.Samples.{
  lowest, lowest-IsGenerator, sample_gpu, gpu_request, sample_agent, sample_task,
  sample_agent-IsSound,
}
use katsdpcontroller.Scheduler.Agent.Outcome.{Outcome, allocate-Outcome}
use katsdpcontroller.Scheduler.Devices.Matching.{
  IsMatching, match_children-IsMatching, IsStuck, match_children-IsStuck,
}
use katsdpcontroller.Scheduler.Decimals.{as_decimal}
use katsdpcontroller.Scheduler.Devices.{
  GpuRequest, AgentGpu, gpu_matches, gpu_kind, suits, assign_first, match_from, match_children,
}
use katsdpcontroller.Errors.{insufficient_resources, ok, err}

abbrev weak_gpu : AgentGpu
weak_gpu = record sample_gpu { compute_capability = (5, 2) }

abbrev gpus : List AgentGpu
gpus = weak_gpu ∷ sample_gpu ∷ sample_gpu ∷ []

abbrev gpu_requests : List GpuRequest
gpu_requests = gpu_request ∷ gpu_request ∷ []

abbrev gpu_assignment : List (Option ℕ)
gpu_assignment = none ∷ some 0 ∷ some 1 ∷ []

match_sample : match_children gpu_kind (some 1) gpu_requests gpus ≡ ok gpu_assignment
unfolding match_children match_from assign_first suits gpu_matches as_decimal
match_sample = refl

match_children-IsMatching_example : IsMatching gpu_kind (some 1) gpu_requests gpus gpu_assignment
match_children-IsMatching_example =
    match_children-IsMatching gpu_kind (some 1) gpu_requests gpus gpu_assignment match_sample

-- The GPUs are on the other node.
no_match_sample : match_children gpu_kind (some 0) gpu_requests gpus ≡ err insufficient_resources
unfolding match_children match_from assign_first suits gpu_matches as_decimal
no_match_sample = refl

match_children-IsStuck_example :
    (insufficient_resources ≡ insufficient_resources) × IsStuck gpu_kind (some 0) gpu_requests gpus
match_children-IsStuck_example =
    match_children-IsStuck gpu_kind (some 0) gpu_requests gpus insufficient_resources
      no_match_sample

allocate-Outcome_example : Outcome lowest sample_task sample_agent
allocate-Outcome_example =
    allocate-Outcome lowest lowest-IsGenerator sample_task sample_agent sample_agent-IsSound

abbrev sample_nodes : List Node
sample_nodes = physical_task sample_task ∷ other_node ∷ physical_task sample_task ∷ []

allocate_nodes-GroupAllocated_example :
    GroupAllocated lowest sample_nodes (sample_agent ∷ sample_agent ∷ [])
allocate_nodes-GroupAllocated_example =
    allocate_nodes-GroupAllocated lowest lowest-IsGenerator sample_nodes
      (sample_agent ∷ sample_agent ∷ []) (sample_agent-IsSound, (sample_agent-IsSound, tt))
