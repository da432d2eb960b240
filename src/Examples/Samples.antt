-- ===== src/Examples/Samples.antt =====
-- Sample resources, devices and agents, and a generator that answers like `random.Random` may.
use katsdpcontroller.Prelude.{
  get_elem?, sum_of, ℕ, zero, suc, ◌+◌, ◌*◌, ◌<◌, String, ◌≡◌, refl, true, false, none, some, List,
  [], ◌∷◌, arith,
}
use katsdpcontroller.Scheduler.Agent.Planning.{IsSound}
use katsdpcontroller.Scheduler.RangeResource.Picking.{IsGenerator}
use katsdpcontroller.Scheduler.Decimals.{Real}
use katsdpcontroller.Scheduler.ScalarResource.{ScalarResource}
use katsdpcontroller.Scheduler.RangeResource.{Generator, RangeResource}
use katsdpcontroller.Scheduler.Agent.{LogicalTask, Agent}
use katsdpcontroller.Scheduler.Devices.{GpuRequest, AgentGpu, InterfaceRequest, AgentInterface}

abbrev first_weighted : List ℕ → ℕ
first_weighted [] = 0
first_weighted (zero ∷ ws) = suc (first_weighted ws)
first_weighted (suc w ∷ ws) = 0

-- It always takes the lowest item of the first range that has any.
abbrev pub lowest : Generator
lowest = record {
  choices = λ drawn weights. first_weighted weights;
  randint = λ drawn low high. low;
}

first_weighted_found :
    (weights : List ℕ)
    → 0 < sum_of (λ w. w) weights
    → (w : ℕ) × (get_elem? weights (first_weighted weights) ≡ some w) × (0 < w)
first_weighted_found [] h = absurd (omega arith)
first_weighted_found (zero ∷ ws) h = first_weighted_found ws (omega arith)
first_weighted_found (suc w ∷ ws) h = (suc w, refl, omega arith)

pub lowest-IsGenerator : IsGenerator lowest
lowest-IsGenerator = record {
  choices_weighted = λ drawn weights h. first_weighted_found weights h;
  randint_low = λ drawn low high h. omega arith;
  randint_high = λ drawn low high h. h;
}

abbrev pub amount : ℕ → Real
amount n = record { num = n; den = 1 }

-- n units that are not reserved
abbrev pub scalar_of : String → ℕ → ScalarResource
scalar_of name n = record {
  name = name;
  parts = record { role = some "*"; value = n * 1000 } ∷ [];
  available = n * 1000;
}

-- 5000 to 5002 and 5010 to 5011 unreserved, 6000 to 6001 reserved for a role
abbrev pub sample_ports : RangeResource
sample_ports = record {
  name = "ports";
  parts =
      record {
        role = some "*";
        value = record { begin = 5010; last = 5011 } ∷ record { begin = 5000; last = 5002 } ∷ [];
      }
      ∷ record { role = some "cbf"; value = record { begin = 6000; last = 6001 } ∷ [] }
      ∷ [];
  available = 7;
}

abbrev pub cores_from : ℕ → RangeResource
cores_from first = record {
  name = "cores";
  parts = record { role = some "*"; value = record { begin = first; last = first + 3 } ∷ [] } ∷ [];
  available = 4;
}

abbrev pub sample_gpu : AgentGpu
sample_gpu = record {
  resources = record { first = scalar_of "compute" 1; second = scalar_of "mem" 1024 };
  name = "Titan";
  compute_capability = (6, 1);
  numa_node = some 1;
}

abbrev pub sample_interface : AgentInterface
sample_interface = record {
  resources = record {
    first = scalar_of "bandwidth_in" 100;
    second = scalar_of "bandwidth_out" 100;
  };
  networks = "cbf" ∷ [];
  numa_node = some 1;
  infiniband_devices = [];
  infiniband_multicast_loopback = true;
  infiniband_multicast_out = [];
  multicast_in = [];
}

abbrev pub gpu_request : GpuRequest
gpu_request = record {
  amounts = record { first = amount 1; second = amount 256 };
  affinity = true;
  name = none;
  min_compute_capability = some (6, 0);
}

abbrev pub interface_request : InterfaceRequest
interface_request = record {
  amounts = record { first = amount 10; second = amount 20 };
  network = "cbf";
  infiniband = false;
  affinity = false;
  multicast_in = [];
  multicast_out = [];
}

-- Two NUMA nodes with four cores each.
abbrev pub sample_agent : Agent
sample_agent = record {
  agent_id = "agent-1";
  host = "host-1";
  subsystems = none;
  cpus = scalar_of "cpus" 8;
  mem = scalar_of "mem" 4096;
  disk = scalar_of "disk" 100;
  ports = sample_ports;
  numa = (0 ∷ 1 ∷ 2 ∷ 3 ∷ []) ∷ (4 ∷ 5 ∷ 6 ∷ 7 ∷ []) ∷ [];
  numa_cores = cores_from 0 ∷ cores_from 4 ∷ [];
  interfaces = sample_interface ∷ [];
  volumes = record { name = "data"; host_path = "/data"; numa_node = none } ∷ [];
  gpus = sample_gpu ∷ [];
}

-- The GPU makes it fit on the second node only.
abbrev pub sample_task : LogicalTask
sample_task = record {
  cpus = amount 2;
  mem = amount 512;
  disk = amount 0;
  ports = some "http" ∷ some "katcp" ∷ [];
  cores = none ∷ none ∷ [];
  numa_share = λ n. 0;
  interfaces = interface_request ∷ [];
  volumes = record { name = "data"; affinity = false } ∷ [];
  gpus = gpu_request ∷ [];
  host = none;
  subsystem = none;
}

pub sample_agent-IsSound : IsSound sample_agent
sample_agent-IsSound = record {
  cpus = refl;
  mem = refl;
  disk = refl;
  ports = refl;
  numa_cores = (refl, (refl, tt));
  nodes = refl;
  interfaces = ((refl, refl), tt);
  gpus = ((refl, refl), tt);
}
