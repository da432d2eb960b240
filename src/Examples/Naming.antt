-- ===== src/Examples/Naming.antt =====
-- Tests and examples of the names of an allocation.
use katsdpcontroller.Prelude.{get_elem?, lookup, ℕ, ◌≡◌, refl, some, [], ◌∷◌}
use katsdpcontroller.Examples.Samples.{scalar_of, cores_from, sample_interface, sample_task}
use katsdpcontroller.Scheduler.PhysicalTask.Names.{allocate_ports}
use katsdpcontroller.Scheduler.RangeResource.{range_up, RangeResource, iter}
use katsdpcontroller.Scheduler.PhysicalTask.{name_items, name_interfaces, Named, allocate}
use katsdpcontroller.Scheduler.Agent.{ResourceAllocation}
use katsdpcontroller.Errors.{ok}

abbrev granted_ports : RangeResource
granted_ports = record {
  name = "ports";
  parts = record { role = some "*"; value = record { begin = 5000; last = 5001 } ∷ [] } ∷ [];
  available = 2;
}

abbrev granted : ResourceAllocation
granted = record {
  cpus = scalar_of "cpus" 2;
  mem = scalar_of "mem" 512;
  disk = scalar_of "disk" 0;
  ports = granted_ports;
  cores = cores_from 0;
  interfaces =
      some (record {
        index = 0;
        resources = sample_interface.resources;
        infiniband_multicast_out = [];
        multicast_in = [];
      })
      ∷ [];
  volumes = [];
  gpus = [];
}

abbrev named : Named
named = record {
  allocation = granted;
  interfaces = ("cbf", sample_interface) ∷ [];
  ports = ("http", 5000) ∷ ("katcp", 5001) ∷ [];
  cores = [];
}

named_sample : allocate sample_task (sample_interface ∷ []) granted ≡ ok named
unfolding allocate name_interfaces name_items iter range_up
named_sample = refl

allocate_ports_example :
    (port : ℕ) × (get_elem? (iter granted_ports) 1 ≡ some port)
    × (lookup "katcp" named.ports ≡ some port)
allocate_ports_example =
    allocate_ports sample_task (sample_interface ∷ []) granted named "katcp" 1 named_sample refl
      refl (refl, tt)
