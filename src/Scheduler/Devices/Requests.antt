-- ===== src/Scheduler/Devices/Requests.antt =====
-- The requests for devices and the devices of scheduler.py: `GPURequest`, `InterfaceRequest`,
-- `VolumeRequest`, `AgentGPU`, `AgentInterface`, `Volume`, and when a device matches a request. Each
-- kind of device has two scalar resources, in the order of `GPU_RESOURCES` (compute, mem) and
-- `INTERFACE_RESOURCES` (bandwidth_in, bandwidth_out). A set of multicast group names is a list.
use katsdpcontroller.Prelude.{
  member, ltb, if◌then◌else◌, ◌==◌, ℕ, String, Bool, true, false, not, ◌&&◌, ◌||◌, Option, none,
  some, List, [], ◌∷◌, ◌++◌, nat_eq, string_eq,
}
use katsdpcontroller.Scheduler.Decimals.{Real}
use katsdpcontroller.Scheduler.ScalarResource.{ScalarResource}

pub record Duo (A : Type 0) : Type 0 where
  pub first : A
  pub second : A

pub record GpuRequest : Type 0 where
  pub amounts : Duo Real
  pub affinity : Bool
  pub name : Option String
  pub min_compute_capability : Option (ℕ × ℕ)

pub record AgentGpu : Type 0 where
  pub resources : Duo ScalarResource
  pub name : String
  pub compute_capability : ℕ × ℕ
  pub numa_node : Option ℕ

pub record InterfaceRequest : Type 0 where
  pub amounts : Duo Real
  pub network : String
  pub infiniband : Bool
  pub affinity : Bool
  pub multicast_in : List String
  pub multicast_out : List String

pub record AgentInterface : Type 0 where
  pub resources : Duo ScalarResource
  pub networks : List String
  pub numa_node : Option ℕ
  pub infiniband_devices : List String
  pub infiniband_multicast_loopback : Bool
  pub infiniband_multicast_out : List String
  pub multicast_in : List String

pub record VolumeRequest : Type 0 where
  pub name : String
  pub affinity : Bool

pub record Volume : Type 0 where
  pub name : String
  pub host_path : String
  pub numa_node : Option ℕ

-- The truth value of `a & b`.
abbrev pub intersects : List String → List String → Bool
intersects [] bs = false
intersects (a ∷ rest) bs = member a bs || intersects rest bs

abbrev pub same_node : Option ℕ → ℕ → Bool
same_node none node = false
same_node (some n) node = n == node

-- `affinity and numa_node is not None and device.numa_node != numa_node`, negated.
abbrev pub on_node : Bool → Option ℕ → Option ℕ → Bool
on_node affinity device none = true
on_node affinity device (some node) = not affinity || same_node device node

-- a < b on pairs
abbrev pub pair_ltb : ℕ × ℕ → ℕ × ℕ → Bool
pair_ltb (a, b) (c, d) = ltb a c || (a == c && ltb b d)

abbrev pub name_ok : Option String → String → Bool
name_ok none name = true
name_ok (some wanted) name = wanted == name

abbrev pub capability_ok : Option (ℕ × ℕ) → ℕ × ℕ → Bool
capability_ok none have = true
capability_ok (some least) have = not (pair_ltb have least)

unfoldable pub gpu_matches : GpuRequest → AgentGpu → Option ℕ → Bool
gpu_matches request gpu numa_node =
    if not (name_ok request.name gpu.name)
    then false
    else if not (capability_ok request.min_compute_capability gpu.compute_capability)
    then false
    else on_node request.affinity gpu.numa_node numa_node

abbrev pub is_empty {ℓ} : {A : Type ℓ} → List A → Bool
is_empty [] = true
is_empty (_ ∷ _) = false

-- Data sent by ibverbs would have to be received on the same interface.
abbrev pub loops_back : InterfaceRequest → AgentInterface → Bool
loops_back request interface =
    intersects
      (if request.infiniband
        then interface.infiniband_multicast_out ++ request.multicast_out
        else interface.infiniband_multicast_out)
      (interface.multicast_in ++ request.multicast_in)

unfoldable pub interface_matches : InterfaceRequest → AgentInterface → Option ℕ → Bool
interface_matches request interface numa_node =
    if not (on_node request.affinity interface.numa_node numa_node)
    then false
    else if request.infiniband && is_empty interface.infiniband_devices
    then false
    else if not interface.infiniband_multicast_loopback && loops_back request interface
    then false
    else member request.network interface.networks

unfoldable pub volume_matches : VolumeRequest → Volume → Option ℕ → Bool
volume_matches request volume numa_node =
    if not (on_node request.affinity volume.numa_node numa_node)
    then false
    else volume.name == request.name
