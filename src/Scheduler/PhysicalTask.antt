-- ===== src/Scheduler/PhysicalTask.antt =====
-- `PhysicalTask.allocate` of scheduler.py: the ports, cores and interfaces of an allocation get the
-- names that the logical task gives them.
pub mod Names
use katsdpcontroller.Prelude.{get_elem?, Dict, insert, ℕ, String, Option, none, some, List, [], ◌∷◌}
use katsdpcontroller.Scheduler.RangeResource.{iter}
use katsdpcontroller.Scheduler.Agent.{LogicalTask, ResourceAllocation}
use katsdpcontroller.Scheduler.Devices.{InterfaceRequest, AgentInterface, InterfaceAllocation}
use katsdpcontroller.Errors.{Result, type_error, index_error, ok, err, ◌>>=◌}

-- `for name, value in zip(…): if name is not None: d[name] = value`
unfoldable pub name_items : List (Option String) → List ℕ → Dict ℕ → Dict ℕ
name_items [] items d = d
name_items (name ∷ names) [] d = d
name_items (none ∷ names) (item ∷ items) d = name_items names items d
name_items (some name ∷ names) (item ∷ items) d = name_items names items (insert name item d)

-- `self.interfaces[request.network] = agent.interfaces[value.index]`. A request without an
-- allocation would raise `AttributeError`, an index that is out of range `IndexError`.
unfoldable pub name_interfaces :
    List AgentInterface
    → List InterfaceRequest
    → List (Option InterfaceAllocation)
    → Dict AgentInterface
    → Result (Dict AgentInterface)
name_interfaces on_agent [] values d = ok d
name_interfaces on_agent (request ∷ requests) [] d = ok d
name_interfaces on_agent (request ∷ requests) (none ∷ values) d = err type_error
name_interfaces on_agent (request ∷ requests) (some given ∷ values) d =
    elim (get_elem? on_agent given.index) [
      | none ↦ err index_error
      | some interface ↦
          name_interfaces on_agent requests values (insert request.network interface d)
    ]

-- What `allocate` sets.
pub record Named : Type 0 where
  pub allocation : ResourceAllocation
  pub interfaces : Dict AgentInterface
  pub ports : Dict ℕ
  pub cores : Dict ℕ

unfoldable pub allocate : LogicalTask → List AgentInterface → ResourceAllocation → Result Named
allocate task on_agent allocation = do
  interfaces ← name_interfaces on_agent task.interfaces allocation.interfaces []
  ok (record {
    allocation = allocation;
    interfaces = interfaces;
    ports = name_items task.ports (iter allocation.ports) [];
    cores = name_items task.cores (iter allocation.cores) [];
  })
