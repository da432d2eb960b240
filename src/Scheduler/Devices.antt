-- ===== src/Scheduler/Devices.antt =====
-- The devices of scheduler.py: `GPUResources`, `InterfaceResources`, `Agent._match_children`, and the
-- loops of `Agent._allocate_numa_node` over the devices.
mod Requests
pub mod Matching
pub mod Taking
pub mod Slots
unfoldable pub use Requests.*
use katsdpcontroller.Prelude.{
  member, option_map, ltb, leb, if◌then◌else◌, length, get_elem?, set, replicate, ◌==◌, ℕ, ◌+◌,
  String, Bool, true, false, not, ◌&&◌, ◌||◌, Option, none, some, List, [], ◌∷◌, ◌++◌, nat_eq,
  string_eq,
}
use katsdpcontroller.Scheduler.Decimals.{Real, as_decimal}
use katsdpcontroller.Scheduler.ScalarResource.{request_amount, ScalarResource, scalar_allocate}
use katsdpcontroller.Errors.{Result, index_error, insufficient_resources, ok, err}

-- What `_match_children` and the allocation use of a kind of device.
pub record Kind (Req Dev Alloc : Type 0) : Type 0 where
  pub amounts : Req → Duo Real
  pub resources : Dev → Duo ScalarResource
  pub matches : Req → Dev → Option ℕ → Bool
  -- the body of the allocation loop: the state of the device outlives an exception
  pub take : ℕ → Req → Dev → Result Alloc × Dev
  -- what the allocation records
  pub index_of : Alloc → ℕ
  pub taken_of : Alloc → Duo ScalarResource

pub record GpuAllocation : Type 0 where
  pub index : ℕ
  pub resources : Duo ScalarResource

pub record InterfaceAllocation : Type 0 where
  pub index : ℕ
  pub resources : Duo ScalarResource
  pub infiniband_multicast_out : List String
  pub multicast_in : List String

-- `for name, req in request.requests.items(): … allocate(req.amount)`
unfoldable pub take_duo :
    Duo Real → Duo ScalarResource → Result (Duo ScalarResource) × Duo ScalarResource
take_duo need have = elim (scalar_allocate (request_amount need.first) have.first) [
  | err e ↦ (err e, have)
  | ok (out, rest) ↦ elim (scalar_allocate (request_amount need.second) have.second) [
    | err e ↦ (err e, record have { first = rest })
    | ok (out', rest') ↦
        (ok (record { first = out; second = out' }), record { first = rest; second = rest' })
  ]
]

unfoldable pub take_gpu : ℕ → GpuRequest → AgentGpu → Result GpuAllocation × AgentGpu
take_gpu i request gpu =
    let (r, left) = take_duo request.amounts gpu.resources in
    elim r [
      | err e ↦ (err e, record gpu { resources = left })
      | ok taken ↦ (ok (record { index = i; resources = taken }), record gpu { resources = left })
    ]

unfoldable pub take_interface :
    ℕ → InterfaceRequest → AgentInterface → Result InterfaceAllocation × AgentInterface
take_interface i request interface =
    let (r, left) = take_duo request.amounts interface.resources in
    let out = if request.infiniband then request.multicast_out else [] in
    elim r [
      | err e ↦ (err e, record interface { resources = left })
      | ok taken ↦ (
        ok (record {
          index = i;
          resources = taken;
          infiniband_multicast_out = out;
          multicast_in = request.multicast_in;
        }),
        record interface {
          resources = left;
          infiniband_multicast_out = interface.infiniband_multicast_out ++ out;
          multicast_in = interface.multicast_in ++ request.multicast_in;
        },
      )
    ]

abbrev pub gpu_kind : Kind GpuRequest AgentGpu GpuAllocation
gpu_kind = record {
  amounts = λ request. request.amounts;
  resources = λ gpu. gpu.resources;
  matches = gpu_matches;
  take = take_gpu;
  index_of = λ alloc. alloc.index;
  taken_of = λ alloc. alloc.resources;
}

abbrev pub interface_kind : Kind InterfaceRequest AgentInterface InterfaceAllocation
interface_kind = record {
  amounts = λ request. request.amounts;
  resources = λ interface. interface.resources;
  matches = interface_matches;
  take = take_interface;
  index_of = λ alloc. alloc.index;
  taken_of = λ alloc. alloc.resources;
}

module _ {Req Dev Alloc : Type 0} (kind : Kind Req Dev Alloc) where
  -- `have < need` for no resource
  abbrev pub enough : Req → Dev → Bool
  enough request item =
      let need = kind.amounts request in
      let have = kind.resources item in
      leb (as_decimal need.first) have.first.available
      && leb (as_decimal need.second) have.second.available

  unfoldable pub suits : Option ℕ → Req → Dev → Bool
  suits numa_node request item = kind.matches request item numa_node && enough request item

  -- The search for the first free device that suits request `i`, and `assign[use] = i`.
  unfoldable pub assign_first :
      Option ℕ → ℕ → Req → List Dev → List (Option ℕ) → Option (List (Option ℕ))
  assign_first numa_node i request [] assign = none
  assign_first numa_node i request (item ∷ items) [] = none
  assign_first numa_node i request (item ∷ items) (some k ∷ assign) =
      option_map (λ l. some k ∷ l) (assign_first numa_node i request items assign)
  assign_first numa_node i request (item ∷ items) (none ∷ assign) =
      if suits numa_node request item
      then some (some i ∷ assign)
      else option_map (λ l. none ∷ l) (assign_first numa_node i request items assign)

  unfoldable pub match_from :
      Option ℕ → ℕ → List Req → List Dev → List (Option ℕ) → Result (List (Option ℕ))
  match_from numa_node i [] actual assign = ok assign
  match_from numa_node i (request ∷ requested) actual assign =
      elim (assign_first numa_node i request actual assign) [
        | none ↦ err insufficient_resources
        | some assign' ↦ match_from numa_node (i + 1) requested actual assign'
      ]

  -- `_match_children`
  unfoldable pub match_children : Option ℕ → List Req → List Dev → Result (List (Option ℕ))
  match_children numa_node requested actual =
      match_from numa_node 0 requested actual (replicate (length actual) none)

  -- The allocation loop over `enumerate(devices)`; `slots` is the list that starts as `[None] * n`.
  unfoldable pub take_all :
      ℕ
      → List Req
      → List Dev
      → List (Option ℕ)
      → List (Option Alloc)
      → Result (List (Option Alloc)) × List Dev
  take_all j requested [] assign slots = (ok slots, [])
  take_all j requested (item ∷ items) [] slots = (err index_error, item ∷ items)
  take_all j requested (item ∷ items) (none ∷ assign) slots =
      let (r, items') = take_all (j + 1) requested items assign slots in (r, item ∷ items')
  take_all j requested (item ∷ items) (some idx ∷ assign) slots = elim (get_elem? requested idx) [
    | none ↦ (err index_error, item ∷ items)
    | some request ↦
        let (r, item') = kind.take j request item in
        elim r [
          | err e ↦ (err e, item' ∷ items)
          | ok alloc ↦
              let (r', items') =
                take_all (j + 1) requested items assign (set slots idx (some alloc)) in
              (r', item' ∷ items')
        ]
  ]
