-- ===== src/Scheduler/Agent/Steps.antt =====
-- The steps of `_allocate_numa_node` that can raise do not, once the checks have passed.
use katsdpcontroller.Prelude.{
  get_elem?-set_self, get_elem?-set_ne, length-set, Bool-cases, some_inj, length, get_elem?, set,
  All, ℕ, zero, suc, ◌≤◌, ◌<◌, ◌≡◌, refl, sym, ap, ◌∙◌, ◌≢◌, inl, inr, true, Option, none, some,
  List, [], ◌∷◌, ◌++◌, arith,
}
use katsdpcontroller.Scheduler.Agent.Allocation.{take_cores}
use katsdpcontroller.Scheduler.Agent.Planning.{All-element}
use katsdpcontroller.Scheduler.Agent.Checks.{
  any_volume, check_volumes, next_volume, take_volumes, element, no_cores,
}
use katsdpcontroller.Scheduler.RangeResource.Iteration.{length-iter, range_allocate-TakesFirst}
use katsdpcontroller.Scheduler.Resource.{IsInSync}
use katsdpcontroller.Scheduler.RangeResource.{range_hooks, RangeResource, iter}
use katsdpcontroller.Scheduler.Agent.{Agent}
use katsdpcontroller.Scheduler.Devices.{VolumeRequest, Volume, volume_matches}
use katsdpcontroller.Errors.{ok}

-- The volumes: each request has a volume that matches it.
abbrev pub AreMounted : Option ℕ → List VolumeRequest → List Volume → Type 0
AreMounted numa_node [] [] = Unit
AreMounted numa_node (request ∷ requests) (volume ∷ volumes) =
    (volume_matches request volume numa_node ≡ true) × AreMounted numa_node requests volumes
AreMounted numa_node [] (volume ∷ volumes) = ⊥
AreMounted numa_node (request ∷ requests) [] = ⊥

next_volume_total :
    (request : VolumeRequest) (numa_node : Option ℕ) (volumes : List Volume)
    → any_volume request numa_node volumes ≡ true
    → (volume : Volume) × (next_volume request numa_node volumes ≡ ok volume)
      × (volume_matches request volume numa_node ≡ true)
unfolding any_volume next_volume
next_volume_total request numa_node [] h = absurd (cc)
next_volume_total request numa_node (volume ∷ volumes) h =
    elim (Bool-cases (volume_matches request volume numa_node)) [
      | inl good ↦ (volume, rw good, good)
      | inr bad ↦
          let (found, at, good) =
            next_volume_total request numa_node volumes (ground (arith, bad)) in
          (found, rw (bad, at), good)
    ]

pub take_volumes_total :
    (numa_node : Option ℕ) (requests : List VolumeRequest) (volumes : List Volume)
    → check_volumes numa_node requests volumes ≡ ok tt
    → (taken : List Volume) × (take_volumes numa_node requests volumes ≡ ok taken)
      × AreMounted numa_node requests taken
unfolding check_volumes take_volumes
take_volumes_total numa_node [] volumes h = ([], refl, tt)
take_volumes_total numa_node (request ∷ requests) volumes h =
    elim (Bool-cases (any_volume request numa_node volumes)) [
      | inl found ↦
          let (volume, at, good) = next_volume_total request numa_node volumes found in
          let (rest, at_rest, mounted) =
            take_volumes_total numa_node requests volumes (rw found at h) in
          (volume ∷ rest, rw (at, at_rest), (good, mounted))
      | inr missing ↦ absurd (cc (rw missing at h))
    ]

-- The cores: those that are taken come first in the node's order; other nodes keep theirs.
pub record TookCores (numa_node : Option ℕ) (need : ℕ) (agent : Agent) : Type 0 where
  pub out : RangeResource
  pub left : List RangeResource
  pub done : take_cores numa_node need agent ≡ (ok out, record agent { numa_cores = left })
  pub out_has : out.available ≡ need
  pub in_sync : All (IsInSync range_hooks) left
  pub as_many : length left ≡ length agent.numa_cores
  pub others :
      (node : ℕ) → numa_node ≢ some node → get_elem? left node ≡ get_elem? agent.numa_cores node
  pub in_order :
      (node : ℕ)
      → numa_node ≡ some node
      → (before : RangeResource) × (after : RangeResource) × (get_elem? agent.numa_cores node
          ≡ some before)
        × (get_elem? left node ≡ some after)
        × (iter out ++ iter after ≡ iter before)

element-get_elem? {ℓ} :
    {A : Type ℓ} (xs : List A) (i : ℕ) (x : A) → element xs i ≡ ok x → get_elem? xs i ≡ some x
element-get_elem? [] i x e = absurd (cc)
element-get_elem? (y ∷ xs) zero x e = cc
element-get_elem? (y ∷ xs) (suc i) x e = element-get_elem? xs i x e

All-set {ℓ κ} :
    {A : Type ℓ} (P : A → Type κ) (xs : List A) (i : ℕ) (v : A)
    → All P xs
    → P v
    → All P (set xs i v)
All-set P [] i v all h = tt
All-set P (x ∷ xs) zero v all h = (h, all.1)
All-set P (x ∷ xs) (suc i) v all h = (all.0, All-set P xs i v all.1 h)

element_low {ℓ} : {A : Type ℓ} (xs : List A) (i : ℕ) (x : A) → element xs i ≡ ok x → i < length xs
element_low [] i x e = absurd (cc)
element_low (y ∷ xs) zero x e = omega arith
element_low (y ∷ xs) (suc i) x e = omega (arith, element_low xs i x e)

-- On a node with enough cores.
pub take_cores_node :
    (node need : ℕ) (agent : Agent) (cores : RangeResource)
    → All (IsInSync range_hooks) agent.numa_cores
    → element agent.numa_cores node ≡ ok cores
    → need ≤ cores.available
    → TookCores (some node) need agent
unfolding take_cores
take_cores_node node need agent cores sync at fits =
    let t =
      range_allocate-TakesFirst need cores
        (All-element (IsInSync range_hooks) agent.numa_cores node cores sync at) fits in
    let low = element_low agent.numa_cores node cores at in
    record {
      out = t.out;
      left = set agent.numa_cores node t.rest;
      done = ground (arith, at, t.done);
      out_has = sym (length-iter t.out t.out_in_sync) ∙ t.as_many;
      in_sync = All-set (IsInSync range_hooks) agent.numa_cores node t.rest sync t.rest_in_sync;
      as_many = length-set agent.numa_cores node t.rest;
      others = λ other differs.
          get_elem?-set_ne agent.numa_cores node other t.rest (λ e. differs (ap some e));
      in_order = λ same e.
          let same_node = some_inj e in
          (
            cores,
            t.rest,
            ap (get_elem? agent.numa_cores) (sym same_node)
                ∙ element-get_elem? agent.numa_cores node cores at,
            ap (get_elem? (set agent.numa_cores node t.rest)) (sym same_node)
                ∙ get_elem?-set_self agent.numa_cores node t.rest low,
            t.in_order,
          );
    }

-- Without a node nothing is taken: the task needs no cores.
pub take_cores_none :
    (agent : Agent) → All (IsInSync range_hooks) agent.numa_cores → TookCores none 0 agent
unfolding take_cores
take_cores_none agent sync =
    let t = range_allocate-TakesFirst 0 no_cores (omega arith) (omega arith) in
    record {
      out = t.out;
      left = agent.numa_cores;
      done = ground (arith, t.done);
      out_has = sym (length-iter t.out t.out_in_sync) ∙ t.as_many;
      in_sync = sync;
      as_many = refl;
      others = λ node differs. refl;
      in_order = λ node e. absurd (cc);
    }
