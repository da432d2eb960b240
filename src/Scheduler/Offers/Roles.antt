-- ===== src/Scheduler/Offers/Roles.antt =====
-- `Scheduler._update_roles`, how `_launch_once` uses and gives up offers, and all that can happen
-- to the offers as events.
use katsdpcontroller.Prelude.{
  if◌then◌else◌, get_elem?, set, flat_map, member, Dict, lookup, remove, ℕ, String, Bool, true,
  false, none, some, List, [], ◌∷◌, ◌++◌, map,
}
use katsdpcontroller.Scheduler.Offers.{
  Offer, ResolvingOffers, Pool, Scheduler, get_or_empty, remove_offer, call_if_any,
  resolve_offers_done, resource_offers, offer_rescinded, decline_offer, suppress_offers,
  revive_offers,
}

-- xs - ys
abbrev pub minus : List String → List String → List String
minus [] ys = []
minus (x ∷ xs) ys = let rest = minus xs ys in if member x ys then rest else x ∷ rest

abbrev pub ids_of : Dict Offer → List String
ids_of = map (λ e. e.1.id)

abbrev pub ids_of_agents : Dict (Dict Offer) → List String
ids_of_agents = flat_map (λ e. ids_of e.1)

-- `self._offers.pop(role, {})` for every role: the ids of the offers, and the pool that is left.
unfoldable pub pop_roles : List String → Pool → List String × Pool
pop_roles [] pool = ([], pool)
pop_roles (role ∷ roles) pool =
    let (to_decline, left) = pop_roles roles (remove role pool) in
    (ids_of_agents (get_or_empty (lookup role pool)) ++ to_decline, left)

-- `task.cancel()` for an offer that is being resolved for one of the roles.
abbrev pub cancel_batch : List String → ℕ → List ResolvingOffers → List ResolvingOffers
cancel_batch suppress i batches = elim (get_elem? batches i) [
  | none ↦ batches
  | some batch ↦
      if member batch.role suppress
      then set batches i (record batch { is_cancelled = true })
      else batches
]

unfoldable pub cancel_batches : List String → Dict ℕ → List ResolvingOffers → List ResolvingOffers
cancel_batches suppress [] batches = batches
cancel_batches suppress (e ∷ resolving) batches =
    cancel_batches suppress resolving (cancel_batch suppress e.1 batches)

-- The part for the roles that are not needed any more.
unfoldable pub drop_roles : List String → Scheduler → Scheduler
drop_roles [] self = self
drop_roles (x ∷ xs) self =
    let suppress = x ∷ xs in
    let (to_decline, left) = pop_roles suppress self.offers in
    call_if_any decline_offer to_decline (record self {
      offers = left;
      batches = cancel_batches suppress self.resolving self.batches;
      calls = self.calls ++ suppress_offers suppress ∷ [];
    })

-- `_update_roles`
unfoldable pub update_roles : List String → Scheduler → Scheduler
update_roles new_roles self =
    let revive = minus new_roles self.roles_needed in
    let suppress = minus self.roles_needed new_roles in
    drop_roles suppress
      (call_if_any revive_offers revive (record self { roles_needed = new_roles }))

-- The end of `_launch_once`: the offers of the agents that are of no use are declined.
unfoldable pub keep_useful : (String → Bool) → Dict (Dict Offer) → List String × Dict (Dict Offer)
keep_useful useful [] = ([], [])
keep_useful useful (e ∷ agents) =
    let (to_decline, kept) = keep_useful useful agents in
    if useful e.0 then (to_decline, e ∷ kept) else (ids_of e.1 ++ to_decline, kept)

unfoldable pub keep_useful_roles : (String → String → Bool) → Pool → List String × Pool
keep_useful_roles useful [] = ([], [])
keep_useful_roles useful (e ∷ pool) =
    let (here, kept) = keep_useful (useful e.0) e.1 in
    let (there, left) = keep_useful_roles useful pool in (here ++ there, (e.0, kept) ∷ left)

unfoldable pub release_offers : (String → String → Bool) → Scheduler → Scheduler
release_offers useful self =
    let (to_decline, left) = keep_useful_roles useful self.offers in
    call_if_any decline_offer to_decline (record self { offers = left })

-- The offers of an agent that tasks are launched on are used up.
unfoldable pub use_offers : String → String → List String → Scheduler → Scheduler
use_offers role agent [] self = self
use_offers role agent (offer_id ∷ ids) self =
    use_offers role agent ids
      (record self { offers = remove_offer role agent offer_id self.offers })

pub data Event : Type 0 where
  offered : ℕ → List Offer → Event
  resolved : ℕ → (String → Bool) → Event
  offer_gone : String → Event
  needs_roles : List String → Event
  launched_on : String → String → List String → Event
  released : (String → String → Bool) → Event

abbrev pub handle : Event → Scheduler → Scheduler
handle (offered now offers) self = resource_offers now offers self
handle (resolved i addressed) self = resolve_offers_done i addressed self
handle (offer_gone offer_id) self = offer_rescinded offer_id self
handle (needs_roles roles) self = update_roles roles self
handle (launched_on role agent ids) self = use_offers role agent ids self
handle (released useful) self = release_offers useful self

abbrev pub run : List Event → Scheduler → Scheduler
run [] self = self
run (event ∷ events) self = run events (handle event self)

abbrev pub new_scheduler : Scheduler
new_scheduler = record {
  offers = [];
  resolving = [];
  batches = [];
  roles_needed = [];
  wakeup = false;
  calls = [];
}
