-- ===== src/Scheduler/Offers.antt =====
-- The offers of `Scheduler` in scheduler.py: `resourceOffers`, `_resolve_offers_done`,
-- `offerRescinded`, `_update_roles`, `_remove_offer`, and how `_launch_once` gives offers up. The
-- `ResolvingOffers` objects, which several keys of `_resolving_offers` share, are numbered in the
-- order in which they are made. The calls of the driver are a list, in order.
pub mod Roles
pub mod Tidy
pub mod Held
pub mod Settling
pub mod Rescinding
pub mod Searching
use katsdpcontroller.Prelude.{
  ◌≡◌, refl, ◌⊎◌, inl, inr, leb, if◌then◌else◌, length, get_elem?, set, member, Dict, lookup,
  insert, remove, ℕ, ◌+◌, String, Bool, true, false, not, Option, none, some, List, [], ◌∷◌, ◌++◌,
}

-- `offer.unavailability`: `start` and `duration` in nanoseconds.
pub record Unavailability : Type 0 where
  pub start : ℕ
  pub duration : Option ℕ

pub record Offer : Type 0 where
  pub id : String
  pub agent_id : String
  pub role : String
  pub unavailability : Option Unavailability

-- `ResolvingOffers`. A task that is cancelled still ends with `_resolve_offers_done`.
pub record ResolvingOffers : Type 0 where
  pub offers : List Offer
  pub role : String
  pub rescinded : List String
  pub is_cancelled : Bool

pub data Call : Type 0 where
  decline_offer suppress_offers revive_offers : List String → Call

-- From the role and the agent's id to the offers, by their ids.
abbrev pub Pool : Type 0
Pool = Dict (Dict (Dict Offer))

pub record Scheduler : Type 0 where
  pub offers : Pool
  pub resolving : Dict ℕ
  pub batches : List ResolvingOffers
  pub roles_needed : List String
  pub wakeup : Bool
  pub calls : List Call

-- self._offers.get(role, {}).get(agent_id, {}).get(offer_id)
abbrev pub held : String → String → String → Pool → Option Offer
held role agent offer_id pool = elim (lookup role pool) [
  | none ↦ none
  | some agents ↦ elim (lookup agent agents) [ none ↦ none | some offers ↦ lookup offer_id offers ]
]

abbrev pub get_or_empty {ℓ} : {V : Type ℓ} → Option (Dict V) → Dict V
get_or_empty none = []
get_or_empty (some d) = d

-- A dictionary that has become empty is deleted.
abbrev pub put_back {ℓ} : {V : Type ℓ} → String → Dict V → Dict (Dict V) → Dict (Dict V)
put_back k [] d = remove k d
put_back k (e ∷ inner) d = insert k (e ∷ inner) d

-- `_remove_offer`: a `KeyError` is ignored, and nothing has been changed then.
unfoldable pub remove_offer : String → String → String → Pool → Pool
remove_offer role agent offer_id pool = elim (lookup role pool) [
  | none ↦ pool
  | some agents ↦ elim (lookup agent agents) [
    | none ↦ pool
    | some offers ↦ elim (lookup offer_id offers) [
      | none ↦ pool
      | some offer ↦ put_back role (put_back agent (remove offer_id offers) agents) pool
    ]
  ]
]

-- The two calls of `setdefault` and the assignment.
unfoldable pub add_offer : String → Offer → Pool → Pool
add_offer role offer pool =
    let agents = get_or_empty (lookup role pool) in
    let offers = get_or_empty (lookup offer.agent_id agents) in
    insert role (insert offer.agent_id (insert offer.id offer offers) agents) pool

-- What becomes of an offer when its host name has been resolved, or not.
pub data Fate : Type 0 where
  is_rescinded is_declined is_pooled : Fate

pub Fate-cases : (f : Fate) → (f ≡ is_rescinded) ⊎ ((f ≡ is_declined) ⊎ (f ≡ is_pooled))
Fate-cases is_rescinded = inl refl
Fate-cases is_declined = inr (inl refl)
Fate-cases is_pooled = inr (inr refl)

unfoldable pub fate : ResolvingOffers → (String → Bool) → List String → Offer → Fate
fate batch addressed needed offer =
    if member offer.id batch.rescinded
    then is_rescinded
    else if not (addressed offer.id)
    then is_declined
    else if member batch.role needed
    then is_pooled
    else is_declined

-- The loop of `_resolve_offers_done`: the offers to decline, and the changed scheduler. `addressed`
-- tells which offers have an address.
unfoldable pub settle :
    ResolvingOffers → (String → Bool) → List Offer → Scheduler → List String × Scheduler
settle batch addressed [] self = ([], self)
settle batch addressed (offer ∷ offers) self =
    let popped = record self { resolving = remove offer.id self.resolving } in
    elim (fate batch addressed self.roles_needed offer) [
      | is_rescinded ↦ settle batch addressed offers popped
      | is_declined ↦
          let (to_decline, self') = settle batch addressed offers popped in
          (offer.id ∷ to_decline, self')
      | is_pooled ↦
          settle batch addressed offers
            (record popped { offers = add_offer batch.role offer self.offers; wakeup = true })
    ]

abbrev pub call_if_any : (List String → Call) → List String → Scheduler → Scheduler
call_if_any call [] self = self
call_if_any call (x ∷ xs) self = record self { calls = self.calls ++ call (x ∷ xs) ∷ [] }

-- `_resolve_offers_done` of the object with this number
unfoldable pub resolve_offers_done : ℕ → (String → Bool) → Scheduler → Scheduler
resolve_offers_done i addressed self = elim (get_elem? self.batches i) [
  | none ↦ self
  | some batch ↦
      let (to_decline, self') = settle batch addressed batch.offers self in
      call_if_any decline_offer to_decline self'
]

-- Unavailable from now on, or not yet available again.
unfoldable pub is_unavailable : ℕ → Offer → Bool
is_unavailable now offer = elim offer.unavailability [
  | none ↦ false
  | some u ↦ elim u.duration [ none ↦ true | some d ↦ leb now (u.start + d) ]
]

-- What the loop of `resourceOffers` collects.
pub record Sorted : Type 0 where
  pub to_decline : List String
  pub to_resolve : Dict (List Offer)
  pub to_suppress : List String

abbrev pub offers_for : Option (List Offer) → List Offer
offers_for none = []
offers_for (some offers) = offers

unfoldable pub sort_offer : ℕ → List String → Offer → Sorted → Sorted
sort_offer now needed offer s =
    if is_unavailable now offer
    then record s { to_decline = s.to_decline ++ offer.id ∷ [] }
    else if member offer.role needed
    then record s {
      to_resolve =
          insert offer.role (offers_for (lookup offer.role s.to_resolve) ++ offer ∷ [])
            s.to_resolve;
    }
    else record s {
      to_decline = s.to_decline ++ offer.id ∷ [];
      to_suppress =
          if member offer.role s.to_suppress
          then s.to_suppress
          else s.to_suppress ++ offer.role ∷ [];
    }

unfoldable pub sort_offers : ℕ → List String → List Offer → Sorted → Sorted
sort_offers now needed [] s = s
sort_offers now needed (offer ∷ offers) s =
    sort_offers now needed offers (sort_offer now needed offer s)

abbrev pub insert_all : List Offer → ℕ → Dict ℕ → Dict ℕ
insert_all [] i resolving = resolving
insert_all (offer ∷ offers) i resolving = insert_all offers i (insert offer.id i resolving)

-- A task is made for the offers of one role.
unfoldable pub start_batch : String → List Offer → Scheduler → Scheduler
start_batch role offers self = record self {
  batches =
      self.batches
      ++ record { offers = offers; role = role; rescinded = []; is_cancelled = false } ∷ [];
  resolving = insert_all offers (length self.batches) self.resolving;
}

unfoldable pub start_batches : Dict (List Offer) → Scheduler → Scheduler
start_batches [] self = self
start_batches (e ∷ to_resolve) self = start_batches to_resolve (start_batch e.0 e.1 self)

-- `resourceOffers`
unfoldable pub resource_offers : ℕ → List Offer → Scheduler → Scheduler
resource_offers now offers self =
    let s =
      sort_offers now self.roles_needed offers
        (record { to_decline = []; to_resolve = []; to_suppress = [] }) in
    call_if_any suppress_offers s.to_suppress
      (call_if_any decline_offer s.to_decline (start_batches s.to_resolve self))

-- The search of `offerRescinded`.
unfoldable pub find_agent : String → Dict (Dict Offer) → Option String
find_agent offer_id [] = none
find_agent offer_id (e ∷ agents) = elim (lookup offer_id e.1) [
  | some offer ↦ some e.0
  | none ↦ find_agent offer_id agents
]

unfoldable pub find_offer : String → Pool → Option (String × String)
find_offer offer_id [] = none
find_offer offer_id (e ∷ pool) = elim (find_agent offer_id e.1) [
  | some agent ↦ some (e.0, agent)
  | none ↦ find_offer offer_id pool
]

abbrev pub rescind : String → ℕ → List ResolvingOffers → List ResolvingOffers
rescind offer_id i batches = elim (get_elem? batches i) [
  | none ↦ batches
  | some batch ↦ set batches i (record batch { rescinded = offer_id ∷ batch.rescinded })
]

-- `offerRescinded`
unfoldable pub offer_rescinded : String → Scheduler → Scheduler
offer_rescinded offer_id self = elim (lookup offer_id self.resolving) [
  | some i ↦ record self {
    resolving = remove offer_id self.resolving;
    batches = rescind offer_id i self.batches;
  }
  | none ↦ elim (find_offer offer_id self.offers) [
    | none ↦ self
    | some (role, agent) ↦ record self { offers = remove_offer role agent offer_id self.offers }
  ]
]
