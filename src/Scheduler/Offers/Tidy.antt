-- ===== src/Scheduler/Offers/Tidy.antt =====
-- What holds of the offers at all times.
pub mod Pools
pub mod Batches
pub mod Dropping
pub mod Events
use katsdpcontroller.Prelude.{
  length, All, member, Dict, IsDict, Each, ℕ, ◌<◌, String, ◌≡◌, ◌≢◌, true, List, [],
}
use katsdpcontroller.Scheduler.Offers.{Offer, ResolvingOffers, Pool, Scheduler}

-- An offer stands under its own role, agent and id.
abbrev pub IsAt : String → String → String → Offer → Type 0
IsAt role agent offer_id offer =
    (offer.role ≡ role) × (offer.agent_id ≡ agent) × (offer.id ≡ offer_id)

abbrev pub IsTidyAgent : String → String → Dict Offer → Type 0
IsTidyAgent role agent offers = IsDict offers × (offers ≢ []) × Each (IsAt role agent) offers

abbrev pub IsTidyRole : List String → String → Dict (Dict Offer) → Type 0
IsTidyRole needed role agents =
    (member role needed ≡ true) × IsDict agents × Each (IsTidyAgent role) agents

abbrev pub IsTidyPool : List String → Pool → Type 0
IsTidyPool needed pool = IsDict pool × Each (IsTidyRole needed) pool

-- The offers that are resolved together are for one role.
abbrev pub AreFor : String → List Offer → Type 0
AreFor role = All (λ offer. offer.role ≡ role)

abbrev pub AreUniform : List ResolvingOffers → Type 0
AreUniform = All (λ batch. AreFor batch.role batch.offers)

abbrev pub AreKnown : ℕ → Dict ℕ → Type 0
AreKnown n = Each (λ offer_id i. i < n)

pub record IsTidy (self : Scheduler) : Type 0 where
  pub pool : IsTidyPool self.roles_needed self.offers
  pub uniform : AreUniform self.batches
  pub known : AreKnown (length self.batches) self.resolving
