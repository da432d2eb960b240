-- ===== src/Scheduler/Offers/Held.antt =====
-- What `_remove_offer` and the assignment to `_offers` change: one offer.
use katsdpcontroller.Prelude.{
  Option-cases, same_eq, insert, remove, ap, inl, inr, true, if◌then◌else◌, ◌==◌, Dict, lookup,
  lookup-insert, lookup-remove, String, ◌≡◌, refl, sym, ◌&&◌, Option, none, some, [], ◌∷◌, arith,
  nat_eq, string_eq,
}
use katsdpcontroller.Scheduler.Offers.{
  get_or_empty, add_offer, Offer, Pool, held, put_back, remove_offer,
}

abbrev unless_empty {ℓ} : {V : Type ℓ} → Dict V → Option (Dict V)
unless_empty [] = none
unless_empty (e ∷ d) = some (e ∷ d)

lookup-put_back {ℓ} :
    {V : Type ℓ} (k l : String) (inner : Dict V) (d : Dict (Dict V))
    → lookup k (put_back l inner d) ≡ (if k == l then unless_empty inner else lookup k d)
lookup-put_back k l [] d = lookup-remove k l d
lookup-put_back k l (e ∷ inner) d = lookup-insert k l (e ∷ inner) d

lookup-unless_empty {ℓ} :
    {V W : Type ℓ} (f : Dict V → Option W) (d : Dict V)
    → f [] ≡ none
    → elim (unless_empty d) [ none ↦ none | some d' ↦ f d' ] ≡ f d
lookup-unless_empty f [] h = sym h
lookup-unless_empty f (e ∷ d) h = refl

pub alike {ℓ} : {V : Type ℓ} (k l : String) (d : Dict V) → (k == l) ≡ true → lookup k d ≡ lookup l d
alike k l d h = ap (λ x. lookup x d) (same_eq k l h)

-- one level of `held`
abbrev pub at_agent : String → String → Dict (Dict Offer) → Option Offer
at_agent agent offer_id agents = elim (lookup agent agents) [
  | none ↦ none
  | some offers ↦ lookup offer_id offers
]

at_agent-put_back :
    (a i agent : String) (offers : Dict Offer) (agents : Dict (Dict Offer))
    → at_agent a i (put_back agent offers agents)
      ≡ (if a == agent then lookup i offers else at_agent a i agents)
at_agent-put_back a i agent offers agents =
    ground
      (arith, lookup-put_back a agent offers agents, lookup-unless_empty (lookup i) offers refl)

held-put_back :
    (r a i role : String) (agents : Dict (Dict Offer)) (pool : Pool)
    → held r a i (put_back role agents pool)
      ≡ (if r == role then at_agent a i agents else held r a i pool)
held-put_back r a i role agents pool =
    ground
      (arith, lookup-put_back r role agents pool, lookup-unless_empty (at_agent a i) agents refl)

pub held-remove_offer :
    (role agent offer_id r a i : String) (pool : Pool)
    → held r a i (remove_offer role agent offer_id pool)
      ≡ (if r == role && a == agent && i == offer_id then none else held r a i pool)
unfolding remove_offer
held-remove_offer role agent offer_id r a i pool = elim (Option-cases (lookup role pool)) [
  | inl absent ↦ ground (arith, absent, alike r role pool)
  | inr (agents, found) ↦ elim (Option-cases (lookup agent agents)) [
    | inl absent ↦ ground (arith, found, absent, alike r role pool, alike a agent agents)
    | inr (offers, at) ↦ elim (Option-cases (lookup offer_id offers)) [
      | inl absent ↦ ground (
        arith,
        found,
        at,
        absent,
        alike r role pool,
        alike a agent agents,
        alike i offer_id offers,
      )
      | inr (offer, here) ↦ ground (
        arith,
        found,
        at,
        here,
        alike r role pool,
        alike a agent agents,
        held-put_back r a i role (put_back agent (remove offer_id offers) agents) pool,
        at_agent-put_back a i agent (remove offer_id offers) agents,
        lookup-remove i offer_id offers,
      )
    ]
  ]
]

pub held-add_offer :
    (role : String) (offer : Offer) (r a i : String) (pool : Pool)
    → held r a i (add_offer role offer pool)
      ≡ (if r == role && a == offer.agent_id && i == offer.id then some offer else held r a i pool)
unfolding add_offer
held-add_offer role offer r a i pool =
    let agents = get_or_empty (lookup role pool) in
    let offers = get_or_empty (lookup offer.agent_id agents) in
    ground (
      arith,
      lookup-insert r role (insert offer.agent_id (insert offer.id offer offers) agents) pool,
      lookup-insert a offer.agent_id (insert offer.id offer offers) agents,
      lookup-insert i offer.id offer offers,
      alike r role pool,
      alike a offer.agent_id agents,
    )
