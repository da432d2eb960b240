-- ===== src/Scheduler/Offers/Searching.antt =====
-- `offerRescinded` for an offer in the pool: the search finds it, and it alone is removed.
use katsdpcontroller.Prelude.{
  if◌then◌else◌, Bool-cases, Option-cases, some_inj, ◌==◌, Dict, same_refl, lookup, IsDict, String,
  ◌≡◌, refl, ap, ◌∙◌, ◌≢◌, inl, inr, ◌&&◌, none, some, List, [], ◌∷◌, arith, nat_eq, string_eq,
}
use katsdpcontroller.Scheduler.Offers.Tidy.{IsTidyPool, IsTidy}
use katsdpcontroller.Scheduler.Offers.Held.{alike, at_agent, held-remove_offer}
use katsdpcontroller.Scheduler.Offers.{
  Offer, Pool, Scheduler, held, find_agent, find_offer, offer_rescinded,
}

module _ (offer_id : String) where
  find_agent_missing :
      (agents : Dict (Dict Offer)) (a : String)
      → find_agent offer_id agents ≡ none
      → at_agent a offer_id agents ≡ none
  unfolding find_agent
  find_agent_missing [] a h = refl
  find_agent_missing (e ∷ agents) a h = elim (Option-cases (lookup offer_id e.1)) [
    | inr (offer, here) ↦ absurd (cc (rw (find_agent, here) at h))
    | inl absent ↦
        ground (arith, absent, find_agent_missing agents a (rw (find_agent, absent) at h))
  ]

  find_agent_found :
      (agents : Dict (Dict Offer)) (a : String)
      → IsDict agents
      → find_agent offer_id agents ≡ some a
      → (at_agent a offer_id agents ≢ none) × (lookup a agents ≢ none)
  unfolding find_agent
  find_agent_found [] a d h = absurd (cc)
  find_agent_found (e ∷ agents) a d h = elim (Option-cases (lookup offer_id e.1)) [
    | inr (offer, here) ↦
        let same : e.0 ≡ a = some_inj (rw (find_agent, here) at h) in
        let self_same = same_refl e.0 in
        rw (← same) ((λ z. ground (arith, here, self_same)), (λ z. ground (arith, self_same)))
    | inl absent ↦
        let (ih, there) = find_agent_found agents a d.1 (rw (find_agent, absent) at h) in
        elim (Bool-cases (a == e.0)) [
          | inl same ↦ absurd (there (alike a e.0 agents same ∙ d.0))
          | inr other ↦
              ((λ z. ih (ground (arith, other, z))), (λ z. there (ground (arith, other, z))))
        ]
  ]

  find_offer_missing :
      (pool : Pool) (r a : String) → find_offer offer_id pool ≡ none → held r a offer_id pool ≡ none
  unfolding find_offer
  find_offer_missing [] r a h = refl
  find_offer_missing (e ∷ pool) r a h = elim (Option-cases (find_agent offer_id e.1)) [
    | inr (agent, here) ↦ absurd (cc (rw (find_offer, here) at h))
    | inl absent ↦ ground (
      arith,
      find_agent_missing e.1 a absent,
      find_offer_missing pool r a (rw (find_offer, absent) at h),
    )
  ]

  find_offer_found :
      (needed : List String) (pool : Pool) (r a : String)
      → IsTidyPool needed pool
      → find_offer offer_id pool ≡ some (r, a)
      → (held r a offer_id pool ≢ none) × (lookup r pool ≢ none)
  unfolding find_offer
  find_offer_found needed [] r a tidy h = absurd (cc)
  find_offer_found needed (e ∷ pool) r a ((new, d), (here_tidy, each)) h =
      elim (Option-cases (find_agent offer_id e.1)) [
        | inr (agent, here) ↦
            let place : (e.0, agent) ≡ (r, a) = some_inj (rw (find_offer, here) at h) in
            let same : e.0 ≡ r = ap (λ p. p.0) place in
            let same_agent : agent ≡ a = ap (λ p. p.1) place in
            let self_same = same_refl e.0 in
            let (_, agents_dict, _) = here_tidy in
            let (found, _) = find_agent_found e.1 agent agents_dict here in
            rw (← same, ← same_agent)
              ((λ z. found (ground (arith, self_same, z))), (λ z. ground (arith, self_same)))
        | inl absent ↦
            let (ih, there) =
              find_offer_found needed pool r a (d, each) (rw (find_offer, absent) at h) in
            elim (Bool-cases (r == e.0)) [
              | inl same ↦ absurd (there (alike r e.0 pool same ∙ new))
              | inr other ↦
                  ((λ z. ih (ground (arith, other, z))), (λ z. there (ground (arith, other, z))))
            ]
      ]

  -- What becomes of the pool.
  pub data Withdrawn (before after : Pool) : Type 0 where
    nowhere :
        ((r a : String) → held r a offer_id before ≡ none) → after ≡ before → Withdrawn before after
    from :
        (role agent : String)
        → held role agent offer_id before ≢ none
        → ((r a i : String)
            → held r a i after
              ≡ (if r == role && a == agent && i == offer_id then none else held r a i before))
        → Withdrawn before after

  -- With tidy offers, if an offer is rescinded that is not being resolved, then either it is
  -- nowhere in the pool, which does not change, or it is in the pool under some role and agent,
  -- and after that it is not there any more while the pool holds all else as before.
  pub offer_rescinded-Withdrawn :
      (self : Scheduler)
      → IsTidy self
      → lookup offer_id self.resolving ≡ none
      → Withdrawn self.offers (offer_rescinded offer_id self).offers
  unfolding offer_rescinded
  offer_rescinded-Withdrawn self tidy absent =
      elim (Option-cases (find_offer offer_id self.offers)) [
        | inl missing ↦
            nowhere (λ r a. find_offer_missing self.offers r a missing)
              (rw (offer_rescinded, absent, missing) refl)
        | inr ((role, agent), found) ↦
            from role agent
              (find_offer_found self.roles_needed self.offers role agent tidy.pool found).0
              (λ r a i.
                rw (offer_rescinded, absent, found)
                  (held-remove_offer role agent offer_id r a i self.offers))
      ]
