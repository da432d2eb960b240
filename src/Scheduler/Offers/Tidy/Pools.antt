-- ===== src/Scheduler/Offers/Tidy/Pools.antt =====
-- Adding and removing offers keeps the pool tidy.
use katsdpcontroller.Prelude.{
  Option-cases, member, Dict, lookup, insert, remove, IsDict, insert-IsDict, remove-IsDict, Each,
  insert-Each, remove-Each, lookup-Each, String, ◌≡◌, refl, ◌≢◌, inl, inr, true, List, [], ◌∷◌,
  arith,
}
use katsdpcontroller.Scheduler.Offers.Tidy.{IsAt, IsTidyAgent, IsTidyRole, IsTidyPool}
use katsdpcontroller.Scheduler.Offers.{Offer, Pool, get_or_empty, put_back, remove_offer, add_offer}

module _ {ℓ} {V : Type ℓ} where
  put_back-IsDict :
      (k : String) (inner : Dict V) (d : Dict (Dict V)) → IsDict d → IsDict (put_back k inner d)
  put_back-IsDict k [] d h = remove-IsDict k d h
  put_back-IsDict k (e ∷ inner) d h = insert-IsDict k (e ∷ inner) d h

  put_back-Each {κ} :
      (P : String → Dict V → Type κ) (k : String) (inner : Dict V) (d : Dict (Dict V))
      → Each P d
      → (inner ≢ [] → P k inner)
      → Each P (put_back k inner d)
  put_back-Each P k [] d h p = remove-Each P k d h
  put_back-Each P k (e ∷ inner) d h p = insert-Each P k (e ∷ inner) d h (p (λ c. cc))

insert_not_empty {ℓ} : {V : Type ℓ} (k : String) (v : V) (d : Dict V) → insert k v d ≢ []
insert_not_empty k v [] h = cc
insert_not_empty k v (e ∷ d) h = ground arith

module _ (needed : List String) where
  pub remove_offer-IsTidyPool :
      (role agent offer_id : String) (pool : Pool)
      → IsTidyPool needed pool
      → IsTidyPool needed (remove_offer role agent offer_id pool)
  unfolding remove_offer
  remove_offer-IsTidyPool role agent offer_id pool h = elim (Option-cases (lookup role pool)) [
    | inl absent ↦ rw (remove_offer, absent) h
    | inr (agents, found) ↦ elim (Option-cases (lookup agent agents)) [
      | inl absent ↦ rw (remove_offer, found, absent) h
      | inr (offers, at) ↦ elim (Option-cases (lookup offer_id offers)) [
        | inl absent ↦ rw (remove_offer, found, at, absent) h
        | inr (offer, here) ↦
            let (is_needed, is_dict, each) =
              lookup-Each (IsTidyRole needed) role agents pool h.1 found in
            let (offers_dict, some_offers, offers_at) =
              lookup-Each (IsTidyAgent role) agent offers agents each at in
            let left = remove offer_id offers in
            let agents' = put_back agent left agents in
            rw (remove_offer, found, at, here)
              (
                put_back-IsDict role agents' pool h.0,
                put_back-Each (IsTidyRole needed) role agents' pool h.1 (λ _. (
                  is_needed,
                  put_back-IsDict agent left agents is_dict,
                  put_back-Each (IsTidyAgent role) agent left agents each (λ ne. (
                    remove-IsDict offer_id offers offers_dict,
                    ne,
                    remove-Each (IsAt role agent) offer_id offers offers_at,
                  )),
                )),
              )
      ]
    ]
  ]

  role_tidy :
      (role : String) (pool : Pool)
      → IsTidyPool needed pool
      → IsDict (get_or_empty (lookup role pool))
        × Each (IsTidyAgent role) (get_or_empty (lookup role pool))
  role_tidy role pool h = elim (Option-cases (lookup role pool)) [
    | inl absent ↦ rw absent (tt, tt)
    | inr (agents, found) ↦
        let (is_needed, is_dict, each) =
          lookup-Each (IsTidyRole needed) role agents pool h.1 found in
        rw found (is_dict, each)
  ]

  agent_tidy :
      (role agent : String) (agents : Dict (Dict Offer))
      → Each (IsTidyAgent role) agents
      → IsDict (get_or_empty (lookup agent agents))
        × Each (IsAt role agent) (get_or_empty (lookup agent agents))
  agent_tidy role agent agents h = elim (Option-cases (lookup agent agents)) [
    | inl absent ↦ rw absent (tt, tt)
    | inr (offers, found) ↦
        let (is_dict, some_offers, each) =
          lookup-Each (IsTidyAgent role) agent offers agents h found in
        rw found (is_dict, each)
  ]

  pub add_offer-IsTidyPool :
      (role : String) (offer : Offer) (pool : Pool)
      → offer.role ≡ role
      → member role needed ≡ true
      → IsTidyPool needed pool
      → IsTidyPool needed (add_offer role offer pool)
  unfolding add_offer
  add_offer-IsTidyPool role offer pool same is_needed h =
      let agents = get_or_empty (lookup role pool) in
      let offers = get_or_empty (lookup offer.agent_id agents) in
      let (agents_dict, agents_each) = role_tidy role pool h in
      let (offers_dict, offers_each) = agent_tidy role offer.agent_id agents agents_each in
      let offers' = insert offer.id offer offers in
      let agents' = insert offer.agent_id offers' agents in
      let tidy_agent : IsTidyAgent role offer.agent_id offers' = (
        insert-IsDict offer.id offer offers offers_dict,
        insert_not_empty offer.id offer offers,
        insert-Each (IsAt role offer.agent_id) offer.id offer offers offers_each (same, refl, refl),
      ) in
      let tidy_role : IsTidyRole needed role agents' = (
        is_needed,
        insert-IsDict offer.agent_id offers' agents agents_dict,
        insert-Each (IsTidyAgent role) offer.agent_id offers' agents agents_each tidy_agent,
      ) in
      (
        insert-IsDict role agents' pool h.0,
        insert-Each (IsTidyRole needed) role agents' pool h.1 tidy_role,
      )
