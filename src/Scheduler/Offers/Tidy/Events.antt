-- ===== src/Scheduler/Offers/Tidy/Events.antt =====
-- Every event keeps the offers tidy.
use katsdpcontroller.Scheduler.Offers.Tidy.Dropping.{minus-IsTidyPool, keep_useful_roles-IsTidyPool}
use katsdpcontroller.Prelude.{
  Option-cases, length, get_elem?, All-get_elem?, member, lookup, remove, remove-Each, ℕ, ◌<◌,
  String, ◌≡◌, inl, inr, Bool, true, List, [], ◌∷◌, arith,
}
use katsdpcontroller.Scheduler.Offers.Tidy.Batches.{
  cancel_batches-AreUniform, sort_offers-AreSorted, start_batches-IsTidy, rescind-AreUniform,
}
use katsdpcontroller.Scheduler.Offers.Tidy.Pools.{remove_offer-IsTidyPool, add_offer-IsTidyPool}
use katsdpcontroller.Scheduler.Offers.Roles.{
  Event, handle, run, minus, pop_roles, drop_roles, update_roles, release_offers, new_scheduler,
  offered, resolved, offer_gone, needs_roles, launched_on, released, use_offers,
}
use katsdpcontroller.Scheduler.Offers.Tidy.{IsTidyPool, AreUniform, AreKnown, AreFor, IsTidy}
use katsdpcontroller.Scheduler.Offers.{
  Fate-cases, revive_offers, Offer, ResolvingOffers, Call, Scheduler, remove_offer, add_offer, fate,
  settle, call_if_any, resolve_offers_done, sort_offers, resource_offers, find_offer,
  offer_rescinded, decline_offer, suppress_offers, is_pooled,
}

call_if_any-IsTidy :
    (call : List String → Call) (xs : List String) (self : Scheduler)
    → IsTidy self
    → IsTidy (call_if_any call xs self)
call_if_any-IsTidy call [] self h = h
call_if_any-IsTidy call (x ∷ xs) self h = record {
  pool = h.pool;
  uniform = h.uniform;
  known = h.known;
}

fate_wanted :
    (batch : ResolvingOffers) (addressed : String → Bool) (needed : List String) (offer : Offer)
    → fate batch addressed needed offer ≡ is_pooled
    → member batch.role needed ≡ true
unfolding fate
fate_wanted batch addressed needed offer h = ground arith

settle-IsTidy :
    (batch : ResolvingOffers) (addressed : String → Bool) (offers : List Offer) (self : Scheduler)
    → AreFor batch.role offers
    → IsTidy self
    → IsTidy (settle batch addressed offers self).1
unfolding settle
settle-IsTidy batch addressed [] self same h = h
settle-IsTidy batch addressed (offer ∷ offers) self same h =
    let popped = record self { resolving = remove offer.id self.resolving } in
    let tidy : IsTidy popped = record {
      pool = h.pool;
      uniform = h.uniform;
      known = remove-Each (λ _ i. i < length self.batches) offer.id self.resolving h.known;
    } in
    elim (Fate-cases (fate batch addressed self.roles_needed offer)) [
      | inl f ↦ rw (settle, f) (settle-IsTidy batch addressed offers popped same.1 tidy)
      | inr (inl f) ↦ rw (settle, f) (settle-IsTidy batch addressed offers popped same.1 tidy)
      | inr (inr f) ↦
          rw (settle, f)
            (settle-IsTidy batch addressed offers
              (record popped { offers = add_offer batch.role offer self.offers; wakeup = true })
              same.1
              (record {
                pool =
                    add_offer-IsTidyPool self.roles_needed batch.role offer self.offers same.0
                      (fate_wanted batch addressed self.roles_needed offer f) h.pool;
                uniform = tidy.uniform;
                known = tidy.known;
              }))
    ]

resolve_offers_done-IsTidy :
    (i : ℕ) (addressed : String → Bool) (self : Scheduler)
    → IsTidy self
    → IsTidy (resolve_offers_done i addressed self)
unfolding resolve_offers_done
resolve_offers_done-IsTidy i addressed self h = elim (Option-cases (get_elem? self.batches i)) [
  | inl absent ↦ rw (resolve_offers_done, absent) h
  | inr (batch, at) ↦
      let same =
        All-get_elem? (λ (b : ResolvingOffers). AreFor b.role b.offers) self.batches i batch
          h.uniform at in
      rw (resolve_offers_done, at)
        (call_if_any-IsTidy decline_offer _ _
          (settle-IsTidy batch addressed batch.offers self same h))
]

resource_offers-IsTidy :
    (now : ℕ) (offers : List Offer) (self : Scheduler)
    → IsTidy self
    → IsTidy (resource_offers now offers self)
unfolding resource_offers
resource_offers-IsTidy now offers self h =
    let s =
      sort_offers now self.roles_needed offers
        (record { to_decline = []; to_resolve = []; to_suppress = [] }) in
    let sorted = sort_offers-AreSorted now self.roles_needed offers _ tt in
    call_if_any-IsTidy suppress_offers s.to_suppress _ (
      call_if_any-IsTidy decline_offer s.to_decline _
        (start_batches-IsTidy s.to_resolve self sorted h))

offer_rescinded-IsTidy :
    (offer_id : String) (self : Scheduler) → IsTidy self → IsTidy (offer_rescinded offer_id self)
unfolding offer_rescinded
offer_rescinded-IsTidy offer_id self h = elim (Option-cases (lookup offer_id self.resolving)) [
  | inr (i, at) ↦
      let (uniform, as_long) = rescind-AreUniform offer_id i self.batches h.uniform in
      rw (offer_rescinded, at)
        (record {
          pool = h.pool;
          uniform = uniform;
          known =
              rw as_long
                (remove-Each (λ _ j. j < length self.batches) offer_id self.resolving h.known);
        })
  | inl absent ↦ elim (Option-cases (find_offer offer_id self.offers)) [
    | inl nowhere ↦ rw (offer_rescinded, absent, nowhere) h
    | inr ((role, agent), found) ↦
        rw (offer_rescinded, absent, found)
          (record {
            pool = remove_offer-IsTidyPool self.roles_needed role agent offer_id self.offers h.pool;
            uniform = h.uniform;
            known = h.known;
          })
  ]
]

use_offers-IsTidy :
    (role agent : String) (ids : List String) (self : Scheduler)
    → IsTidy self
    → IsTidy (use_offers role agent ids self)
unfolding use_offers
use_offers-IsTidy role agent [] self h = h
use_offers-IsTidy role agent (offer_id ∷ ids) self h =
    use_offers-IsTidy role agent ids
      (record self { offers = remove_offer role agent offer_id self.offers })
      (record {
        pool = remove_offer-IsTidyPool self.roles_needed role agent offer_id self.offers h.pool;
        uniform = h.uniform;
        known = h.known;
      })

-- The state with the new roles, before the old ones are dropped.
record IsHalfTidy (suppress : List String) (self : Scheduler) : Type 0 where
  pool : IsTidyPool self.roles_needed (pop_roles suppress self.offers).1
  uniform : AreUniform self.batches
  known : AreKnown (length self.batches) self.resolving

call_if_any-IsHalfTidy :
    (call : List String → Call) (xs suppress : List String) (self : Scheduler)
    → IsHalfTidy suppress self
    → IsHalfTidy suppress (call_if_any call xs self)
call_if_any-IsHalfTidy call [] suppress self h = h
call_if_any-IsHalfTidy call (x ∷ xs) suppress self h = record {
  pool = h.pool;
  uniform = h.uniform;
  known = h.known;
}

drop_roles-IsTidy :
    (suppress : List String) (self : Scheduler)
    → IsHalfTidy suppress self
    → IsTidy (drop_roles suppress self)
unfolding drop_roles pop_roles
drop_roles-IsTidy [] self h = record { pool = h.pool; uniform = h.uniform; known = h.known }
drop_roles-IsTidy (x ∷ xs) self h =
    let (uniform, as_long) =
      cancel_batches-AreUniform (x ∷ xs) self.resolving self.batches h.uniform in
    call_if_any-IsTidy decline_offer _ _
      (record { pool = h.pool; uniform = uniform; known = rw as_long h.known })

update_roles-IsTidy :
    (new_roles : List String) (self : Scheduler)
    → IsTidy self
    → IsTidy (update_roles new_roles self)
unfolding update_roles
update_roles-IsTidy new_roles self h = drop_roles-IsTidy (minus self.roles_needed new_roles) _ (
    call_if_any-IsHalfTidy revive_offers (minus new_roles self.roles_needed) _ _ (record {
      pool = minus-IsTidyPool self.roles_needed new_roles self.offers h.pool;
      uniform = h.uniform;
      known = h.known;
    }))

release_offers-IsTidy :
    (useful : String → String → Bool) (self : Scheduler)
    → IsTidy self
    → IsTidy (release_offers useful self)
unfolding release_offers
release_offers-IsTidy useful self h = call_if_any-IsTidy decline_offer _ _ (record {
  pool = keep_useful_roles-IsTidyPool self.roles_needed useful self.offers h.pool;
  uniform = h.uniform;
  known = h.known;
})

handle-IsTidy : (event : Event) (self : Scheduler) → IsTidy self → IsTidy (handle event self)
handle-IsTidy (offered now offers) self h = resource_offers-IsTidy now offers self h
handle-IsTidy (resolved i addressed) self h = resolve_offers_done-IsTidy i addressed self h
handle-IsTidy (offer_gone offer_id) self h = offer_rescinded-IsTidy offer_id self h
handle-IsTidy (needs_roles roles) self h = update_roles-IsTidy roles self h
handle-IsTidy (launched_on role agent ids) self h = use_offers-IsTidy role agent ids self h
handle-IsTidy (released useful) self h = release_offers-IsTidy useful self h

-- From tidy offers, any sequence of new offers, ends of their resolution, rescinded offers,
-- changes of the needed roles, launches and releases leads to tidy offers: no dictionary has a
-- key twice, every offer in the pool stands under its own role, agent and id, no agent in the
-- pool is without offers, every role in the pool is needed, the offers that are resolved together
-- are all for their role, and each id in _resolving_offers belongs to a batch.
pub run-IsTidy : (events : List Event) (self : Scheduler) → IsTidy self → IsTidy (run events self)
run-IsTidy [] self h = h
run-IsTidy (event ∷ events) self h =
    run-IsTidy events (handle event self) (handle-IsTidy event self h)

pub new_scheduler-IsTidy : IsTidy new_scheduler
new_scheduler-IsTidy = record { pool = (tt, tt); uniform = tt; known = tt }
