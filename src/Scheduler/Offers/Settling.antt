-- ===== src/Scheduler/Offers/Settling.antt =====
-- `_resolve_offers_done`: where each offer of the batch ends.
use katsdpcontroller.Prelude.{
  ap₂, not, ◌&&◌, ◌||◌, if◌then◌else◌, get_elem?, ℕ, ap, some, ◌++◌, sym, subst, same_refl, All,
  Bool-cases, ◌==◌, member, same_eq, remove, String, ◌≡◌, refl, ◌∙◌, ◌≢◌, inl, inr, Bool, true,
  false, none, List, [], ◌∷◌, arith, nat_eq, string_eq,
}
use katsdpcontroller.Scheduler.Offers.Held.{held-add_offer}
use katsdpcontroller.Scheduler.Offers.{
  Call, call_if_any, resolve_offers_done, decline_offer, Fate-cases, Offer, ResolvingOffers, Pool,
  Scheduler, held, add_offer, fate, settle, is_rescinded, is_pooled,
}

pub settle-batches :
    (batch : ResolvingOffers) (addressed : String → Bool) (offers : List Offer) (self : Scheduler)
    → ((settle batch addressed offers self).1.batches ≡ self.batches)
      × ((settle batch addressed offers self).1.roles_needed ≡ self.roles_needed)
      × ((settle batch addressed offers self).1.calls ≡ self.calls)
unfolding settle
settle-batches batch addressed [] self = (refl, refl, refl)
settle-batches batch addressed (offer ∷ offers) self =
    let popped = record self { resolving = remove offer.id self.resolving } in
    elim (Fate-cases (fate batch addressed self.roles_needed offer)) [
      | inl f ↦ rw (settle, f) (settle-batches batch addressed offers popped)
      | inr (inl f) ↦ rw (settle, f) (settle-batches batch addressed offers popped)
      | inr (inr f) ↦
          rw (settle, f)
            (settle-batches batch addressed offers
              (record popped { offers = add_offer batch.role offer self.offers; wakeup = true }))
    ]

-- An offer of the batch that is wanted: it was not rescinded, has an address, and its role is needed.
abbrev pub is_wanted : (String → Bool) → ResolvingOffers → List String → Offer → Bool
is_wanted addressed batch needed offer =
    not (member offer.id batch.rescinded) && addressed offer.id && member batch.role needed

-- The ids of the offers that are neither rescinded nor wanted, in order.
abbrev pub unwanted : (String → Bool) → ResolvingOffers → List String → List Offer → List String
unwanted addressed batch needed [] = []
unwanted addressed batch needed (offer ∷ offers) =
    let rest = unwanted addressed batch needed offers in
    if member offer.id batch.rescinded || is_wanted addressed batch needed offer
    then rest
    else offer.id ∷ rest

-- Where an offer is afterwards.
pub record IsPlaced (addressed : String → Bool) (batch : ResolvingOffers) (needed : List String)
    (before after : Pool) (offer : Offer) : Type 0 where
  pub if_rescinded :
      member offer.id batch.rescinded ≡ true
      → (r a : String) → held r a offer.id after ≡ held r a offer.id before
  pub if_wanted :
      is_wanted addressed batch needed offer ≡ true
      → held batch.role offer.agent_id offer.id after ≢ none

module _ (batch : ResolvingOffers) (addressed : String → Bool) where
  fate_rescinded :
      (needed : List String) (offer : Offer) (offer_id : String)
      → member offer_id batch.rescinded ≡ true
      → (offer_id == offer.id) ≡ true
      → fate batch addressed needed offer ≡ is_rescinded
  unfolding fate
  fate_rescinded needed offer offer_id gone same =
      let e = same_eq offer_id offer.id same in
      let gone' : member offer.id batch.rescinded ≡ true = rw (← e) gone in ground (arith, gone')

  -- A rescinded offer is neither declined nor put into the pool.
  pub settle_rescinded :
      (offer_id : String) (offers : List Offer) (self : Scheduler)
      → member offer_id batch.rescinded ≡ true
      → (member offer_id (settle batch addressed offers self).0 ≡ false)
        × ((r a : String)
            → held r a offer_id (settle batch addressed offers self).1.offers
              ≡ held r a offer_id self.offers)
  unfolding settle
  settle_rescinded offer_id [] self gone = (refl, λ r a. refl)
  settle_rescinded offer_id (offer ∷ offers) self gone =
      let popped = record self { resolving = remove offer.id self.resolving } in
      let ih = settle_rescinded offer_id offers popped gone in
      let needed = self.roles_needed in
      elim (Fate-cases (fate batch addressed needed offer)) [
        | inl f ↦ rw (settle, f) ih
        | inr (inl f) ↦ elim (Bool-cases (offer_id == offer.id)) [
          | inl same ↦ absurd (cc (f, fate_rescinded needed offer offer_id gone same))
          | inr other ↦ rw (settle, f) (rw (other, ih.0), ih.1)
        ]
        | inr (inr f) ↦ elim (Bool-cases (offer_id == offer.id)) [
          | inl same ↦ absurd (cc (f, fate_rescinded needed offer offer_id gone same))
          | inr other ↦
              let pooled = record popped {
                offers = add_offer batch.role offer self.offers;
                wakeup = true;
              } in
              let ih' = settle_rescinded offer_id offers pooled gone in
              rw (settle, f)
                (
                  ih'.0,
                  λ r a.
                      ih'.1 r a
                      ∙ ground (arith, held-add_offer batch.role offer r a offer_id self.offers),
                )
        ]
      ]

  -- What is in the pool stays there.
  settle_keeps :
      (r a i : String) (offers : List Offer) (self : Scheduler)
      → held r a i self.offers ≢ none
      → held r a i (settle batch addressed offers self).1.offers ≢ none
  unfolding settle
  settle_keeps r a i [] self h = h
  settle_keeps r a i (offer ∷ offers) self h =
      let popped = record self { resolving = remove offer.id self.resolving } in
      elim (Fate-cases (fate batch addressed self.roles_needed offer)) [
        | inl f ↦ rw (settle, f) (settle_keeps r a i offers popped h)
        | inr (inl f) ↦ rw (settle, f) (settle_keeps r a i offers popped h)
        | inr (inr f) ↦
            rw (settle, f)
              (settle_keeps r a i offers
                (record popped { offers = add_offer batch.role offer self.offers; wakeup = true })
                (λ e. ground (arith, held-add_offer batch.role offer r a i self.offers)))
      ]

  -- What is declined.
  settle-unwanted :
      (offers : List Offer) (self : Scheduler)
      → (settle batch addressed offers self).0 ≡ unwanted addressed batch self.roles_needed offers
  unfolding settle fate
  settle-unwanted [] self = refl
  settle-unwanted (offer ∷ offers) self =
      let popped = record self { resolving = remove offer.id self.resolving } in
      let pool = add_offer batch.role offer self.offers in
      let pooled = record popped { offers = pool; wakeup = true } in
      ground (arith, settle-unwanted offers popped, settle-unwanted offers pooled)

  wanted_pooled :
      (needed : List String) (offer : Offer)
      → is_wanted addressed batch needed offer ≡ true
      → fate batch addressed needed offer ≡ is_pooled
  unfolding fate
  wanted_pooled needed offer wanted = ground arith

  -- What is wanted is in the pool.
  abbrev AreHeld : List String → Pool → List Offer → Type 0
  AreHeld needed after = All (λ offer.
      is_wanted addressed batch needed offer ≡ true
      → held batch.role offer.agent_id offer.id after ≢ none)

  settle-AreHeld :
      (offers : List Offer) (self : Scheduler)
      → AreHeld self.roles_needed (settle batch addressed offers self).1.offers offers
  unfolding settle
  settle-AreHeld [] self = tt
  settle-AreHeld (offer ∷ offers) self =
      let popped = record self { resolving = remove offer.id self.resolving } in
      let pool = add_offer batch.role offer self.offers in
      let pooled = record popped { offers = pool; wakeup = true } in
      let needed = self.roles_needed in
      let added : held batch.role offer.agent_id offer.id pool ≢ none = λ e. ground (
        arith,
        held-add_offer batch.role offer batch.role offer.agent_id offer.id self.offers,
        same_refl batch.role,
        same_refl offer.agent_id,
        same_refl offer.id,
      ) in
      elim (Fate-cases (fate batch addressed needed offer)) [
        | inl f ↦
            let is : (settle batch addressed (offer ∷ offers) self).1
                ≡ (settle batch addressed offers popped).1 =
              rw (settle, f) refl in
            subst (λ out. AreHeld needed out.offers (offer ∷ offers)) (sym is)
              (λ w. absurd (cc (f, wanted_pooled needed offer w)), settle-AreHeld offers popped)
        | inr (inl f) ↦
            let is : (settle batch addressed (offer ∷ offers) self).1
                ≡ (settle batch addressed offers popped).1 =
              rw (settle, f) refl in
            subst (λ out. AreHeld needed out.offers (offer ∷ offers)) (sym is)
              (λ w. absurd (cc (f, wanted_pooled needed offer w)), settle-AreHeld offers popped)
        | inr (inr f) ↦
            let is : (settle batch addressed (offer ∷ offers) self).1
                ≡ (settle batch addressed offers pooled).1 =
              rw (settle, f) refl in
            subst (λ out. AreHeld needed out.offers (offer ∷ offers)) (sym is)
              (
                λ w. settle_keeps batch.role offer.agent_id offer.id offers pooled added,
                settle-AreHeld offers pooled,
              )
      ]

  -- Where the offers of a list are, if all that the list holds is in the batch.
  pub settle-ArePlaced :
      (offers more : List Offer) (self : Scheduler)
      → AreHeld self.roles_needed (settle batch addressed more self).1.offers offers
      → All
          (IsPlaced addressed batch self.roles_needed self.offers
            (settle batch addressed more self).1.offers)
          offers
  settle-ArePlaced [] more self h = tt
  settle-ArePlaced (offer ∷ offers) more self h = (
    record { if_rescinded = λ gone. (settle_rescinded offer.id more self gone).1; if_wanted = h.0 },
    settle-ArePlaced offers more self h.1,
  )

abbrev pub called : (List String → Call) → List String → List Call → List Call
called call [] calls = calls
called call (x ∷ xs) calls = calls ++ call (x ∷ xs) ∷ []

pub call_if_any_changes :
    (call : List String → Call) (xs : List String) (self : Scheduler)
    → ((call_if_any call xs self).offers ≡ self.offers)
      × ((call_if_any call xs self).calls ≡ called call xs self.calls)
call_if_any_changes call [] self = (refl, refl)
call_if_any_changes call (x ∷ xs) self = (refl, refl)

pub record Resolved (addressed : String → Bool) (batch : ResolvingOffers) (self after : Scheduler)
    : Type 0 where
  pub calls_are :
      after.calls
      ≡ called decline_offer (unwanted addressed batch self.roles_needed batch.offers) self.calls
  pub placed :
      All (IsPlaced addressed batch self.roles_needed self.offers after.offers) batch.offers

-- When the batch with a number that exists has been resolved, the offers of the batch that were
-- not rescinded and have no address or a role that is not needed are declined, in order, in one
-- call unless there are none, and no others; what the pool holds under the id of a rescinded
-- offer is as before; and an offer that was not rescinded, has an address and whose role is
-- needed is in the pool.
pub resolve_offers_done-Resolved :
    (i : ℕ) (addressed : String → Bool) (batch : ResolvingOffers) (self : Scheduler)
    → get_elem? self.batches i ≡ some batch
    → Resolved addressed batch self (resolve_offers_done i addressed self)
unfolding resolve_offers_done
resolve_offers_done-Resolved i addressed batch self at =
    let out = settle batch addressed batch.offers self in
    let (same_offers, new_calls) = call_if_any_changes decline_offer out.0 out.1 in
    let (_, _, same_calls) = settle-batches batch addressed batch.offers self in
    let is : resolve_offers_done i addressed self ≡ call_if_any decline_offer out.0 out.1 =
      rw (resolve_offers_done, at) refl in
    let declined = settle-unwanted batch addressed batch.offers self in
    record {
      calls_are = ap (λ s. s.calls) is ∙ new_calls ∙ ap₂ (called decline_offer) declined same_calls;
      placed =
          subst
            (λ pool. All (IsPlaced addressed batch self.roles_needed self.offers pool) batch.offers)
            (sym (ap (λ s. s.offers) is ∙ same_offers))
            (settle-ArePlaced batch addressed batch.offers batch.offers self
              (settle-AreHeld batch addressed batch.offers self));
    }
