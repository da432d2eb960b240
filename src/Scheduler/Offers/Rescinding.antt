-- ===== src/Scheduler/Offers/Rescinding.antt =====
-- `offerRescinded`: an offer that is taken back is not used any more.
use katsdpcontroller.Scheduler.Offers.Settling.{
  settle-batches, settle_rescinded, call_if_any_changes,
}
use katsdpcontroller.Scheduler.Offers.Tidy.{IsTidy}
use katsdpcontroller.Scheduler.Offers.Roles.{
  Event, handle, run, cancel_batch, cancel_batches, drop_roles, update_roles, release_offers,
  use_offers, offered, resolved, offer_gone, needs_roles, launched_on, released,
}
use katsdpcontroller.Prelude.{
  get_elem?_below, Option-cases, Dict, same_refl, lookup, lookup-Each, subst, Bool, Bool-cases,
  some_inj, length, get_elem?, set, get_elem?-set_self, get_elem?-set_ne, nat_eq, ◌==◌, member, ℕ,
  zero, suc, ◌<◌, String, ◌≡◌, refl, sym, ap, ◌∙◌, ◌≢◌, inl, inr, true, some, List, [], ◌∷◌, ◌++◌,
  arith, string_eq,
}
use katsdpcontroller.Scheduler.Offers.{
  Offer, Call, held, call_if_any, resolve_offers_done, start_batch, start_batches, resource_offers,
  find_offer, rescind, offer_rescinded, decline_offer, suppress_offers, revive_offers,
  ResolvingOffers, Scheduler,
}

-- The offer is marked in its batch.
abbrev pub IsMarked : String → ℕ → List ResolvingOffers → Type 0
IsMarked offer_id i batches =
    (batch : ResolvingOffers) × (get_elem? batches i ≡ some batch)
    × (member offer_id batch.rescinded ≡ true)

get_elem?-append {ℓ} :
    {A : Type ℓ} (xs ys : List A) (i : ℕ) {x : A}
    → get_elem? xs i ≡ some x
    → get_elem? (xs ++ ys) i ≡ some x
get_elem?-append [] ys i h = absurd (cc)
get_elem?-append (x ∷ xs) ys zero h = h
get_elem?-append (x ∷ xs) ys (suc i) h = get_elem?-append xs ys i h

below_get_elem? {ℓ} :
    {A : Type ℓ} (xs : List A) (i : ℕ) {x : A} → get_elem? xs i ≡ some x → i < length xs
below_get_elem? [] i h = absurd (cc)
below_get_elem? (x ∷ xs) zero h = omega arith
below_get_elem? (x ∷ xs) (suc i) h = omega (arith, below_get_elem? xs i h)

-- Replacing a batch keeps the mark, if the new batch has what the old one had.
set-IsMarked :
    (offer_id : String) (i j : ℕ) (batches : List ResolvingOffers) (old new : ResolvingOffers)
    → get_elem? batches j ≡ some old
    → (member offer_id old.rescinded ≡ true → member offer_id new.rescinded ≡ true)
    → IsMarked offer_id i batches
    → IsMarked offer_id i (set batches j new)
set-IsMarked offer_id i j batches old new at_j keeps (batch, at, marked) =
    elim (Bool-cases (j == i)) [
      | inl same ↦
          let e : j ≡ i = (nat_eq.same_iff j i).0 same in
          let is : old ≡ batch = some_inj (sym at_j ∙ ap (get_elem? batches) e ∙ at) in
          (
            new,
            rw (← e) (get_elem?-set_self batches j new (below_get_elem? batches j at_j)),
            keeps (rw is marked),
          )
      | inr other ↦
          let ne : j ≢ i = λ e. cc (other, (nat_eq.same_iff j i).1 e) in
          (batch, get_elem?-set_ne batches j i new ne ∙ at, marked)
    ]

call_if_any-batches :
    (call : List String → Call) (xs : List String) (self : Scheduler)
    → (call_if_any call xs self).batches ≡ self.batches
call_if_any-batches call [] self = refl
call_if_any-batches call (x ∷ xs) self = refl

module _ (offer_id : String) (i : ℕ) where
  start_batches-IsMarked :
      (to_resolve : Dict (List Offer)) (self : Scheduler)
      → IsMarked offer_id i self.batches
      → IsMarked offer_id i (start_batches to_resolve self).batches
  unfolding start_batches start_batch
  start_batches-IsMarked [] self h = h
  start_batches-IsMarked (e ∷ to_resolve) self (batch, at, marked) =
      start_batches-IsMarked to_resolve (start_batch e.0 e.1 self)
        (batch, get_elem?-append self.batches _ i at, marked)

  rescind-IsMarked :
      (gone : String) (j : ℕ) (batches : List ResolvingOffers)
      → IsMarked offer_id i batches
      → IsMarked offer_id i (rescind gone j batches)
  rescind-IsMarked gone j batches h = elim (Option-cases (get_elem? batches j)) [
    | inl absent ↦ rw (rescind, absent) h
    | inr (batch, at) ↦
        rw (rescind, at)
          (set-IsMarked offer_id i j batches batch
            (record batch { rescinded = gone ∷ batch.rescinded }) at (λ m. ground (arith, m)) h)
  ]

  cancel_batches-IsMarked :
      (suppress : List String) (resolving : Dict ℕ) (batches : List ResolvingOffers)
      → IsMarked offer_id i batches
      → IsMarked offer_id i (cancel_batches suppress resolving batches)
  unfolding cancel_batches
  cancel_batches-IsMarked suppress [] batches h = h
  cancel_batches-IsMarked suppress (e ∷ resolving) batches h =
      cancel_batches-IsMarked suppress resolving (cancel_batch suppress e.1 batches) (one batches h)
    where
      one :
          (bs : List ResolvingOffers)
          → IsMarked offer_id i bs
          → IsMarked offer_id i (cancel_batch suppress e.1 bs)
      one bs k = elim (Option-cases (get_elem? bs e.1)) [
        | inl absent ↦ rw (cancel_batch, absent) k
        | inr (batch, at) ↦ elim (Bool-cases (member batch.role suppress)) [
          | inr wanted ↦ rw (cancel_batch, at, wanted) k
          | inl unwanted ↦
              rw (cancel_batch, at, unwanted)
                (set-IsMarked offer_id i e.1 bs batch (record batch { is_cancelled = true }) at
                  (λ m. m) k)
        ]
      ]

  drop_roles-IsMarked :
      (suppress : List String) (self : Scheduler)
      → IsMarked offer_id i self.batches
      → IsMarked offer_id i (drop_roles suppress self).batches
  unfolding drop_roles
  drop_roles-IsMarked [] self h = h
  drop_roles-IsMarked (x ∷ xs) self h =
      subst (IsMarked offer_id i) (sym (call_if_any-batches decline_offer _ _))
        (cancel_batches-IsMarked (x ∷ xs) self.resolving self.batches h)

  use_offers-batches :
      (role agent : String) (ids : List String) (self : Scheduler)
      → (use_offers role agent ids self).batches ≡ self.batches
  unfolding use_offers
  use_offers-batches role agent [] self = refl
  use_offers-batches role agent (x ∷ ids) self = use_offers-batches role agent ids _

  resolve_offers_done-batches :
      (j : ℕ) (addressed : String → Bool) (self : Scheduler)
      → (resolve_offers_done j addressed self).batches ≡ self.batches
  unfolding resolve_offers_done
  resolve_offers_done-batches j addressed self = elim (Option-cases (get_elem? self.batches j)) [
    | inl absent ↦ rw (resolve_offers_done, absent) refl
    | inr (batch, at) ↦
        rw (resolve_offers_done, at)
          (call_if_any-batches decline_offer _ _
            ∙ (settle-batches batch addressed batch.offers self).0)
  ]

  offer_rescinded-IsMarked :
      (gone : String) (self : Scheduler)
      → IsMarked offer_id i self.batches
      → IsMarked offer_id i (offer_rescinded gone self).batches
  unfolding offer_rescinded
  offer_rescinded-IsMarked gone self h = elim (Option-cases (lookup gone self.resolving)) [
    | inr (j, at) ↦ rw (offer_rescinded, at) (rescind-IsMarked gone j self.batches h)
    | inl absent ↦ elim (Option-cases (find_offer gone self.offers)) [
      | inl missing ↦ rw (offer_rescinded, absent, missing) h
      | inr ((role, agent), found) ↦ rw (offer_rescinded, absent, found) h
    ]
  ]

  handle-IsMarked :
      (event : Event) (self : Scheduler)
      → IsMarked offer_id i self.batches
      → IsMarked offer_id i (handle event self).batches
  unfolding resource_offers update_roles release_offers
  handle-IsMarked (offered now offers) self h =
      subst (IsMarked offer_id i)
        (sym (call_if_any-batches suppress_offers _ _ ∙ call_if_any-batches decline_offer _ _))
        (start_batches-IsMarked _ self h)
  handle-IsMarked (resolved j addressed) self h =
      subst (IsMarked offer_id i) (sym (resolve_offers_done-batches j addressed self)) h
  handle-IsMarked (offer_gone gone) self h = offer_rescinded-IsMarked gone self h
  handle-IsMarked (needs_roles roles) self h =
      drop_roles-IsMarked _ _
        (subst (IsMarked offer_id i) (sym (call_if_any-batches revive_offers _ _)) h)
  handle-IsMarked (launched_on role agent ids) self h =
      subst (IsMarked offer_id i) (sym (use_offers-batches role agent ids self)) h
  handle-IsMarked (released useful) self h =
      subst (IsMarked offer_id i) (sym (call_if_any-batches decline_offer _ _)) h

  run-IsMarked :
      (events : List Event) (self : Scheduler)
      → IsMarked offer_id i self.batches
      → IsMarked offer_id i (run events self).batches
  run-IsMarked [] self h = h
  run-IsMarked (event ∷ events) self h =
      run-IsMarked events (handle event self) (handle-IsMarked event self h)

  offer_rescinded_marks :
      (self : Scheduler)
      → IsTidy self
      → lookup offer_id self.resolving ≡ some i
      → IsMarked offer_id i (offer_rescinded offer_id self).batches
  unfolding offer_rescinded
  offer_rescinded_marks self tidy at =
      let known =
        lookup-Each (λ _ j. j < length self.batches) offer_id i self.resolving tidy.known at in
      let (batch, at_i) = get_elem?_below self.batches i known in
      let marked : ResolvingOffers = record batch { rescinded = offer_id ∷ batch.rescinded } in
      rw (offer_rescinded, at, rescind, at_i)
        (marked, get_elem?-set_self self.batches i marked known, rw (same_refl offer_id) refl)

  -- With tidy offers, if an offer is rescinded while its batch is being resolved, then whatever
  -- happens in between, the end of that resolution does not change what the pool holds under the
  -- id of the offer.
  pub rescinded_never_pooled :
      (events : List Event) (addressed : String → Bool) (self : Scheduler)
      → IsTidy self
      → lookup offer_id self.resolving ≡ some i
      → (r a : String)
      → held r a offer_id
          (resolve_offers_done i addressed (run events (offer_rescinded offer_id self))).offers
        ≡ held r a offer_id (run events (offer_rescinded offer_id self)).offers
  unfolding resolve_offers_done
  rescinded_never_pooled events addressed self tidy at r a =
      let later = run events (offer_rescinded offer_id self) in
      let (batch, at_i, marked) =
        run-IsMarked events (offer_rescinded offer_id self) (offer_rescinded_marks self tidy at) in
      rw (resolve_offers_done, at_i)
        (ap (held r a offer_id) (call_if_any_changes decline_offer _ _).0
          ∙ (settle_rescinded batch addressed offer_id batch.offers later marked).1 r a)
