-- ===== src/Scheduler/Offers/Tidy/Batches.antt =====
-- The batches of offers that are being resolved.
use katsdpcontroller.Prelude.{
  length-set, All-set, All-get_elem?, Bool-cases, Option-cases, length, get_elem?, length-append,
  All-append, member, Dict, lookup, insert, Each, insert-Each, lookup-Each, ℕ, ◌+◌, ◌≤◌, ◌<◌,
  String, ◌≡◌, refl, ◌∙◌, inl, inr, true, false, List, [], ◌∷◌, ◌++◌, arith,
}
use katsdpcontroller.Scheduler.Offers.Roles.{cancel_batch, cancel_batches}
use katsdpcontroller.Scheduler.Offers.Tidy.{AreFor, AreUniform, AreKnown, IsTidy}
use katsdpcontroller.Scheduler.Offers.{
  Offer, ResolvingOffers, Scheduler, is_unavailable, Sorted, offers_for, sort_offer, sort_offers,
  insert_all, start_batch, start_batches, rescind,
}

-- The offers that are to be resolved for a role are offers for it.
abbrev pub AreSorted : Sorted → Type 0
AreSorted s = Each AreFor s.to_resolve

sort_offer-AreSorted :
    (now : ℕ) (needed : List String) (offer : Offer) (s : Sorted)
    → AreSorted s
    → AreSorted (sort_offer now needed offer s)
unfolding sort_offer
sort_offer-AreSorted now needed offer s h = elim (Bool-cases (is_unavailable now offer)) [
  | inl gone ↦ rw (sort_offer, gone) h
  | inr there ↦ elim (Bool-cases (member offer.role needed)) [
    | inr unwanted ↦ rw (sort_offer, there, unwanted) h
    | inl wanted ↦
        let old = offers_for (lookup offer.role s.to_resolve) in
        let old_for : AreFor offer.role old = elim (Option-cases (lookup offer.role s.to_resolve)) [
          | inl absent ↦ rw absent tt
          | inr (offers, found) ↦
              rw found (lookup-Each AreFor offer.role offers s.to_resolve h found)
        ] in
        rw (sort_offer, there, wanted)
          (insert-Each AreFor offer.role (old ++ offer ∷ []) s.to_resolve h
            (All-append (λ (o : Offer). o.role ≡ offer.role) old (offer ∷ []) old_for (refl, tt)))
  ]
]

pub sort_offers-AreSorted :
    (now : ℕ) (needed : List String) (offers : List Offer) (s : Sorted)
    → AreSorted s
    → AreSorted (sort_offers now needed offers s)
unfolding sort_offers
sort_offers-AreSorted now needed [] s h = h
sort_offers-AreSorted now needed (offer ∷ offers) s h =
    sort_offers-AreSorted now needed offers (sort_offer now needed offer s)
      (sort_offer-AreSorted now needed offer s h)

pub AreKnown-le :
    (n m : ℕ) (resolving : Dict ℕ) → n ≤ m → AreKnown n resolving → AreKnown m resolving
AreKnown-le n m [] le h = tt
AreKnown-le n m (e ∷ resolving) le h = (omega (arith, h.0), AreKnown-le n m resolving le h.1)

insert_all-AreKnown :
    (offers : List Offer) (i n : ℕ) (resolving : Dict ℕ)
    → i < n
    → AreKnown n resolving
    → AreKnown n (insert_all offers i resolving)
insert_all-AreKnown [] i n resolving lt h = h
insert_all-AreKnown (offer ∷ offers) i n resolving lt h =
    insert_all-AreKnown offers i n (insert offer.id i resolving) lt
      (insert-Each (λ _ j. j < n) offer.id i resolving h lt)

start_batch-IsTidy :
    (role : String) (offers : List Offer) (self : Scheduler)
    → AreFor role offers
    → IsTidy self
    → IsTidy (start_batch role offers self)
unfolding start_batch
start_batch-IsTidy role offers self same h =
    let n = length self.batches in
    let new : ResolvingOffers = record {
      offers = offers;
      role = role;
      rescinded = [];
      is_cancelled = false;
    } in
    let grows : length (self.batches ++ new ∷ []) ≡ n + 1 =
      omega (arith, length-append self.batches (new ∷ [])) in
    record {
      pool = h.pool;
      uniform =
          All-append (λ (b : ResolvingOffers). AreFor b.role b.offers) self.batches (new ∷ [])
            h.uniform (same, tt);
      known = rw grows (
          insert_all-AreKnown offers n (n + 1) self.resolving (omega arith)
            (AreKnown-le n (n + 1) self.resolving (omega arith) h.known));
    }

pub start_batches-IsTidy :
    (to_resolve : Dict (List Offer)) (self : Scheduler)
    → Each AreFor to_resolve
    → IsTidy self
    → IsTidy (start_batches to_resolve self)
unfolding start_batches
start_batches-IsTidy [] self same h = h
start_batches-IsTidy (e ∷ to_resolve) self same h =
    start_batches-IsTidy to_resolve (start_batch e.0 e.1 self) same.1
      (start_batch-IsTidy e.0 e.1 self same.0 h)

-- Marks on a batch change neither the number of batches nor their offers.
pub rescind-AreUniform :
    (offer_id : String) (i : ℕ) (batches : List ResolvingOffers)
    → AreUniform batches
    → AreUniform (rescind offer_id i batches)
      × (length (rescind offer_id i batches) ≡ length batches)
rescind-AreUniform offer_id i batches h = elim (Option-cases (get_elem? batches i)) [
  | inl absent ↦ rw (rescind, absent) (h, refl)
  | inr (batch, at) ↦
      let uniform = λ (b : ResolvingOffers). AreFor b.role b.offers in
      let marked : ResolvingOffers = record batch { rescinded = offer_id ∷ batch.rescinded } in
      rw (rescind, at)
        (
          All-set uniform batches i marked h (All-get_elem? uniform batches i batch h at),
          length-set batches i marked,
        )
]

cancel_batch-AreUniform :
    (suppress : List String) (i : ℕ) (batches : List ResolvingOffers)
    → AreUniform batches
    → AreUniform (cancel_batch suppress i batches)
      × (length (cancel_batch suppress i batches) ≡ length batches)
cancel_batch-AreUniform suppress i batches h = elim (Option-cases (get_elem? batches i)) [
  | inl absent ↦ rw (cancel_batch, absent) (h, refl)
  | inr (batch, at) ↦ elim (Bool-cases (member batch.role suppress)) [
    | inr other ↦ rw (cancel_batch, at, other) (h, refl)
    | inl wanted ↦
        let uniform = λ (b : ResolvingOffers). AreFor b.role b.offers in
        let marked : ResolvingOffers = record batch { is_cancelled = true } in
        rw (cancel_batch, at, wanted)
          (
            All-set uniform batches i marked h (All-get_elem? uniform batches i batch h at),
            length-set batches i marked,
          )
  ]
]

pub cancel_batches-AreUniform :
    (suppress : List String) (resolving : Dict ℕ) (batches : List ResolvingOffers)
    → AreUniform batches
    → AreUniform (cancel_batches suppress resolving batches)
      × (length (cancel_batches suppress resolving batches) ≡ length batches)
unfolding cancel_batches
cancel_batches-AreUniform suppress [] batches h = (h, refl)
cancel_batches-AreUniform suppress (e ∷ resolving) batches h =
    let (uniform, as_long) = cancel_batch-AreUniform suppress e.1 batches h in
    let (uniform', as_long') =
      cancel_batches-AreUniform suppress resolving (cancel_batch suppress e.1 batches) uniform in
    (uniform', as_long' ∙ as_long)
