-- ===== src/Scheduler/Devices/Slots.antt =====
-- The allocation loop over the devices fills every slot.
use katsdpcontroller.Prelude.{
  get_elem?-set_self, get_elem?-set_ne, length-set, ltb, ltb→lt, Bool-cases, ◌∙◌, inl, inr, length,
  get_elem?, set, All, ℕ, suc, ◌+◌, ◌<◌, ◌≡◌, refl, ap, true, Option, none, some, List, [], ◌∷◌,
  arith,
}
use katsdpcontroller.Scheduler.Devices.Taking.{AreInSync, IsLawfulKind}
use katsdpcontroller.Scheduler.Devices.Matching.{times, IsJustified}
use katsdpcontroller.Scheduler.Decimals.{as_decimal}
use katsdpcontroller.Scheduler.Devices.{enough, Kind, suits, take_all}
use katsdpcontroller.Errors.{ok}

module _ {Req Dev Alloc : Type 0} (kind : Kind Req Dev Alloc) (numa_node : Option ℕ)
    (requested : List Req) where
  -- Request `k` has its slot filled from a device that suits it; `j` is the index of the first of
  -- the devices.
  pub record Served (j k : ℕ) (items : List Dev) (slots : List (Option Alloc)) : Type 0 where
    pub alloc : Alloc
    pub request : Req
    pub place : ℕ
    pub item : Dev
    pub at_slot : get_elem? slots k ≡ some (some alloc)
    pub at_request : get_elem? requested k ≡ some request
    pub at_place : get_elem? items place ≡ some item
    pub index_is : kind.index_of alloc ≡ j + place
    pub good : suits kind numa_node request item ≡ true
    pub taken_first :
        (kind.taken_of alloc).first.available ≡ as_decimal (kind.amounts request).first
    pub taken_second :
        (kind.taken_of alloc).second.available ≡ as_decimal (kind.amounts request).second

  -- What an assigned device has left; a free device is as it was.
  abbrev pub IsPaidAt : Dev → Option ℕ → Dev → Type 0
  IsPaidAt item none item' = item' ≡ item
  IsPaidAt item (some i) item' =
      (request : Req) × (get_elem? requested i ≡ some request)
      × ((kind.resources item').first.available + as_decimal (kind.amounts request).first
          ≡ (kind.resources item).first.available)
      × ((kind.resources item').second.available + as_decimal (kind.amounts request).second
          ≡ (kind.resources item).second.available)

  abbrev pub IsPaid : List Dev → List (Option ℕ) → List Dev → Type 0
  IsPaid [] _ items' = items' ≡ []
  IsPaid (item ∷ items) [] items' = ⊥
  IsPaid (item ∷ items) (a ∷ assign) [] = ⊥
  IsPaid (item ∷ items) (a ∷ assign) (item' ∷ items') =
      IsPaidAt item a item' × IsPaid items assign items'

  pub record TookAll (j : ℕ) (items : List Dev) (assign : List (Option ℕ))
      (slots : List (Option Alloc)) : Type 0 where
    pub slots' : List (Option Alloc)
    pub items' : List Dev
    pub done : take_all kind j requested items assign slots ≡ (ok slots', items')
    pub in_sync : All (λ item. AreInSync (kind.resources item)) items'
    pub paid : IsPaid items assign items'
    pub served : (k : ℕ) → 0 < times k assign → k < length slots → Served j k items slots'
    pub others : (k : ℕ) → times k assign ≡ 0 → get_elem? slots' k ≡ get_elem? slots k

  Served-cons :
      (j k : ℕ) (item : Dev) (items : List Dev) (slots : List (Option Alloc))
      → Served (j + 1) k items slots
      → Served j k (item ∷ items) slots
  Served-cons j k item items slots s = record {
    alloc = s.alloc;
    request = s.request;
    place = suc s.place;
    item = s.item;
    at_slot = s.at_slot;
    at_request = s.at_request;
    at_place = s.at_place;
    index_is = omega (arith, s.index_is);
    good = s.good;
    taken_first = s.taken_first;
    taken_second = s.taken_second;
  }

  enough_of_suits :
      (request : Req) (item : Dev)
      → suits kind numa_node request item ≡ true
      → enough kind request item ≡ true
  unfolding suits
  enough_of_suits request item good = ground arith

  module _ (law : IsLawfulKind kind) where
    pub take_all_total :
        (j : ℕ) (items : List Dev) (assign : List (Option ℕ)) (slots : List (Option Alloc))
        → All (λ item. AreInSync (kind.resources item)) items
        → IsJustified kind numa_node requested items assign
        → TookAll j items assign slots
    unfolding take_all
    take_all_total j [] [] slots sync just = record {
      slots' = slots;
      items' = [];
      done = refl;
      in_sync = tt;
      paid = refl;
      served = λ k some_times low. absurd (omega arith);
      others = λ k no_times. refl;
    }
    take_all_total j [] (a ∷ assign) slots sync just = absurd just
    take_all_total j (item ∷ items) [] slots sync just = absurd just
    take_all_total j (item ∷ items) (none ∷ assign) slots sync just =
        let ih = take_all_total (j + 1) items assign slots sync.1 just.1 in
        record {
          slots' = ih.slots';
          items' = item ∷ ih.items';
          done = ground (arith, ih.done);
          in_sync = (sync.0, ih.in_sync);
          paid = (refl, ih.paid);
          served = λ k some_times low.
              Served-cons j k item items ih.slots' (ih.served k (omega arith) low);
          others = λ k no_times. ih.others k (omega arith);
        }
    take_all_total j (item ∷ items) (some idx ∷ assign) slots sync just =
        let (request, at_idx, good) = just.0 in
        let t = law.takes j request item sync.0 (enough_of_suits request item good) in
        let slots1 = set slots idx (some t.alloc) in
        let ih = take_all_total (j + 1) items assign slots1 sync.1 just.1 in
        record {
          slots' = ih.slots';
          items' = t.item' ∷ ih.items';
          done = ground (arith, at_idx, t.done, ih.done);
          in_sync = (t.shared.left_in_sync, ih.in_sync);
          paid = ((request, at_idx, t.shared.left_first, t.shared.left_second), ih.paid);
          served = λ k some_times low. elim (Bool-cases (ltb 0 (times k assign))) [
            | inl again ↦ Served-cons j k item items ih.slots' (
                ih.served k (ltb→lt _ _ again)
                  (let n = length-set slots idx (some t.alloc) in omega arith))
            | inr once ↦
                let same : k ≡ idx = ground arith in
                record {
                  alloc = t.alloc;
                  request = request;
                  place = 0;
                  item = item;
                  at_slot =
                      ih.others k (ground arith)
                      ∙ ap (get_elem? slots1) same
                      ∙ get_elem?-set_self slots idx (some t.alloc) (omega arith);
                  at_request = ap (get_elem? requested) same ∙ at_idx;
                  at_place = refl;
                  index_is = omega (arith, t.index_is);
                  good = good;
                  taken_first = t.shared.taken_first;
                  taken_second = t.shared.taken_second;
                }
          ];
          others = λ k no_times.
              ih.others k (ground arith)
              ∙ get_elem?-set_ne slots idx k (some t.alloc) (λ e. ground arith);
        }
