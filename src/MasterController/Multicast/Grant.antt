-- ===== src/MasterController/Multicast/Grant.antt =====
-- `get_multicast_groups` as a whole.
use katsdpcontroller.MasterController.Multicast.Search.{
  search-Searched, AreBlocked, AreFree, Searched, free, none_free,
}
use katsdpcontroller.MasterController.Multicast.{
  search, Manager, has_group, is_taken, enough_fuel, addresses, groups_of, get_multicast_groups,
}
use katsdpcontroller.Prelude.{
  Option-cases, subst, true, ltb, leb, Bool-cases, one_if, sum_of, ◌==◌, Dict, lookup, insert, ℕ,
  zero, suc, ◌+◌, ◌≤◌, ◌<◌, String, ◌≡◌, refl, inl, inr, Bool, false, ◌&&◌, ◌||◌, Option, none,
  some, List, [], ◌∷◌, ◌++◌, arith, nat_eq, string_eq,
}
use katsdpcontroller.Errors.{Result, no_addresses, ok, err}

-- How many products have an address.
abbrev pub holders : ℕ → Dict (List ℕ) → ℕ
holders x = sum_of (λ e. one_if (has_group x e.1))

has_group-append :
    (x : ℕ) (xs ys : List ℕ) → has_group x (xs ++ ys) ≡ (has_group x xs || has_group x ys)
has_group-append x [] ys = refl
has_group-append x (y ∷ xs) ys = ground (arith, has_group-append x xs ys)

-- `x` is one of the `n` addresses from `start` on.
abbrev pub is_between : ℕ → ℕ → ℕ → Bool
is_between start n x = leb start x && ltb x (start + n)

has_group-addresses : (x start n : ℕ) → has_group x (addresses start n) ≡ is_between start n x
has_group-addresses x start zero = ground arith
has_group-addresses x start (suc n) = ground (arith, has_group-addresses x (start + 1) n)

holders-insert :
    (x : ℕ) (k : String) (v : List ℕ) (d : Dict (List ℕ))
    → holders x (insert k v d) + one_if (has_group x (groups_of (lookup k d)))
      ≡ holders x d + one_if (has_group x v)
holders-insert x k v [] = omega arith
holders-insert x k v (e ∷ d) = elim (Bool-cases (k == e.0)) [
  | inl here ↦ rw here (omega arith)
  | inr there ↦ rw there (omega (arith, holders-insert x k v d))
]

has_group-lookup :
    (x : ℕ) (k : String) (d : Dict (List ℕ))
    → is_taken d x ≡ false
    → has_group x (groups_of (lookup k d)) ≡ false
has_group-lookup x k [] h = refl
has_group-lookup x k (e ∷ d) h = ground (arith, has_group-lookup x k d)

-- Adding free addresses to a product.
holders-grant :
    (x : ℕ) (k : String) (start n : ℕ) (d : Dict (List ℕ))
    → ((y : ℕ) → start ≤ y → y < start + n → is_taken d y ≡ false)
    → holders x (insert k (groups_of (lookup k d) ++ addresses start n) d)
      ≡ holders x d + one_if (is_between start n x)
holders-grant x k start n d free_there =
    let old = groups_of (lookup k d) in
    let more = holders-insert x k (old ++ addresses start n) d in
    ground (
      arith,
      more,
      has_group-append x old (addresses start n),
      has_group-addresses x start n,
      has_group-lookup x k d,
      free_there x,
    )

-- Addresses that nobody has, inside the network, or none are granted as there is no room.
pub data Granted (n : ℕ) (self : Manager) : Option (Result ℕ × Manager) → Type 0 where
  grants :
      (start : ℕ) (after : Manager)
      → self.network < start
      → start + n ≤ self.broadcast
      → AreFree self n start
      → ((x : ℕ)
          → holders x after.products ≡ holders x self.products + one_if (is_between start n x))
      → after.network ≡ self.network
      → after.broadcast ≡ self.broadcast
      → after.next_group ≡ start + n
      → Granted n self (some (ok start, after))
  no_room :
      AreBlocked self n (self.network + 1) (self.broadcast + 1)
      → Granted n self (some (err no_addresses, self))

grant_found :
    (product : String) (n : ℕ) (self : Manager) (found : Option (Result ℕ))
    → Searched self n found
    → Granted n self (elim found [
      | none ↦ none
      | some (err e) ↦ some (err e, self)
      | some (ok start) ↦ some (
        ok start,
        record self {
          next_group = start + n;
          products =
              insert product
                (groups_of (lookup product self.products) ++ addresses start n)
                self.products;
        },
      )
    ])
grant_found product n self _ (free start inside fits nobody) =
    grants start _ inside fits nobody (λ x. holders-grant x product start n self.products nobody)
      refl refl refl
grant_found product n self _ (none_free blocked) = no_room blocked

-- For a positive number of addresses, and with the next place behind the network's own address
-- and at most at the broadcast address, get_multicast_groups ends within the fuel that it is
-- given: either it grants consecutive addresses strictly between the network's own address and
-- the broadcast address, which no product had, exactly one product more has each of them and as
-- many as before have any other address, and the next place is behind them; or it raises
-- NoAddressesError, nothing changes, and every place of that many addresses has one that is
-- taken.
pub get_multicast_groups-Granted :
    (product : String) (n : ℕ) (self : Manager)
    → 0 < n
    → self.network < self.next_group
    → self.next_group ≤ self.broadcast
    → Granted n self (get_multicast_groups product n self)
unfolding get_multicast_groups
get_multicast_groups-Granted product n self positive inside below =
    let found =
      search-Searched self n positive (enough_fuel self) self.next_group inside (omega arith)
        (omega arith) in
    let some_wanted : (n == 0) ≡ false = ground arith in
    let in_network : leb self.network self.next_group ≡ true = ground arith in
    let below_end : leb self.next_group self.broadcast ≡ true = ground arith in
    rw (get_multicast_groups, some_wanted, in_network, below_end)
      (grant_found product n self (search self n (enough_fuel self) false self.next_group) found)

holders_free : (x : ℕ) (d : Dict (List ℕ)) → is_taken d x ≡ false → holders x d ≡ 0
holders_free x [] h = refl
holders_free x (e ∷ d) h = ground (arith, holders_free x d)

-- No address belongs to two products, and the next place is inside the network.
pub record IsSafe (self : Manager) : Type 0 where
  pub disjoint : (x : ℕ) → holders x self.products ≤ 1
  pub inside : self.network < self.next_group
  pub below : self.next_group ≤ self.broadcast

-- Requests of products for numbers of addresses, one after the other; those that fail are skipped.
abbrev pub run : List (String × ℕ) → Manager → Option Manager
run [] self = some self
run (r ∷ requests) self = elim (get_multicast_groups r.0 r.1 self) [
  | none ↦ none
  | some (answer, self') ↦ run requests self'
]

pub record Survives (requests : List (String × ℕ)) (self : Manager) : Type 0 where
  pub after : Manager
  pub done : run requests self ≡ some after
  pub safe : IsSafe after

abbrev Answered : Manager → Option (Result ℕ × Manager) → Type 0
Answered self none = ⊥
Answered self (some (answer, self')) = IsSafe self'

Granted-Answered :
    (n : ℕ) (self : Manager) (found : Option (Result ℕ × Manager))
    → 0 < n
    → IsSafe self
    → Granted n self found
    → Answered self found
Granted-Answered n self _ positive safe
      (grants start after inside fits nobody more same_network same_broadcast next) =
    record {
      disjoint =
          λ x. ground (arith, more x, safe.disjoint x, holders_free x self.products, nobody x);
      inside = omega arith;
      below = omega arith;
    }
Granted-Answered n self _ positive safe (no_room blocked) = safe

get_multicast_groups-Answered :
    (product : String) (n : ℕ) (self : Manager)
    → IsSafe self
    → Answered self (get_multicast_groups product n self)
unfolding get_multicast_groups
get_multicast_groups-Answered product n self safe = elim (Bool-cases (n == 0)) [
  | inl nothing ↦ rw (get_multicast_groups, nothing) safe
  | inr some_wanted ↦
      let positive : 0 < n = ground (arith, some_wanted) in
      Granted-Answered n self _ positive safe
        (get_multicast_groups-Granted product n self positive safe.inside safe.below)
]

-- If no address belongs to two products and the next place is behind the network's own address
-- and at most at the broadcast address, then any sequence of requests for addresses, of whatever
-- numbers, is answered, and this still holds after it.
pub run-Survives :
    (requests : List (String × ℕ)) (self : Manager) → IsSafe self → Survives requests self
run-Survives [] self safe = record { after = self; done = refl; safe = safe }
run-Survives (r ∷ requests) self safe = elim (Option-cases (get_multicast_groups r.0 r.1 self)) [
  | inl out_of_fuel ↦
      absurd (subst (Answered self) out_of_fuel (get_multicast_groups-Answered r.0 r.1 self safe))
  | inr ((answer, self'), e) ↦
      let safe' = subst (Answered self) e (get_multicast_groups-Answered r.0 r.1 self safe) in
      let later = run-Survives requests self' safe' in
      record { after = later.after; done = rw (run, e) later.done; safe = later.safe }
]
