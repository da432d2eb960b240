-- ===== src/MasterController/Multicast.antt =====
-- `ProductManagerBase.get_multicast_groups` of master_controller.py: consecutive free addresses are
-- searched from the last place on, at most once around. An address is its number.
pub mod Search
pub mod Grant
use katsdpcontroller.Prelude.{
  ltb, leb, if◌then◌else◌, ◌==◌, Dict, lookup, insert, ℕ, zero, suc, ◌+◌, ◌*◌, String, Bool, true,
  false, not, ◌&&◌, ◌||◌, Option, none, some, List, [], ◌∷◌, ◌++◌, nat_eq, string_eq,
}
use katsdpcontroller.Errors.{Result, value_error, assertion_error, no_addresses, ok, err}

pub record Manager : Type 0 where
  -- `_multicast_network`: the network's own address and the broadcast address
  pub network : ℕ
  pub broadcast : ℕ
  pub next_group : ℕ
  -- `products`, with their `multicast_groups`
  pub products : Dict (List ℕ)

abbrev pub has_group : ℕ → List ℕ → Bool
has_group x [] = false
has_group x (y ∷ ys) = x == y || has_group x ys

-- `any(cur in prod.multicast_groups for prod in products)`
abbrev pub is_taken : Dict (List ℕ) → ℕ → Bool
is_taken [] cur = false
is_taken (e ∷ products) cur = has_group cur e.1 || is_taken products cur

-- `for i in range(n_addresses)`: the first address that is taken.
unfoldable pub first_taken : (ℕ → Bool) → ℕ → ℕ → Option ℕ
first_taken taken start zero = none
first_taken taken start (suc n) =
    let rest = first_taken taken (start + 1) n in if taken start then some start else rest

-- The `while` loop. Each round uses up fuel; `none` is no fuel left.
unfoldable pub search : Manager → ℕ → ℕ → Bool → ℕ → Option (Result ℕ)
search self n zero wrapped start = none
search self n (suc fuel) wrapped start = elim (ltb self.broadcast (start + n)) [
  | true ↦ elim wrapped [
    | true ↦ some (err no_addresses)
    | false ↦ search self n fuel true (self.network + 1)
  ]
  | false ↦ elim (first_taken (is_taken self.products) start n) [
    | none ↦ some (ok start)
    | some cur ↦ search self n fuel wrapped (cur + 1)
  ]
]

-- Enough for two ways through the network.
abbrev pub enough_fuel : Manager → ℕ
enough_fuel self = 2 * self.broadcast + 4

-- range(start, start + n)
abbrev pub addresses : ℕ → ℕ → List ℕ
addresses start zero = []
addresses start (suc n) = start ∷ addresses (start + 1) n

abbrev pub groups_of : Option (List ℕ) → List ℕ
groups_of none = []
groups_of (some groups) = groups

-- The first address of those that are granted, or the exception, and the changed manager.
unfoldable pub get_multicast_groups : String → ℕ → Manager → Option (Result ℕ × Manager)
get_multicast_groups product n self =
    if n == 0
    then some (err value_error, self)
    else if not (leb self.network self.next_group && leb self.next_group self.broadcast)
    then some (err assertion_error, self)
    else elim (search self n (enough_fuel self) false self.next_group) [
      | none ↦ none
      | some (err e) ↦ some (err e, self)
      | some (ok start) ↦ some (
        ok start,
        record self {
          next_group = start + n;
          products =
              insert product (groups_of (lookup product self.products) ++ addresses start n)
                self.products;
        },
      )
    ]
