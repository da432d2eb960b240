-- ===== src/MasterController/Multicast/Search.antt =====
-- The search ends, finds only free addresses, and gives up only if there are not enough in a row.
use katsdpcontroller.Errors.{Result, no_addresses, ok, err}
use katsdpcontroller.MasterController.Multicast.{Manager, is_taken, search, first_taken}
use katsdpcontroller.Prelude.{
  Option-cases, ◌*◌, ltb, ltb→lt, Option, Bool-cases, some_inj, nat_eq, ◌==◌, ℕ, zero, suc, ◌+◌,
  ◌≤◌, ◌<◌, ◌≡◌, inl, inr, Bool, true, false, none, some, arith, string_eq,
}

first_taken_missing :
    (taken : ℕ → Bool) (start n : ℕ)
    → first_taken taken start n ≡ none
    → (x : ℕ) → start ≤ x
    → x < start + n
    → taken x ≡ false
unfolding first_taken
first_taken_missing taken start zero h x low high = absurd (omega arith)
first_taken_missing taken start (suc n) h x low high = elim (Bool-cases (taken start)) [
  | inl busy ↦ absurd (cc (rw busy at h))
  | inr free ↦ elim (Bool-cases (start == x)) [
    | inl same ↦ let e = (nat_eq.same_iff start x).0 same in rw (← e) free
    | inr other ↦
        first_taken_missing taken (start + 1) n (rw free at h) x (ground (arith, other))
          (omega arith)
  ]
]

first_taken_found :
    (taken : ℕ → Bool) (start n cur : ℕ)
    → first_taken taken start n ≡ some cur
    → (start ≤ cur) × (cur < start + n) × (taken cur ≡ true)
unfolding first_taken
first_taken_found taken start zero cur h = absurd (cc)
first_taken_found taken start (suc n) cur h = elim (Bool-cases (taken start)) [
  | inl busy ↦
      let same : start ≡ cur = some_inj (rw busy at h) in
      (omega arith, omega arith, rw (← same) busy)
  | inr free ↦
      let (low, high, busy) = first_taken_found taken (start + 1) n cur (rw free at h) in
      (omega arith, omega arith, busy)
]

-- Some address among these is taken.
abbrev pub IsBlocked : Manager → ℕ → ℕ → Type 0
IsBlocked self n start = (x : ℕ) × (start ≤ x) × (x < start + n) × (is_taken self.products x ≡ true)

-- All places of the network from `low` on and before `high` are blocked.
abbrev pub AreBlocked : Manager → ℕ → ℕ → ℕ → Type 0
AreBlocked self n low high =
    (start : ℕ) → low ≤ start → start < high → start + n ≤ self.broadcast → IsBlocked self n start

abbrev pub AreFree : Manager → ℕ → ℕ → Type 0
AreFree self n start = (x : ℕ) → start ≤ x → x < start + n → is_taken self.products x ≡ false

-- A free place inside the network, or none at all.
pub data Searched (self : Manager) (n : ℕ) : Option (Result ℕ) → Type 0 where
  free :
      (start : ℕ)
      → self.network < start
      → start + n ≤ self.broadcast
      → AreFree self n start
      → Searched self n (some (ok start))
  none_free :
      AreBlocked self n (self.network + 1) (self.broadcast + 1)
      → Searched self n (some (err no_addresses))

module _ (self : Manager) (n : ℕ) (positive : 0 < n) where
  -- One more round: a place is blocked by an address that is taken.
  blocked_more :
      (low start cur : ℕ)
      → AreBlocked self n low start
      → cur < start + n
      → is_taken self.products cur ≡ true
      → AreBlocked self n low (cur + 1)
  blocked_more low start cur h near busy x from_low to_cur inside =
      elim (Bool-cases (ltb x start)) [
        | inl before ↦ h x from_low (ltb→lt _ _ before) inside
        | inr after ↦ (cur, omega arith, ground (arith, after), busy)
      ]

  -- The second way through the network.
  search_wrapped :
      (fuel start : ℕ)
      → self.network < start
      → start ≤ self.broadcast + 1
      → AreBlocked self n (self.network + 1) start
      → self.broadcast + 1 < fuel + start
      → Searched self n (search self n fuel true start)
  unfolding search
  search_wrapped zero start inside below blocked fuel_left = absurd (omega arith)
  search_wrapped (suc fuel) start inside below blocked fuel_left =
      elim (Bool-cases (ltb self.broadcast (start + n))) [
        | inl full ↦
            rw (search, full)
              (none_free (λ x from_low to_end fits.
                blocked x from_low (omega (arith, ltb→lt _ _ full)) fits))
        | inr room ↦ elim (Option-cases (first_taken (is_taken self.products) start n)) [
          | inl found ↦
              rw (search, room, found)
                (free start inside (ground (arith, room))
                  (first_taken_missing (is_taken self.products) start n found))
          | inr (cur, found) ↦
              let (low, high, near) =
                first_taken_found (is_taken self.products) start n cur found in
              rw (search, room, found)
                (search_wrapped fuel (cur + 1) (omega arith) (ground (arith, room))
                  (blocked_more (self.network + 1) start cur blocked high near) (omega arith))
        ]
      ]

  -- The first way, from the last place on.
  pub search-Searched :
      (fuel start : ℕ)
      → self.network < start
      → start ≤ self.broadcast + 1
      → 2 * self.broadcast + 3 < fuel + start
      → Searched self n (search self n fuel false start)
  unfolding search
  search-Searched zero start inside below fuel_left = absurd (omega arith)
  search-Searched (suc fuel) start inside below fuel_left =
      elim (Bool-cases (ltb self.broadcast (start + n))) [
        | inl full ↦
            rw (search, full)
              (search_wrapped fuel (self.network + 1) (omega arith) (omega arith)
                (λ x low high fits. absurd (omega arith)) (omega arith))
        | inr room ↦ elim (Option-cases (first_taken (is_taken self.products) start n)) [
          | inl found ↦
              rw (search, room, found)
                (free start inside (ground (arith, room))
                  (first_taken_missing (is_taken self.products) start n found))
          | inr (cur, found) ↦
              let (low, high, near) =
                first_taken_found (is_taken self.products) start n cur found in
              rw (search, room, found)
                (search-Searched fuel (cur + 1) (omega arith) (ground (arith, room)) (omega arith))
        ]
      ]
