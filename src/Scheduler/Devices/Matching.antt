-- ===== src/Scheduler/Devices/Matching.antt =====
-- `_match_children`: each request gets a device of its own that suits it.
use katsdpcontroller.Prelude.{
  ◌⊎◌, leb, sym, ap, ◌∙◌, Bool-cases, Option-cases, some_inj, one_if, length, get_elem?, replicate,
  sum_of, ◌==◌, ℕ, zero, suc, ◌+◌, ◌≤◌, ◌<◌, ◌≡◌, refl, inl, inr, Bool, true, false, Option, none,
  some, List, [], ◌∷◌, arith, nat_eq, string_eq,
}
use katsdpcontroller.Scheduler.Devices.{match_children, Kind, suits, assign_first, match_from}
use katsdpcontroller.Scheduler.Decimals.{as_decimal}
use katsdpcontroller.Errors.{Error, ok-injective, insufficient_resources, err, ok}

-- How often request `k` is assigned.
abbrev pub is_index : ℕ → Option ℕ → Bool
is_index k none = false
is_index k (some i) = k == i

abbrev pub times : ℕ → List (Option ℕ) → ℕ
times k = sum_of (λ a. one_if (is_index k a))

module _ {Req Dev Alloc : Type 0} (kind : Kind Req Dev Alloc) (numa_node : Option ℕ)
    (requested : List Req) where
  -- A device is free, or suits the request that it is assigned to.
  abbrev pub IsJustifiedAt : Dev → Option ℕ → Type 0
  IsJustifiedAt item none = Unit
  IsJustifiedAt item (some i) =
      (request : Req) × (get_elem? requested i ≡ some request)
      × (suits kind numa_node request item ≡ true)

  abbrev pub IsJustified : List Dev → List (Option ℕ) → Type 0
  IsJustified [] [] = Unit
  IsJustified (item ∷ items) (a ∷ assign) = IsJustifiedAt item a × IsJustified items assign
  IsJustified [] (a ∷ assign) = ⊥
  IsJustified (item ∷ items) [] = ⊥

  unassigned : (items : List Dev) → IsJustified items (replicate (length items) none)
  unassigned [] = tt
  unassigned (item ∷ items) = (tt, unassigned items)

  times-unassigned : (k n : ℕ) → times k (replicate n none) ≡ 0
  times-unassigned k zero = refl
  times-unassigned k (suc n) = omega (arith, times-unassigned k n)

  assign_first-IsJustified :
      (i : ℕ) (request : Req) (items : List Dev) (assign assign' : List (Option ℕ))
      → get_elem? requested i ≡ some request
      → assign_first kind numa_node i request items assign ≡ some assign'
      → IsJustified items assign
      → IsJustified items assign' × ((k : ℕ) → times k assign' ≡ times k assign + one_if (k == i))
  unfolding assign_first
  assign_first-IsJustified i request [] assign assign' at_i e h = absurd (cc)
  assign_first-IsJustified i request (item ∷ items) [] assign' at_i e h = absurd (cc)
  assign_first-IsJustified i request (item ∷ items) (some j ∷ assign) assign' at_i e h =
      elim (Option-cases (assign_first kind numa_node i request items assign)) [
        | inl failed ↦ absurd (cc (rw failed at e))
        | inr (rest, found) ↦
            let ih = assign_first-IsJustified i request items assign rest at_i found h.1 in
            let same : some j ∷ rest ≡ assign' = some_inj (rw found at e) in
            rw (← same) ((h.0, ih.0), λ k. omega (arith, ih.1 k))
      ]
  assign_first-IsJustified i request (item ∷ items) (none ∷ assign) assign' at_i e h =
      elim (Bool-cases (suits kind numa_node request item)) [
        | inl good ↦
            let same : some i ∷ assign ≡ assign' = some_inj (rw good at e) in
            rw (← same) (((request, at_i, good), h.1), λ k. omega arith)
        | inr bad ↦ elim (Option-cases (assign_first kind numa_node i request items assign)) [
          | inl failed ↦ absurd (cc (rw (bad, failed) at e))
          | inr (rest, found) ↦
              let ih = assign_first-IsJustified i request items assign rest at_i found h.1 in
              let same : none ∷ rest ≡ assign' = some_inj (rw (bad, found) at e) in
              rw (← same) ((tt, ih.0), λ k. omega (arith, ih.1 k))
        ]
      ]

  -- Requests below `n` are assigned once, and no others.
  abbrev pub IsOneEach : ℕ → List (Option ℕ) → Type 0
  IsOneEach n assign =
      ((k : ℕ) → k < n → times k assign ≡ 1) × ((k : ℕ) → n ≤ k → times k assign ≡ 0)

  -- What a match has to show for itself.
  pub record IsMatching (actual : List Dev) (assign : List (Option ℕ)) : Type 0 where
    pub justified : IsJustified actual assign
    pub one_each : IsOneEach (length requested) assign

  match_from-IsMatching :
      (i : ℕ) (rest : List Req) (actual : List Dev) (assign assign' : List (Option ℕ))
      → ((k : ℕ) → get_elem? rest k ≡ get_elem? requested (i + k))
      → i + length rest ≡ length requested
      → IsJustified actual assign
      → IsOneEach i assign
      → match_from kind numa_node i rest actual assign ≡ ok assign'
      → IsMatching actual assign'
  unfolding match_from
  match_from-IsMatching i [] actual assign assign' suffix len h one e =
      let same : assign ≡ assign' = ok-injective e in
      let end : i ≡ length requested = omega arith in
      rw (← same) (record {
        justified = h;
        one_each = (λ k low. one.0 k (omega arith), λ k high. one.1 k (omega arith));
      })
  match_from-IsMatching i (request ∷ rest) actual assign assign' suffix len h one e =
      elim (Option-cases (assign_first kind numa_node i request actual assign)) [
        | inl failed ↦ absurd (ground (arith, failed))
        | inr (next, found) ↦
            let zero_in : i + 0 ≡ i = omega arith in
            let at_i : get_elem? requested i ≡ some request = rw zero_in at (sym (suffix 0)) in
            let step = assign_first-IsJustified i request actual assign next at_i found h in
            match_from-IsMatching (i + 1) rest actual next assign'
              (λ k.
                suffix (suc k)
                ∙ ap (get_elem? requested) (let q : i + suc k ≡ i + 1 + k = omega arith in q))
              (omega arith) step.0
              (
                λ k low. ground (arith, step.1 k, one.0 k, one.1 k),
                λ k high. ground (arith, step.1 k, one.1 k),
              )
              (ground (arith, found))
      ]

  -- If Agent._match_children returns a list for a kind of device, then the list has one entry per
  -- device, each entry that is not None is the index of a request which that device suits and has
  -- enough of both resources for, and every request of the task is assigned to exactly one
  -- device.
  pub match_children-IsMatching :
      (actual : List Dev) (assign : List (Option ℕ))
      → match_children kind numa_node requested actual ≡ ok assign
      → IsMatching actual assign
  unfolding match_children
  match_children-IsMatching actual assign e =
      match_from-IsMatching 0 requested actual (replicate (length actual) none) assign
        (λ k. ap (get_elem? requested) (let q : k ≡ 0 + k = omega arith in q)) (omega arith)
        (unassigned actual)
        (λ k low. absurd (omega arith), λ k high. times-unassigned k (length actual)) e

  -- The device does not match the request, or has too little of a resource.
  abbrev pub IsUnfitAt : Req → Dev → Type 0
  IsUnfitAt request item =
      (kind.matches request item numa_node ≡ false)
      ⊎ (((kind.resources item).first.available < as_decimal (kind.amounts request).first)
          ⊎ ((kind.resources item).second.available < as_decimal (kind.amounts request).second))

  -- No device that is free suits the request.
  abbrev pub NoneFits : Req → List Dev → List (Option ℕ) → Type 0
  NoneFits request [] assign = Unit
  NoneFits request (item ∷ items) [] = Unit
  NoneFits request (item ∷ items) (none ∷ assign) =
      IsUnfitAt request item × NoneFits request items assign
  NoneFits request (item ∷ items) (some k ∷ assign) = NoneFits request items assign

  -- The first requests have devices of their own, and the next one has none.
  pub record IsStuck (actual : List Dev) : Type 0 where
    pub index : ℕ
    pub request : Req
    pub assign : List (Option ℕ)
    pub at_index : get_elem? requested index ≡ some request
    pub justified : IsJustified actual assign
    pub one_each : IsOneEach index assign
    pub none_fits : NoneFits request actual assign

  suits-IsUnfitAt :
      (request : Req) (item : Dev)
      → suits kind numa_node request item ≡ false
      → IsUnfitAt request item
  unfolding suits
  suits-IsUnfitAt request item bad =
      let need = kind.amounts request in
      let have = kind.resources item in
      elim (Bool-cases (kind.matches request item numa_node)) [
        | inr other ↦ inl other
        | inl good ↦ elim (Bool-cases (leb (as_decimal need.first) have.first.available)) [
          | inr less ↦ inr (inl (ground arith))
          | inl more ↦ inr (inr (ground (arith, good, more)))
        ]
      ]

  assign_first-NoneFits :
      (i : ℕ) (request : Req) (items : List Dev) (assign : List (Option ℕ))
      → assign_first kind numa_node i request items assign ≡ none
      → NoneFits request items assign
  unfolding assign_first
  assign_first-NoneFits i request [] assign e = tt
  assign_first-NoneFits i request (item ∷ items) [] e = tt
  assign_first-NoneFits i request (item ∷ items) (some j ∷ assign) e =
      elim (Option-cases (assign_first kind numa_node i request items assign)) [
        | inl failed ↦ assign_first-NoneFits i request items assign failed
        | inr (rest, found) ↦ absurd (cc (rw found at e))
      ]
  assign_first-NoneFits i request (item ∷ items) (none ∷ assign) e =
      elim (Bool-cases (suits kind numa_node request item)) [
        | inl good ↦ absurd (cc (rw good at e))
        | inr bad ↦ elim (Option-cases (assign_first kind numa_node i request items assign)) [
          | inl failed ↦ (
            suits-IsUnfitAt request item bad,
            assign_first-NoneFits i request items assign failed,
          )
          | inr (rest, found) ↦ absurd (cc (rw (bad, found) at e))
        ]
      ]

  match_from-IsStuck :
      (i : ℕ) (rest : List Req) (actual : List Dev) (assign : List (Option ℕ)) (error : Error)
      → ((k : ℕ) → get_elem? rest k ≡ get_elem? requested (i + k))
      → IsJustified actual assign
      → IsOneEach i assign
      → match_from kind numa_node i rest actual assign ≡ err error
      → (error ≡ insufficient_resources) × IsStuck actual
  unfolding match_from
  match_from-IsStuck i [] actual assign error suffix h one e = absurd (cc)
  match_from-IsStuck i (request ∷ rest) actual assign error suffix h one e =
      let zero_in : i + 0 ≡ i = omega arith in
      let at_i : get_elem? requested i ≡ some request = rw zero_in at (sym (suffix 0)) in
      elim (Option-cases (assign_first kind numa_node i request actual assign)) [
        | inl failed ↦ (
          ground (arith, failed),
          record {
            index = i;
            request = request;
            assign = assign;
            at_index = at_i;
            justified = h;
            one_each = one;
            none_fits = assign_first-NoneFits i request actual assign failed;
          },
        )
        | inr (next, found) ↦
            let step = assign_first-IsJustified i request actual assign next at_i found h in
            match_from-IsStuck (i + 1) rest actual next error
              (λ k.
                suffix (suc k)
                ∙ ap (get_elem? requested) (let q : i + suc k ≡ i + 1 + k = omega arith in q))
              step.0
              (
                λ k low. ground (arith, step.1 k, one.0 k, one.1 k),
                λ k high. ground (arith, step.1 k, one.1 k),
              )
              (ground (arith, found))
      ]

  -- If Agent._match_children raises an exception, it is InsufficientResourcesError and the search
  -- was stuck: for some request of the task, the requests before it have each exactly one device,
  -- which suits it, the later ones have none, and every device that is still free does not match
  -- the request or has less of one of its two resources than the request asks for.
  pub match_children-IsStuck :
      (actual : List Dev) (error : Error)
      → match_children kind numa_node requested actual ≡ err error
      → (error ≡ insufficient_resources) × IsStuck actual
  unfolding match_children
  match_children-IsStuck actual error e =
      match_from-IsStuck 0 requested actual (replicate (length actual) none) error
        (λ k. ap (get_elem? requested) (let q : k ≡ 0 + k = omega arith in q)) (unassigned actual)
        (λ k low. absurd (omega arith), λ k high. times-unassigned k (length actual)) e
