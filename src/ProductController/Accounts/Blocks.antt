-- ===== src/ProductController/Accounts/Blocks.antt =====
-- What the setter of `CaptureBlock.state` and `_capture_block_dead` do to the capture blocks of a
-- `SubarrayProduct`. product_controller.py.
use katsdpcontroller.Prelude.{
  remove-absent, ◌==◌, nat_eq, string_eq, ℕ, ◌<◌, ◌≡◌, ◌≢◌, ◌⊎◌, true, false, not, ◌||◌, Option,
  Bool-cases, none, some, arith, refl, sym, subst, ap, ◌∙◌, List, [], ◌∷◌, String, Dict, inl, inr,
  lookup, remove, if◌then◌else◌, Each, same_eq, same_refl, lookup-remove, remove-IsDict,
}
use katsdpcontroller.ProductController.{
  CaptureBlockState, CaptureBlock, Product, put, block_states, enter, block_is, Holder,
  set_block_state, capture_block_dead,
}
use katsdpcontroller.ProductController.Accounts.{
  Listed, Captures, IsAccounted, Each-map, lookup-unlisted, block_states-put, if_cases,
}

-- The block as the setter leaves it, and the sensor with it.
abbrev pub with_block : ℕ → CaptureBlock → Dict CaptureBlockState → Product → Product
with_block o b sensor p = record p { blocks = put o b p.blocks; capture_block_sensor = sensor }

abbrev pub sense : ℕ → CaptureBlock → Product → Dict CaptureBlockState
sense o b p = block_states (put o b p.blocks) p.capture_blocks

-- The branches of the setter.
pub set_block_state_cases :
    (o : ℕ) (v : CaptureBlockState) (p : Product)
    → let b = enter v (p.blocks o) in
      ((block_is (p.blocks o).state v ≡ true) × (set_block_state o v p ≡ p))
      ⊎ (((p.blocks o).watched ≡ true) × (set_block_state o v p ≡ with_block o b (sense o b p) p))
      ⊎ (((p.blocks o).watched ≡ false)
          × (set_block_state o v p ≡ with_block o b p.capture_block_sensor p))
unfolding set_block_state
set_block_state_cases o v p =
    let b = enter v (p.blocks o) in
    let seen = with_block o b (sense o b p) p in
    let unseen = with_block o b p.capture_block_sensor p in
    elim (if_cases (block_is (p.blocks o).state v) p
      (if (p.blocks o).watched then seen else unseen)) [
        | inl same ↦ inl same
        | inr (new, e) ↦ elim (if_cases (p.blocks o).watched seen unseen) [
          | inl (watched, f) ↦ inr (inl (watched, e ∙ f))
          | inr (unwatched, f) ↦ inr (inr (unwatched, e ∙ f))
        ]
      ]

module _ (o : ℕ) (v : CaptureBlockState) (p : Product) (h : IsAccounted p)
    (below : o < p.next_block) (alive : v ≢ CaptureBlockState.dead)
    (quiet : v ≢ CaptureBlockState.capturing) (other : p.current_capture_block ≢ some o) where
  set-Listed :
      (k : String) (x : ℕ)
      → Listed p.blocks p.next_block k x
      → Listed (put o (enter v (p.blocks o)) p.blocks) p.next_block k x
  set-Listed k x l = ground arith

  set-Captures :
      (c : Option ℕ)
      → c ≢ some o
      → Captures p.blocks p.next_block p.capture_blocks c
      → Captures (put o (enter v (p.blocks o)) p.blocks) p.next_block p.capture_blocks c
  set-Captures none apart hc = tt
  set-Captures (some x) apart hc = elim (Bool-cases (x == o)) [
    | inl same ↦ absurd (apart (ap some ((nat_eq.same_iff x o).0 same)))
    | inr differs ↦ rw differs hc
  ]

  set_unseen :
      (p.blocks o).watched ≡ false
      → p.capture_block_sensor
        ≡ block_states (put o (enter v (p.blocks o)) p.blocks) p.capture_blocks
  set_unseen unwatched =
      let gone =
        lookup-unlisted p.blocks p.next_block o p.capture_blocks h.listed h.named below
          (rw unwatched (ground arith)) in
      rw h.sensed (
        sym (
          block_states-put p.blocks p.next_block o (enter v (p.blocks o)) p.capture_blocks h.listed
            gone))

  -- The sensor after the change.
  set_account :
      (sensor : Dict CaptureBlockState)
      → sensor ≡ block_states (put o (enter v (p.blocks o)) p.blocks) p.capture_blocks
      → IsAccounted (with_block o (enter v (p.blocks o)) sensor p)
  set_account sensor is = record {
    listed = Each-map p.capture_blocks set-Listed h.listed;
    once = h.once;
    named = λ a b la lb e. ground (arith, h.named a b);
    buried = λ a la e. ground (arith, h.buried a);
    captures = set-Captures p.current_capture_block other h.captures;
    sole = λ a la e s. ground (arith, h.sole a);
    unique = λ a b la lb e f. ground (arith, h.unique a b);
    sensed = is;
  }

  pub set_block_state-IsAccounted : IsAccounted (set_block_state o v p)
  set_block_state-IsAccounted = elim (set_block_state_cases o v p) [
    | inl (same, e) ↦ subst IsAccounted (sym e) h
    | inr (inl (watched, e)) ↦
        subst IsAccounted (sym e) (set_account (sense o (enter v (p.blocks o)) p) refl)
    | inr (inr (unwatched, e)) ↦
        subst IsAccounted (sym e) (set_account p.capture_block_sensor (set_unseen unwatched))
  ]

-- What does not concern the capture blocks.
pub IsAccounted-holders :
    (p : Product) (hs : List Holder) → IsAccounted p → IsAccounted (record p { holders = hs })
IsAccounted-holders p hs h = record {
  listed = h.listed;
  once = h.once;
  named = h.named;
  buried = h.buried;
  captures = h.captures;
  sole = h.sole;
  unique = h.unique;
  sensed = h.sensed;
}

-- Where a block is taken off the list.
Listed-remove :
    (blocks : ℕ → CaptureBlock) (n o : ℕ) (b : CaptureBlock) (d : Dict ℕ)
    → Each (Listed blocks n) d
    → Each (Listed (put o b blocks) n) (remove (blocks o).name d)
Listed-remove blocks n o b [] listed = tt
Listed-remove blocks n o b (e ∷ d) listed = elim (Bool-cases ((blocks o).name == e.0)) [
  | inl same ↦ rw same (Listed-remove blocks n o b d listed.1)
  | inr other ↦ elim (Bool-cases (e.1 == o)) [
    | inl it ↦
        let is = (nat_eq.same_iff e.1 o).0 it in
        let name : (blocks o).name ≡ e.0 = rw (← is) listed.0.1 in
        let same : ((blocks o).name == e.0) ≡ true = rw name (same_refl e.0) in absurd (cc)
    | inr apart ↦ rw (other, apart) (listed.0, Listed-remove blocks n o b d listed.1)
  ]
]

module _ (o : ℕ) (p : Product) (h : IsAccounted p) (below : o < p.next_block)
    (other : p.current_capture_block ≢ some o) where
  abbrev rest : Dict ℕ
  rest = remove (p.blocks o).name p.capture_blocks

  abbrev corpse : CaptureBlock
  corpse = enter CaptureBlockState.dead (p.blocks o)

  dead-Captures :
      (c : Option ℕ)
      → c ≢ some o
      → Captures p.blocks p.next_block p.capture_blocks c
      → Captures (put o corpse p.blocks) p.next_block rest c
  dead-Captures none apart hc = tt
  dead-Captures (some x) apart hc = elim (Bool-cases (x == o)) [
    | inl same ↦ absurd (apart (ap some ((nat_eq.same_iff x o).0 same)))
    | inr differs ↦ elim (Bool-cases ((p.blocks x).name == (p.blocks o).name)) [
      | inl alike ↦
          let is = h.named x o hc.0 below (same_eq (p.blocks x).name (p.blocks o).name alike) in
          absurd (apart (ap some is))
      | inr unlike ↦ rw differs (
        hc.0,
        hc.1,
        ground (arith, lookup-remove (p.blocks x).name (p.blocks o).name p.capture_blocks, hc.2),
        hc.3,
      )
    ]
  ]

  dead_buried :
      (a : ℕ)
      → a < p.next_block
      → (put o corpse p.blocks a).dead_event ≡ true
      → lookup (put o corpse p.blocks a).name rest ≡ none
  dead_buried a la e = elim (Bool-cases (a == o)) [
    | inl same ↦ rw same (
        ground (
          arith,
          lookup-remove (p.blocks o).name (p.blocks o).name p.capture_blocks,
          same_refl (p.blocks o).name,
        ))
    | inr differs ↦
        let before = rw differs at e in
        rw differs (
          ground (
            arith,
            lookup-remove (p.blocks a).name (p.blocks o).name p.capture_blocks,
            h.buried a la before,
          ))
  ]

  dead_account :
      (sensor : Dict CaptureBlockState)
      → sensor ≡ block_states (put o corpse p.blocks) rest
      → IsAccounted (with_block o corpse sensor (record p { capture_blocks = rest }))
  dead_account sensor is = record {
    listed = Listed-remove p.blocks p.next_block o corpse p.capture_blocks h.listed;
    once = remove-IsDict (p.blocks o).name p.capture_blocks h.once;
    named = λ a b la lb e. ground (arith, h.named a b);
    buried = dead_buried;
    captures = dead-Captures p.current_capture_block other h.captures;
    sole = λ a la e s. ground (arith, h.sole a);
    unique = λ a b la lb e f. ground (arith, h.unique a b);
    sensed = is;
  }

  gone :
      (block_is (p.blocks o).state CaptureBlockState.dead || not (p.blocks o).watched) ≡ true
      → rest ≡ p.capture_blocks
  gone over =
      remove-absent (p.blocks o).name p.capture_blocks
        (lookup-unlisted p.blocks p.next_block o p.capture_blocks h.listed h.named below over)

  dead_unseen :
      (p.blocks o).watched ≡ false
      → p.capture_block_sensor ≡ block_states (put o corpse p.blocks) rest
  dead_unseen unwatched =
      let over : (block_is (p.blocks o).state CaptureBlockState.dead || not (p.blocks o).watched)
          ≡ true =
        rw unwatched (ground arith) in
      let unlisted =
        lookup-unlisted p.blocks p.next_block o p.capture_blocks h.listed h.named below over in
      rw (gone over) (
        h.sensed
        ∙ sym (block_states-put p.blocks p.next_block o corpse p.capture_blocks h.listed unlisted))

  buried_account :
      IsAccounted (set_block_state o CaptureBlockState.dead (record p { capture_blocks = rest }))
  buried_account =
      let p' = record p { capture_blocks = rest } in
      elim (set_block_state_cases o CaptureBlockState.dead p') [
        | inl (same, e) ↦ subst IsAccounted (sym e) (
            subst (λ d. IsAccounted (record p { capture_blocks = d })) (sym (gone (rw same refl)))
              h)
        | inr (inl (watched, e)) ↦ subst IsAccounted (sym e) (dead_account (sense o corpse p') refl)
        | inr (inr (unwatched, e)) ↦
            subst IsAccounted (sym e) (dead_account p.capture_block_sensor (dead_unseen unwatched))
      ]

  pub capture_block_dead-IsAccounted : IsAccounted (capture_block_dead o p)
  unfolding capture_block_dead
  capture_block_dead-IsAccounted = IsAccounted-holders _ _ buried_account
