-- ===== src/ProductController/Accounts/Live.antt =====
-- What an operation of a `SubarrayProduct` does to the capture blocks, from one `await` to the
-- next. product_controller.py.
use katsdpcontroller.Prelude.{
  remove-absent, nat_eq, string_eq, ℕ, ◌<◌, ◌≡◌, ◌≢◌, ◌⊎◌, Bool, true, false, not, ◌||◌, Option,
  Bool-cases, Option-cases, none, some, arith, refl, sym, subst, ap, ◌∙◌, [], ◌∷◌, String, Dict,
  inl, inr, lookup, remove, Each, lookup-insert, same_refl,
}
use katsdpcontroller.Errors.{Error, fail_reply, assertion_error}
use katsdpcontroller.ProductController.{
  ProductState, CaptureBlockState, Product, Job, product_is, set_block_state, set_state, init_start,
  init_telstate, init_transition, done_start, done_transition,
}
use katsdpcontroller.ProductController.Tasks.{Next, awaits, returns, raises}
use katsdpcontroller.ProductController.Operations.{
  Step, start_postprocess, init_begin, init_end, init_failed, done_end, deconfigure_next,
  deconfigure_loop, deconfigure_pop, done_begin, is_current, is_raised, outcome_of,
}
use katsdpcontroller.ProductController.Control.{starts}
use katsdpcontroller.ProductController.Accounts.{Listed, is_open, Captures}
use katsdpcontroller.ProductController.Accounts.Blocks.{set_block_state_cases}
use katsdpcontroller.ProductController.Accounts.Knowledge.{Always, IsKnown, dead-IsKnown}
use katsdpcontroller.ProductController.Accounts.Operations.{
  abandon_all-IsKnown, below-Listed, alike-IsKnown, set_state-IsKnown, set_fields, place,
  place-IsKnown, begun-IsKnown,
}
use katsdpcontroller.ProductController.Accounts.Burndown.{start_postprocess-IsKnown}

-- A capture block that is being started.
abbrev pub IsEarly : ℕ → Product → Type 0
IsEarly o p =
    ((p.blocks o).state ≡ CaptureBlockState.initialising) × ((p.blocks o).dead_event ≡ false)

abbrev pub IsPlaced : ℕ → Product → Type 0
IsPlaced o p = ((p.blocks o).watched ≡ true) × (lookup (p.blocks o).name p.capture_blocks ≡ some o)

-- What an operation that is not cancelled knows.
abbrev pub Live : Job → Product → Type 0
Live (init_start o) p = IsEarly o p
Live (init_telstate o) p = IsEarly o p × IsPlaced o p
Live (init_transition o) p = IsEarly o p × IsPlaced o p
Live _ p = Unit

-- A task goes on to start the capture block that it was starting.
abbrev pub Continues : Job → Product → Job → Product → Type 0
Continues job p job' q =
    (x : ℕ) → starts job' ≡ some x → (starts job ≡ some x) × (q.tasks ≡ p.tasks)

abbrev pub Knows : Job → Product → Next → Product → Type 0
Knows job p (awaits job') q = Always job' q × Live job' q × Continues job p job' q
Knows job p _ q = Unit

abbrev pub KnowsStep : Job → Product → Step → Type 0
KnowsStep job p (q, next) = IsKnown q × Knows job p next q

module _ (p : Product) (k : IsKnown p) where
  pub init_failed-Known :
      (job : Job) (o : ℕ) (e : Error)
      → o < p.next_block
      → p.current_capture_block ≡ none
      → is_open p.state ≡ true
      → KnowsStep job p (init_failed o e p)
  unfolding init_failed
  init_failed-Known job o e below idle opened =
      let k' = set_state-IsKnown ProductState.error p k (λ x. opened) in
      let f = set_fields ProductState.error p in
      let other : (set_state ProductState.error p).current_capture_block ≢ some o =
        λ c. ground (arith, f, idle) in
      (dead-IsKnown o (set_state ProductState.error p) k' (rw f.1 below) other, tt)

module _ (o : ℕ) (p : Product) (k : IsKnown p) (below : o < p.next_block) (early : IsEarly o p)
    (idle : p.current_capture_block ≡ none) (opened : is_open p.state ≡ true) where
  abbrev q : Product
  q = place o p k below early.0 early.1 idle

  q-IsKnown : IsKnown q
  q-IsKnown = place-IsKnown o p k below early.0 early.1 idle

  q-IsEarly : IsEarly o q × IsPlaced o q
  q-IsEarly = rw ((nat_eq.same_iff o o).1 refl) (
    early,
    (
      refl,
      lookup-insert (p.blocks o).name (p.blocks o).name o p.capture_blocks
          ∙ rw (same_refl (p.blocks o).name) refl,
    ),
  )

  begin_there : p.has_telstate ≡ true → init_begin o p ≡ (q, awaits (init_telstate o))
  unfolding init_begin
  begin_there there = ground arith

  begin_absent : p.has_telstate ≡ false → init_begin o p ≡ init_failed o assertion_error q
  unfolding init_begin
  begin_absent absent = ground arith

  pub init_begin-Known : KnowsStep (init_start o) p (init_begin o p)
  unfolding init_failed
  init_begin-Known = elim (Bool-cases p.has_telstate) [
    | inl there ↦
        subst (KnowsStep (init_start o) p) (sym (begin_there there))
          (q-IsKnown, (below, q-IsEarly, λ x e. (e, refl)))
    | inr absent ↦
        let (k', known) =
          init_failed-Known q q-IsKnown (init_start o) o assertion_error below idle opened in
        subst (KnowsStep (init_start o) p) (sym (begin_absent absent)) (k', tt)
  ]

  module _ (placed_there : IsPlaced o p) where
    r : Product
    r =
        set_block_state o CaptureBlockState.capturing
          (record (set_state ProductState.capturing p) { current_capture_block = some o })

    end_fine : product_is p.state ProductState.error ≡ false → init_end o p ≡ (r, returns)
    unfolding init_end r
    end_fine fine = ground arith

    end_failed :
        product_is p.state ProductState.error ≡ true → init_end o p ≡ init_failed o fail_reply p
    unfolding init_end
    end_failed failed = ground arith

    r-IsKnown : IsKnown r
    unfolding r
    r-IsKnown =
        let f = set_fields ProductState.capturing p in
        let p' = record (set_state ProductState.capturing p) { current_capture_block = some o } in
        elim (set_block_state_cases o CaptureBlockState.capturing p') [
          | inl (same, e) ↦ absurd (ground (arith, f, early))
          | inr (inr (unwatched, e)) ↦ absurd (ground (arith, f, placed_there))
          | inr (inl (watched, e)) ↦
              begun-IsKnown o p k below early.0 early.1 placed_there.0 placed_there.1 idle opened
                (set_block_state o CaptureBlockState.capturing p') (rw e refl) (rw e (rw f.0 refl))
                (rw e f.1) (rw e f.2) (rw e f.4) (rw e (rw (f.0, f.2) refl))
        ]

    pub init_end-Known : KnowsStep (init_transition o) p (init_end o p)
    init_end-Known = elim (Bool-cases (product_is p.state ProductState.error)) [
      | inl failed ↦
          subst (KnowsStep (init_transition o) p) (sym (end_failed failed))
            (init_failed-Known p k (init_transition o) o fail_reply below idle opened)
      | inr fine ↦ subst (KnowsStep (init_transition o) p) (sym (end_fine fine)) (r-IsKnown, tt)
    ]

module _ (p : Product) (k : IsKnown p) where
  begin_none :
      (e : Bool) → p.current_capture_block ≡ none → done_begin e p ≡ (p, raises assertion_error)
  unfolding done_begin
  begin_none e nothing = ground arith

  begin_some :
      (e : Bool) (o : ℕ)
      → p.current_capture_block ≡ some o
      → done_begin e p ≡ (p, awaits (done_transition o e))
  unfolding done_begin
  begin_some e o current = ground arith

  pub done_begin-Known : (e : Bool) → KnowsStep (done_start e) p (done_begin e p)
  done_begin-Known e = elim (Option-cases p.current_capture_block) [
    | inl nothing ↦ subst (KnowsStep (done_start e) p) (sym (begin_none e nothing)) (k, tt)
    | inr (o, current) ↦
        let c =
          subst (Captures p.blocks p.next_block p.capture_blocks) current k.accounted.captures in
        subst (KnowsStep (done_start e) p) (sym (begin_some e o current))
          (k, (c.0, tt, λ x f. absurd (cc)))
  ]

  pub deconfigure_next-Known :
      (job : Job) (force : Bool)
      → p.current_capture_block ≡ none
      → KnowsStep job p (deconfigure_next force p)
  unfolding deconfigure_next
  deconfigure_next-Known job true idle = (
    abandon_all-IsKnown p.capture_blocks p k idle
        (below-Listed p.blocks p.next_block p.capture_blocks k.accounted.listed),
    (tt, tt, λ x f. absurd (cc)),
  )
  deconfigure_next-Known job false idle = (k, (tt, tt, λ x f. absurd (cc)))

  -- The product is dead.
  dead_product : Product
  dead_product = record (set_state ProductState.dead p) { dead_event = true }

  dead_product-IsKnown : IsKnown dead_product
  unfolding dead_product
  dead_product-IsKnown =
      let f = set_fields ProductState.dead p in
      let k' = set_state-IsKnown ProductState.dead p k (λ e. absurd (cc)) in
      alike-IsKnown (set_state ProductState.dead p) dead_product k' refl refl refl refl refl
        k'.accounted.captures k'.accounted.sole

  pub loop-Known :
      (job : Job) (d : Dict ℕ)
      → Each (Listed p.blocks p.next_block) d
      → KnowsStep job p (deconfigure_loop d p)
  unfolding dead_product
  loop-Known job [] listed = (dead_product-IsKnown, tt)
  loop-Known job ((n, o) ∷ d) listed = (k, ((listed.0.0, listed.0.1), tt, λ x f. absurd (cc)))

  pub pop_same :
      (n : String) (o : ℕ)
      → (o < p.next_block) × ((p.blocks o).name ≡ n)
      → (p.blocks o).dead_event ≡ true
      → deconfigure_pop n p ≡ deconfigure_loop p.capture_blocks p
  pop_same n o known over =
      let unlisted = k.accounted.buried o known.0 over in
      let is : remove n p.capture_blocks ≡ p.capture_blocks =
        remove-absent n p.capture_blocks
          (subst (λ m. lookup m p.capture_blocks ≡ none) known.1 unlisted) in
      ap (λ d. deconfigure_loop d (record p { capture_blocks = d })) is

  done_end_cases :
      (o : ℕ) (e : Bool) (failure : Option Error)
      → (done_end o e failure p ≡ (p, raises assertion_error))
        ⊎ (done_end o e failure p ≡ (start_postprocess o p, outcome_of failure))
        ⊎ ((p.state ≡ ProductState.capturing)
            × (done_end o e failure p
                ≡ (start_postprocess o (set_state ProductState.idle p), outcome_of failure)))
  unfolding done_end
  done_end_cases o e failure = elim (Bool-cases (product_is p.state ProductState.capturing)) [
    | inl capturing ↦ elim (Bool-cases (is_current o p.current_capture_block)) [
      | inl current ↦ inr (inr (ground arith, ground (arith, capturing, current)))
      | inr other ↦ inl (ground (arith, other))
    ]
    | inr different ↦
        elim (Bool-cases
          (not (is_current o p.current_capture_block) || not (is_raised failure || e))) [
            | inl wrong ↦ inl (ground (arith, different, wrong))
            | inr right ↦ inr (inl (ground (arith, different, right)))
          ]
  ]

  after_end :
      (job : Job) (q : Product) (failure : Option Error)
      → IsKnown q
      → KnowsStep job p (q, outcome_of failure)
  after_end job q none k' = (k', tt)
  after_end job q (some e) k' = (k', tt)

  current_is :
      (o : ℕ) → is_current o p.current_capture_block ≡ true → p.current_capture_block ≡ some o
  current_is o current = ground arith

  pub done_end-Known :
      (o : ℕ) (e : Bool) (failure : Option Error)
      → is_current o p.current_capture_block ≡ true
      → KnowsStep (done_transition o e) p (done_end o e failure p)
  done_end-Known o e failure current =
      let job = done_transition o e in
      let idle = set_state ProductState.idle p in
      let f = set_fields ProductState.idle p in
      elim (done_end_cases o e failure) [
        | inl is ↦ subst (KnowsStep job p) (sym is) (k, tt)
        | inr (inl is) ↦ subst (KnowsStep job p) (sym is) (
            after_end job (start_postprocess o p) failure
              (start_postprocess-IsKnown o p k (current_is o current)))
        | inr (inr (capturing, is)) ↦
            let k' = set_state-IsKnown ProductState.idle p k (λ x. ground arith) in
            subst (KnowsStep job p) (sym is) (
              after_end job (start_postprocess o idle) failure
                (start_postprocess-IsKnown o idle k' (f.5 ∙ current_is o current)))
      ]

pub rebase :
    (job : Job) (p p' : Product) (s : Step)
    → p'.tasks ≡ p.tasks
    → KnowsStep job p' s
    → KnowsStep job p s
rebase job p p' (q, awaits j) same (k, (a, l, c)) =
    (k, (a, l, λ x e. ((c x e).0, (c x e).1 ∙ same)))
rebase job p p' (q, returns) same (k, u) = (k, tt)
rebase job p p' (q, raises e) same (k, u) = (k, tt)
