-- ===== src/ProductController/CaptureBlocks.antt =====
-- What holds of the capture blocks of a `SubarrayProduct`, whatever happens: the class comment of
-- `SubarrayProduct` and `_update_capture_block_sensor`. product_controller.py.
use katsdpcontroller.Prelude.{
  nat_eq, ℕ, ◌<◌, ◌≡◌, ◌≢◌, ◌⊎◌, Bool, true, none, some, arith, refl, subst, String, inl, inr,
  lookup, Each, IsDict,
}
use katsdpcontroller.ProductController.{
  ProductState, CaptureBlockState, CaptureBlock, Product, block_states,
}
use katsdpcontroller.ProductController.Requests.{Reach, new_product}
use katsdpcontroller.ProductController.Control.{fits}
use katsdpcontroller.ProductController.Accounts.{is_open, Captures, Each-map}
use katsdpcontroller.ProductController.Accounts.Reachable.{Reach-IsSound}

-- The capture block is the only one that captures, and is live.
abbrev pub IsCurrent : ℕ → Product → Type 0
IsCurrent o p =
    ((p.state ≡ ProductState.capturing) ⊎ (p.state ≡ ProductState.error))
    × (o < p.next_block)
    × ((p.blocks o).state ≡ CaptureBlockState.capturing)
    × (lookup (p.blocks o).name p.capture_blocks ≡ some o)
    × ((a : ℕ) → a < p.next_block → (p.blocks a).state ≡ CaptureBlockState.capturing → a ≡ o)

-- In every state that a subarray product can reach, with a telescope state or without: a product
-- that is CAPTURING has a current capture block; a current capture block exists only while the
-- product is CAPTURING or in ERROR, is live, is in state CAPTURING, and is the only block in that
-- state; and until the product is deconfigured, a block in state CAPTURING is the current one.
-- Capture blocks have names of their own.
pub Reach-IsCurrent :
    (has_telstate : Bool) (p : Product)
    → Reach (new_product has_telstate) p
    → (p.state ≡ ProductState.capturing → p.current_capture_block ≢ none)
      × ((o : ℕ) → p.current_capture_block ≡ some o → IsCurrent o p)
      × ((o : ℕ)
          → o < p.next_block
          → (p.blocks o).state ≡ CaptureBlockState.capturing
          → is_open p.state ≡ true
          → p.current_capture_block ≡ some o)
Reach-IsCurrent has_telstate p reached =
    let h = Reach-IsSound has_telstate p reached in
    let a = h.known.accounted in
    (
      λ at_work nothing. let fitting = h.controlled.fitting in ground arith,
      λ o current.
          let (below, captures, live, reached') =
            subst (Captures p.blocks p.next_block p.capture_blocks) current a.captures in
          (
            states p.state o (subst (λ c. fits p.state c ≡ true) current h.controlled.fitting),
            below,
            captures,
            live,
            λ x lx e. a.unique x o lx below e captures,
          ),
      a.sole,
    )
  where
    states :
        (s : ProductState) (o : ℕ)
        → fits s (some o) ≡ true
        → (s ≡ ProductState.capturing) ⊎ (s ≡ ProductState.error)
    states ProductState.capturing o e = inl refl
    states ProductState.error o e = inr refl
    states s o e = absurd (cc)

-- A capture block that exists, under its own name, and is not dead.
abbrev pub IsLive : (ℕ → CaptureBlock) → ℕ → String → ℕ → Type 0
IsLive blocks n k o = (o < n) × ((blocks o).name ≡ k) × ((blocks o).state ≢ CaptureBlockState.dead)

-- In every state that a subarray product can reach, the capture block sensor holds the names and
-- present states of the live capture blocks; no name is listed twice; every live block has been
-- created, is listed under its own name and is not DEAD; and a block whose death has been
-- signalled is not listed. Capture blocks have names of their own.
pub Reach-IsLive :
    (has_telstate : Bool) (p : Product)
    → Reach (new_product has_telstate) p
    → (p.capture_block_sensor ≡ block_states p.blocks p.capture_blocks)
      × IsDict p.capture_blocks
      × Each (IsLive p.blocks p.next_block) p.capture_blocks
      × ((o : ℕ)
          → o < p.next_block
          → (p.blocks o).dead_event ≡ true
          → lookup (p.blocks o).name p.capture_blocks ≡ none)
Reach-IsLive has_telstate p reached =
    let a = (Reach-IsSound has_telstate p reached).known.accounted in
    (a.sensed, a.once, Each-map p.capture_blocks (λ k o l. (l.0, l.1, l.2)) a.listed, a.buried)
