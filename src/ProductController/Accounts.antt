-- ===== src/ProductController/Accounts.antt =====
-- The capture blocks of a `SubarrayProduct` between its steps: the invariants of the class comment,
-- and that the capture block sensor is up to date. product_controller.py.
pub mod Blocks
pub mod Knowledge
pub mod Operations
pub mod Burndown
pub mod Live
pub mod Advance
pub mod Quiet
pub mod Steps
pub mod Sound
pub mod Calls
pub mod Births
pub mod Reachable
use katsdpcontroller.Prelude.{
  ◌==◌, nat_eq, string_eq, ℕ, ◌+◌, ◌≤◌, ◌<◌, ◌≡◌, ◌≢◌, ◌⊎◌, Bool, true, false, not, ◌&&◌, ◌||◌,
  Option, Bool-cases, none, some, arith, refl, sym, subst, ap, ◌∙◌, List, [], ◌∷◌, ◌++◌, map,
  String, Dict, inl, inr, lookup, insert, remove, if◌then◌else◌, IsDict, Each, All, same_eq,
  same_refl, flip, lookup-Each, lookup-remove, some_inj,
}
use katsdpcontroller.ProductController.{
  ProductState, CaptureBlockState, CaptureBlock, Product, put, block_states, enter, has_state,
  block_is, product_is,
}

-- A live capture block, under its name.
abbrev pub Listed : (ℕ → CaptureBlock) → ℕ → String → ℕ → Type 0
Listed blocks n k o =
    (o < n)
    × ((blocks o).name ≡ k)
    × ((blocks o).state ≢ CaptureBlockState.dead)
    × ((blocks o).watched ≡ true)

abbrev pub IsNamed : (ℕ → CaptureBlock) → ℕ → Type 0
IsNamed blocks n = (a b : ℕ) → a < n → b < n → (blocks a).name ≡ (blocks b).name → a ≡ b

-- Before the product is deconfigured.
abbrev pub is_open : ProductState → Bool
is_open s =
    product_is s ProductState.configuring
    || product_is s ProductState.idle
    || product_is s ProductState.capturing
    || product_is s ProductState.error

-- The current capture block is capturing, and is live.
abbrev pub Captures : (ℕ → CaptureBlock) → ℕ → Dict ℕ → Option ℕ → Type 0
Captures blocks n d none = Unit
Captures blocks n d (some o) =
    (o < n)
    × ((blocks o).state ≡ CaptureBlockState.capturing)
    × (lookup (blocks o).name d ≡ some o)
    × (has_state CaptureBlockState.capturing (blocks o).state_time ≡ true)

pub record IsAccounted (p : Product) : Type 0 where
  pub listed : Each (Listed p.blocks p.next_block) p.capture_blocks
  pub once : IsDict p.capture_blocks
  pub named : IsNamed p.blocks p.next_block
  pub buried :
      (a : ℕ)
      → a < p.next_block
      → (p.blocks a).dead_event ≡ true
      → lookup (p.blocks a).name p.capture_blocks ≡ none
  pub captures : Captures p.blocks p.next_block p.capture_blocks p.current_capture_block
  pub sole :
      (a : ℕ)
      → a < p.next_block
      → (p.blocks a).state ≡ CaptureBlockState.capturing
      → is_open p.state ≡ true
      → p.current_capture_block ≡ some a
  pub unique :
      (a b : ℕ)
      → a < p.next_block
      → b < p.next_block
      → (p.blocks a).state ≡ CaptureBlockState.capturing
      → (p.blocks b).state ≡ CaptureBlockState.capturing
      → a ≡ b
  pub sensed : p.capture_block_sensor ≡ block_states p.blocks p.capture_blocks

pub if_cases {ℓ} :
    {A : Type ℓ} (b : Bool) (x y : A)
    → ((b ≡ true) × ((if b then x else y) ≡ x)) ⊎ ((b ≡ false) × ((if b then x else y) ≡ y))
if_cases true x y = inl (refl, refl)
if_cases false x y = inr (refl, refl)

-- A property of every entry, from another.
pub Each-map {ℓ κ μ} :
    {V : Type ℓ} {P : String → V → Type κ} {Q : String → V → Type μ} (d : Dict V)
    → ((k : String) (v : V) → P k v → Q k v)
    → Each P d
    → Each Q d
Each-map [] f h = tt
Each-map (e ∷ d) f h = (f e.0 e.1 h.0, Each-map d f h.1)

-- A block that is dead, or that nobody watches, is not live, nor is another of its name.
pub lookup-unlisted :
    (blocks : ℕ → CaptureBlock) (n o : ℕ) (d : Dict ℕ)
    → Each (Listed blocks n) d
    → IsNamed blocks n
    → o < n
    → (block_is (blocks o).state CaptureBlockState.dead || not (blocks o).watched) ≡ true
    → lookup (blocks o).name d ≡ none
lookup-unlisted blocks n o [] listed named below over = refl
lookup-unlisted blocks n o (e ∷ d) listed named below over =
    elim (Bool-cases ((blocks o).name == e.0)) [
      | inl same ↦
          let name : (blocks o).name ≡ e.0 = same_eq (blocks o).name e.0 same in
          let it : o ≡ e.1 = named o e.1 below listed.0.0 (name ∙ sym listed.0.1) in
          let alive : Listed blocks n e.0 o = rw it listed.0 in ground arith
      | inr other ↦ rw other (lookup-unlisted blocks n o d listed.1 named below over)
    ]

-- A block that is not live can change unseen.
pub block_states-put :
    (blocks : ℕ → CaptureBlock) (n o : ℕ) (b : CaptureBlock) (d : Dict ℕ)
    → Each (Listed blocks n) d
    → lookup (blocks o).name d ≡ none
    → block_states (put o b blocks) d ≡ block_states blocks d
block_states-put blocks n o b [] listed gone = refl
block_states-put blocks n o b (e ∷ d) listed gone = elim (Bool-cases ((blocks o).name == e.0)) [
  | inl same ↦ absurd (ground (arith, same))
  | inr other ↦ elim (Bool-cases (e.1 == o)) [
    | inl it ↦
        let is = (nat_eq.same_iff e.1 o).0 it in
        let name : (blocks o).name ≡ e.0 = rw (← is) listed.0.1 in
        let same : ((blocks o).name == e.0) ≡ true = rw name (same_refl e.0) in absurd (cc)
    | inr apart ↦ rw (apart, block_states-put blocks n o b d listed.1 (rw other at gone)) refl
  ]
]
