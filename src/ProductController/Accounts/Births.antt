-- ===== src/ProductController/Accounts/Births.antt =====
-- A new capture block of a `SubarrayProduct`: `capture_init`. product_controller.py.
use katsdpcontroller.Prelude.{
  ◌==◌, nat_eq, string_eq, ℕ, ◌+◌, ◌<◌, ◌≡◌, ◌⊎◌, true, false, Option, Bool-cases, none, some,
  arith, refl, sym, ◌∙◌, [], ◌∷◌, inl, inr, String, Dict, lookup, Each,
}
use katsdpcontroller.ProductController.{CaptureBlockState, CaptureBlock, Product, put, block_states}
use katsdpcontroller.ProductController.Requests.{new_block, IsNewName}
use katsdpcontroller.ProductController.Accounts.{Listed, IsAccounted, Each-map, Captures, IsNamed}
use katsdpcontroller.ProductController.Accounts.Knowledge.{AlwaysTask-Lasts, Lasts}
use katsdpcontroller.ProductController.Accounts.Live.{IsEarly}
use katsdpcontroller.ProductController.Accounts.Quiet.{Spares}
use katsdpcontroller.ProductController.Accounts.Steps.{LiveTask-Spares}
use katsdpcontroller.ProductController.Accounts.Calls.{IsKeen}
use katsdpcontroller.ProductController.Accounts.Steps.{LiveTask-Spares}

-- A capture block that is not listed can be made unseen.
block_states-fresh :
    (blocks : ℕ → CaptureBlock) (n : ℕ) (b : CaptureBlock) (d : Dict ℕ)
    → Each (Listed blocks n) d
    → block_states (put n b blocks) d ≡ block_states blocks d
block_states-fresh blocks n b [] listed = refl
block_states-fresh blocks n b (e ∷ d) listed =
    let apart : (e.1 == n) ≡ false = ground (arith, listed.0.0) in
    rw (apart, block_states-fresh blocks n b d listed.1) refl

module _ (n : String) (p : Product) (h : IsKeen p) (new : IsNewName n p) where
  abbrev pub born : Product
  born = record p {
    blocks = put p.next_block (new_block n) p.blocks;
    next_block = p.next_block + 1;
  }

  -- A block below the count is an old one.
  old_block : (a : ℕ) → a < p.next_block → born.blocks a ≡ p.blocks a
  old_block a la = let apart : (a == p.next_block) ≡ false = ground arith in rw apart refl

  new_is : born.blocks p.next_block ≡ new_block n
  new_is = rw ((nat_eq.same_iff p.next_block p.next_block).1 refl) refl

  block_cases : (a : ℕ) → a < born.next_block → (a < p.next_block) ⊎ (a ≡ p.next_block)
  block_cases a la = elim (Bool-cases (a == p.next_block)) [
    | inl same ↦ inr ((nat_eq.same_iff a p.next_block).0 same)
    | inr apart ↦ inl (ground arith)
  ]

  born-Listed :
      (k : String) (o : ℕ)
      → Listed p.blocks p.next_block k o
      → Listed born.blocks born.next_block k o
  born-Listed k o l = rw (old_block o l.0) (omega (arith, l.0), l.1, l.2, l.3)

  born_named : IsNamed born.blocks born.next_block
  born_named a b la lb e = elim (block_cases a la) [
    | inl older ↦ elim (block_cases b lb) [
      | inl older' ↦
          h.known.accounted.named a b older older' (rw (old_block a older, old_block b older') at e)
      | inr is ↦
          let same : (p.blocks a).name ≡ n = rw (old_block a older, is, new_is) at e in
          absurd (new a older same)
    ]
    | inr is ↦ elim (block_cases b lb) [
      | inl older' ↦
          let same : n ≡ (p.blocks b).name = rw (is, new_is, old_block b older') at e in
          absurd (new b older' (sym same))
      | inr is' ↦ is ∙ sym is'
    ]
  ]

  born-Captures :
      (c : Option ℕ)
      → Captures p.blocks p.next_block p.capture_blocks c
      → Captures born.blocks born.next_block p.capture_blocks c
  born-Captures none k = tt
  born-Captures (some o) k = rw (old_block o k.0) (omega (arith, k.0), k.1, k.2, k.3)

  -- A block that captures is an old one.
  old_captures :
      (a : ℕ)
      → a < born.next_block
      → (born.blocks a).state ≡ CaptureBlockState.capturing
      → (a < p.next_block) × ((p.blocks a).state ≡ CaptureBlockState.capturing)
  old_captures a la e = elim (block_cases a la) [
    | inl older ↦ (older, rw (old_block a older) at e)
    | inr is ↦ let wrong = rw (is, new_is) at e in absurd (cc)
  ]

  born_buried :
      (a : ℕ)
      → a < born.next_block
      → (born.blocks a).dead_event ≡ true
      → lookup (born.blocks a).name p.capture_blocks ≡ none
  born_buried a la e = elim (block_cases a la) [
    | inl older ↦
        rw (old_block a older) (h.known.accounted.buried a older (rw (old_block a older) at e))
    | inr is ↦ let wrong = rw (is, new_is) at e in absurd (cc)
  ]

  born-IsAccounted : IsAccounted born
  born-IsAccounted = record {
    listed = Each-map p.capture_blocks born-Listed h.known.accounted.listed;
    once = h.known.accounted.once;
    named = born_named;
    buried = born_buried;
    captures = born-Captures p.current_capture_block h.known.accounted.captures;
    sole = λ a la e s. let old = old_captures a la e in h.known.accounted.sole a old.0 old.1 s;
    unique = λ a b la lb e f.
        let old = old_captures a la e in
        let old' = old_captures b lb f in h.known.accounted.unique a b old.0 old'.0 old.1 old'.1;
    sensed =
        h.known.accounted.sensed
        ∙ sym (
            block_states-fresh p.blocks p.next_block (new_block n) p.capture_blocks
              h.known.accounted.listed);
  }

  born-Lasts : Lasts p born
  born-Lasts = record {
    bigger = omega arith;
    same_name = λ a la. rw (old_block a la) refl;
    later = λ a la over. rw (old_block a la) over;
  }

  born-Spares : (a : ℕ) → a < p.next_block → Spares a p born
  born-Spares a la = rw (old_block a la) (λ e. e, λ e. e)

  pub born-IsKeen : IsKeen born
  born-IsKeen = record {
    known = record {
      accounted = born-IsAccounted;
      always = λ u. AlwaysTask-Lasts (p.tasks u) p born born-Lasts (h.known.always u);
      separate = h.known.separate;
    };
    lively = λ u.
        LiveTask-Spares (p.tasks u) p born (h.known.always u) (λ a la e s l. born-Spares a la)
          (h.lively u);
    unstarted = h.unstarted;
  }

  pub born-IsEarly : IsEarly p.next_block born
  born-IsEarly = rw new_is (refl, refl)
