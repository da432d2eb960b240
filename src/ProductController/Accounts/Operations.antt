-- ===== src/ProductController/Accounts/Operations.antt =====
-- What the operations of a `SubarrayProduct` do to its capture blocks. product_controller.py.
use katsdpcontroller.Prelude.{
  ◌==◌, nat_eq, string_eq, ℕ, ◌≤◌, ◌<◌, ◌≡◌, ◌≢◌, true, false, Option, Bool-cases, none, some,
  arith, refl, sym, ap, ◌∙◌, List, [], ◌∷◌, ◌++◌, String, Dict, inl, inr, lookup, insert, All, Each,
  insert-Each, insert-IsDict, lookup-insert, same_eq,
}
use katsdpcontroller.ProductController.{
  ProductState, CaptureBlockState, CaptureBlock, Product, put, enter, has_state, set_state,
  update_capture_block_sensor,
}
use katsdpcontroller.ProductController.Operations.{abandon, abandon_all}
use katsdpcontroller.ProductController.Control.Moves.{abandon-IsTame}
use katsdpcontroller.ProductController.Accounts.{Listed, is_open, Captures, Each-map}
use katsdpcontroller.ProductController.Accounts.Blocks.{sense}
use katsdpcontroller.ProductController.Accounts.Knowledge.{
  IsKnown, same_tasks-IsKnown, put-Lasts, same-Lasts, dead-IsKnown, dead-Lasts, cancel-IsKnown,
}

abandon-IsKnown :
    (c : Option ℕ) (o : ℕ) (p : Product)
    → IsKnown p
    → o < p.next_block
    → p.current_capture_block ≡ none
    → IsKnown (abandon c o p) × (p.next_block ≤ (abandon c o p).next_block)
abandon-IsKnown none o p k below idle =
    let other : p.current_capture_block ≢ some o = λ e. cc in
    (dead-IsKnown o p k below other, (dead-Lasts o p k below other).bigger)
abandon-IsKnown (some t) o p k below idle = (cancel-IsKnown t p k, omega arith)

below_all :
    (d : Dict ℕ) (n m : ℕ)
    → n ≤ m
    → All (λ (e : String × ℕ). e.1 < n) d
    → All (λ (e : String × ℕ). e.1 < m) d
below_all [] n m le h = tt
below_all (e ∷ d) n m le h = (omega (arith, h.0), below_all d n m le h.1)

pub abandon_all-IsKnown :
    (d : Dict ℕ) (p : Product)
    → IsKnown p
    → p.current_capture_block ≡ none
    → All (λ (e : String × ℕ). e.1 < p.next_block) d
    → IsKnown (abandon_all d p)
unfolding abandon_all
abandon_all-IsKnown [] p k idle below = k
abandon_all-IsKnown ((n, o) ∷ d) p k idle below =
    let c = (p.blocks o).postprocess_task in
    let (k', bigger) = abandon-IsKnown c o p k below.0 idle in
    let tame = abandon-IsTame c o p in
    abandon_all-IsKnown d (abandon c o p) k' (tame.same_current ∙ idle)
      (below_all d p.next_block (abandon c o p).next_block bigger below.1)

pub below-Listed :
    (blocks : ℕ → CaptureBlock) (n : ℕ) (d : Dict ℕ)
    → Each (Listed blocks n) d
    → All (λ (e : String × ℕ). e.1 < n) d
below-Listed blocks n [] h = tt
below-Listed blocks n (e ∷ d) h = (h.0.0, below-Listed blocks n d h.1)

-- The same capture blocks and tasks, in another state of the product.
pub alike-IsKnown :
    (p q : Product)
    → IsKnown p
    → q.blocks ≡ p.blocks
    → q.next_block ≡ p.next_block
    → q.capture_blocks ≡ p.capture_blocks
    → q.capture_block_sensor ≡ p.capture_block_sensor
    → q.tasks ≡ p.tasks
    → Captures p.blocks p.next_block p.capture_blocks q.current_capture_block
    → ((a : ℕ)
        → a < p.next_block
        → (p.blocks a).state ≡ CaptureBlockState.capturing
        → is_open q.state ≡ true
        → q.current_capture_block ≡ some a)
    → IsKnown q
alike-IsKnown p q k blocks count d sensor tasks captures sole =
    same_tasks-IsKnown p q k (same-Lasts p q blocks count) tasks (record {
      listed = rw (blocks, count, d) k.accounted.listed;
      once = rw d k.accounted.once;
      named = rw (blocks, count) k.accounted.named;
      buried = rw (blocks, count, d) k.accounted.buried;
      captures = rw (blocks, count, d) captures;
      sole = rw (blocks, count) sole;
      unique = rw (blocks, count) k.accounted.unique;
      sensed = rw (blocks, d, sensor) k.accounted.sensed;
    })

module _ (s : ProductState) (p : Product) where
  abbrev pub set : Product
  set = set_state s p

  pub set_fields :
      (set.blocks ≡ p.blocks)
      × (set.next_block ≡ p.next_block)
      × (set.capture_blocks ≡ p.capture_blocks)
      × (set.capture_block_sensor ≡ p.capture_block_sensor)
      × (set.tasks ≡ p.tasks)
      × (set.current_capture_block ≡ p.current_capture_block)
  unfolding set_state
  set_fields = ground arith

  set_open :
      (is_open s ≡ true → is_open p.state ≡ true)
      → is_open set.state ≡ true
      → is_open p.state ≡ true
  unfolding set_state
  set_open closing opened = ground arith

  -- The state moves on: it does not open again.
  pub set_state-IsKnown :
      IsKnown p → (is_open s ≡ true → is_open p.state ≡ true) → IsKnown (set_state s p)
  set_state-IsKnown k closing =
      let f = set_fields in
      alike-IsKnown p set k f.0 f.1 f.2 f.3 f.4 (rw f.5 k.accounted.captures)
        (λ a la e opened. rw f.5 (k.accounted.sole a la e (set_open closing opened)))

-- A block takes its place in `capture_blocks`.
module _ (o : ℕ) (p : Product) (k : IsKnown p) (below : o < p.next_block)
    (early : (p.blocks o).state ≡ CaptureBlockState.initialising)
    (unburied : (p.blocks o).dead_event ≡ false) (idle : p.current_capture_block ≡ none) where
  abbrev pub placed : CaptureBlock
  placed = record (p.blocks o) { watched = true }

  abbrev pub place : Product
  place = update_capture_block_sensor (record p {
    capture_blocks = insert (p.blocks o).name o p.capture_blocks;
    blocks = put o placed p.blocks;
  })

  placed-Listed :
      (n : String) (x : ℕ)
      → Listed p.blocks p.next_block n x
      → Listed (put o placed p.blocks) p.next_block n x
  placed-Listed n x l = elim (Bool-cases (x == o)) [
    | inl same ↦ rw same (
      l.0,
      ap (λ y. (p.blocks y).name) (sym ((nat_eq.same_iff x o).0 same)) ∙ l.1,
      (λ e. ground arith),
      refl,
    )
    | inr differs ↦ rw differs l
  ]

  placed_buried :
      (a : ℕ)
      → a < p.next_block
      → (put o placed p.blocks a).dead_event ≡ true
      → lookup (put o placed p.blocks a).name place.capture_blocks ≡ none
  placed_buried a la e = elim (Bool-cases (a == o)) [
    | inl same ↦ let wrong = rw same at e in absurd (cc)
    | inr differs ↦
        let before = rw differs at e in
        elim (Bool-cases ((p.blocks a).name == (p.blocks o).name)) [
          | inl alike ↦
              let is =
                k.accounted.named a o la below
                  (same_eq (p.blocks a).name (p.blocks o).name alike) in
              let same : (a == o) ≡ true = (nat_eq.same_iff a o).1 is in absurd (cc)
          | inr unlike ↦ rw differs (
              lookup-insert (p.blocks a).name (p.blocks o).name o p.capture_blocks
              ∙ rw unlike (k.accounted.buried a la before))
        ]
  ]

  placed_own : Listed (put o placed p.blocks) p.next_block (p.blocks o).name o
  placed_own = rw ((nat_eq.same_iff o o).1 refl) (below, refl, (λ e. ground arith), refl)

  pub place-IsKnown : IsKnown place
  place-IsKnown =
      same_tasks-IsKnown p place k (put-Lasts o placed p place refl refl refl (λ h. h)) refl
        (record {
          listed =
              insert-Each (Listed (put o placed p.blocks) p.next_block) (p.blocks o).name o
                p.capture_blocks (Each-map p.capture_blocks placed-Listed k.accounted.listed)
                placed_own;
          once = insert-IsDict (p.blocks o).name o p.capture_blocks k.accounted.once;
          named = λ a b la lb e. ground (arith, k.accounted.named a b);
          buried = placed_buried;
          captures = rw idle tt;
          sole = λ a la e s. ground (arith, k.accounted.sole a);
          unique = λ a b la lb e f. ground (arith, k.accounted.unique a b);
          sensed = refl;
        })

-- A capture block becomes the current one.
module _ (o : ℕ) (p : Product) (k : IsKnown p) (below : o < p.next_block)
    (early : (p.blocks o).state ≡ CaptureBlockState.initialising)
    (unburied : (p.blocks o).dead_event ≡ false) (watched : (p.blocks o).watched ≡ true)
    (live : lookup (p.blocks o).name p.capture_blocks ≡ some o)
    (idle : p.current_capture_block ≡ none) (opened : is_open p.state ≡ true) where
  abbrev pub capturing_block : CaptureBlock
  capturing_block = enter CaptureBlockState.capturing (p.blocks o)

  none_captures : (a : ℕ) → a < p.next_block → (p.blocks a).state ≢ CaptureBlockState.capturing
  none_captures a la e = let is = k.accounted.sole a la e opened in cc

  reached : has_state CaptureBlockState.capturing capturing_block.state_time ≡ true
  reached = elim (Bool-cases (has_state CaptureBlockState.capturing (p.blocks o).state_time)) [
    | inl there ↦ rw there there
    | inr new ↦ rw new (last (p.blocks o).state_time)
  ]
    where
      last :
          (xs : List CaptureBlockState)
          → has_state CaptureBlockState.capturing (xs ++ CaptureBlockState.capturing ∷ []) ≡ true
      last [] = refl
      last (x ∷ xs) = ground (arith, last xs)

  begun-Listed :
      (n : String) (x : ℕ)
      → Listed p.blocks p.next_block n x
      → Listed (put o capturing_block p.blocks) p.next_block n x
  begun-Listed n x l = ground arith

  begun-Captures : Captures (put o capturing_block p.blocks) p.next_block p.capture_blocks (some o)
  begun-Captures = rw ((nat_eq.same_iff o o).1 refl) (below, refl, live, reached)

  begun_sole :
      (a : ℕ)
      → a < p.next_block
      → (put o capturing_block p.blocks a).state ≡ CaptureBlockState.capturing
      → a ≡ o
  begun_sole a la e = elim (Bool-cases (a == o)) [
    | inl same ↦ (nat_eq.same_iff a o).0 same
    | inr differs ↦ absurd (none_captures a la (rw differs at e))
  ]

  pub begun-IsKnown :
      (q : Product)
      → q.current_capture_block ≡ some o
      → q.blocks ≡ put o capturing_block p.blocks
      → q.next_block ≡ p.next_block
      → q.capture_blocks ≡ p.capture_blocks
      → q.tasks ≡ p.tasks
      → q.capture_block_sensor ≡ sense o capturing_block p
      → IsKnown q
  begun-IsKnown q current blocks count d tasks sensor =
      same_tasks-IsKnown p q k
        (put-Lasts o capturing_block p q blocks count refl (λ h. absurd (h.0 early))) tasks
        (record {
          listed =
              rw (blocks, count, d) (Each-map p.capture_blocks begun-Listed k.accounted.listed);
          once = rw d k.accounted.once;
          named = rw (blocks, count) (λ a b la lb e. ground (arith, k.accounted.named a b));
          buried = rw (blocks, count, d) (λ a la e. ground (arith, k.accounted.buried a));
          captures = rw (blocks, count, d, current) begun-Captures;
          sole = rw (blocks, count, current) (λ a la e s. ap some (sym (begun_sole a la e)));
          unique =
              rw (blocks, count) (λ a b la lb e f. begun_sole a la e ∙ sym (begun_sole b lb f));
          sensed = rw (blocks, d, sensor) refl;
        })
