-- ===== src/ProductController/Accounts/Burndown.antt =====
-- What the end of `_capture_done` does to the capture blocks. product_controller.py.
use katsdpcontroller.Prelude.{
  ◌==◌, nat_eq, string_eq, ℕ, ◌<◌, ◌≡◌, ◌≢◌, true, false, Option, Bool-cases, none, some, arith,
  refl, sym, subst, ap, ◌∙◌, List, [], ◌∷◌, ◌++◌, String, Dict, inl, inr, lookup-Each, fun_ext,
}
use katsdpcontroller.ProductController.{
  CaptureBlockState, CaptureBlock, Product, Task, put, block_states, enter, has_state,
  postprocess_start,
}
use katsdpcontroller.ProductController.Tasks.{create_task}
use katsdpcontroller.ProductController.Operations.{start_postprocess}
use katsdpcontroller.ProductController.Control.{task_starts}
use katsdpcontroller.ProductController.Accounts.{Listed, Captures, IsAccounted, Each-map}
use katsdpcontroller.ProductController.Accounts.Blocks.{set_block_state_cases, with_block, sense}
use katsdpcontroller.ProductController.Accounts.Knowledge.{
  IsOver, AlwaysTask, IsKnown, Lasts, put-Lasts, AlwaysTask-Lasts, has_state-append,
}

block_states_ext :
    (f g : ℕ → CaptureBlock) (d : Dict ℕ)
    → ((x : ℕ) → (f x).state ≡ (g x).state)
    → block_states f d ≡ block_states g d
block_states_ext f g [] h = refl
block_states_ext f g (e ∷ d) h = rw (h e.1, block_states_ext f g d h) refl

module _ (o : ℕ) (p : Product) (k : IsKnown p) (current : p.current_capture_block ≡ some o) where
  captures : Captures p.blocks p.next_block p.capture_blocks (some o)
  captures = subst (Captures p.blocks p.next_block p.capture_blocks) current k.accounted.captures

  watched : (p.blocks o).watched ≡ true
  watched =
      (lookup-Each (Listed p.blocks p.next_block) (p.blocks o).name o p.capture_blocks
        k.accounted.listed captures.2).3

  abbrev burning : CaptureBlock
  burning = record (enter CaptureBlockState.burndown (p.blocks o)) {
    postprocess_task = some p.next_task;
  }

  reached :
      (s : CaptureBlockState)
      → has_state s (p.blocks o).state_time ≡ true
      → has_state s burning.state_time ≡ true
  reached s e = elim (Bool-cases (has_state CaptureBlockState.burndown (p.blocks o).state_time)) [
    | inl there ↦ rw there e
    | inr new ↦ rw new (has_state-append s CaptureBlockState.burndown (p.blocks o).state_time e)
  ]

  burning-IsOver : IsOver burning
  burning-IsOver = ((λ e. cc), (λ e. cc), reached CaptureBlockState.capturing captures.3, burnt)
    where
      last :
          (xs : List CaptureBlockState)
          → has_state CaptureBlockState.burndown (xs ++ CaptureBlockState.burndown ∷ []) ≡ true
      last [] = refl
      last (x ∷ xs) = ground (arith, last xs)

      burnt : has_state CaptureBlockState.burndown burning.state_time ≡ true
      burnt = elim (Bool-cases (has_state CaptureBlockState.burndown (p.blocks o).state_time)) [
        | inl there ↦ rw there there
        | inr new ↦ rw new (last (p.blocks o).state_time)
      ]

  burning-Listed :
      (n : String) (x : ℕ)
      → Listed p.blocks p.next_block n x
      → Listed (put o burning p.blocks) p.next_block n x
  burning-Listed n x l = ground arith

  -- The only block that was capturing is not now.
  none_captures :
      (a : ℕ) → a < p.next_block → (put o burning p.blocks a).state ≢ CaptureBlockState.capturing
  none_captures a la e = elim (Bool-cases (a == o)) [
    | inl same ↦ let wrong = rw same at e in cc
    | inr differs ↦
        let is = k.accounted.unique a o la captures.0 (rw differs at e) captures.1 in
        let same : (a == o) ≡ true = (nat_eq.same_iff a o).1 is in absurd (cc)
  ]

  module _ (q : Product) (idle : q.current_capture_block ≡ none)
      (blocks : q.blocks ≡ put o burning p.blocks) (count : q.next_block ≡ p.next_block)
      (d : q.capture_blocks ≡ p.capture_blocks)
      (tasks : q.tasks
        ≡ put p.next_task (some (record { job = postprocess_start o; cancelled = false })) p.tasks)
      (sensor : q.capture_block_sensor
        ≡ block_states (put o burning p.blocks) p.capture_blocks) where
    q-IsAccounted : IsAccounted q
    q-IsAccounted = record {
      listed = rw (blocks, count, d) (Each-map p.capture_blocks burning-Listed k.accounted.listed);
      once = rw d k.accounted.once;
      named = rw (blocks, count) (λ a b la lb e. ground (arith, k.accounted.named a b));
      buried = rw (blocks, count, d) (λ a la e. ground (arith, k.accounted.buried a));
      captures = rw idle tt;
      sole = rw (blocks, count) (λ a la e s. absurd (none_captures a la e));
      unique = rw (blocks, count) (λ a b la lb e f. absurd (none_captures a la e));
      sensed = rw (blocks, d, sensor) refl;
    }

    q-Lasts : Lasts p q
    q-Lasts = put-Lasts o burning p q blocks count refl (λ h. burning-IsOver)

    q_task :
        (u : ℕ)
        → q.tasks u
          ≡ put p.next_task
              (some (record { job = postprocess_start o; cancelled = false }))
              p.tasks
              u
    q_task u = ap (λ (f : ℕ → Option Task). f u) tasks

    q_new : (q.blocks o) ≡ burning
    q_new = ap (λ (f : ℕ → CaptureBlock). f o) blocks ∙ rw ((nat_eq.same_iff o o).1 refl) refl

    q_always : (u : ℕ) → AlwaysTask (q.tasks u) q
    q_always u = elim (Bool-cases (u == p.next_task)) [
      | inl new ↦
          let is : q.tasks u ≡ some (record { job = postprocess_start o; cancelled = false }) =
            q_task u ∙ rw new refl in
          subst (λ t. AlwaysTask t q) (sym is) (rw count captures.0, rw q_new burning-IsOver)
      | inr old ↦
          let is : q.tasks u ≡ p.tasks u = q_task u ∙ rw old refl in
          subst (λ t. AlwaysTask t q) (sym is)
            (AlwaysTask-Lasts (p.tasks u) p q q-Lasts (k.always u))
    ]

    q_starts : (u x : ℕ) → task_starts (q.tasks u) ≡ some x → task_starts (p.tasks u) ≡ some x
    q_starts u x e = elim (Bool-cases (u == p.next_task)) [
      | inl new ↦ let wrong = rw (tasks, new) at e in absurd (cc)
      | inr old ↦ rw (tasks, old) at e
    ]

    pub burning-IsKnown : IsKnown q
    burning-IsKnown = record {
      accounted = q-IsAccounted;
      always = q_always;
      separate = λ a b x e f. k.separate a b x (q_starts a x e) (q_starts b x f);
    }

  -- `_capture_done` starts the post-processing of the current capture block.
  pub start_postprocess-IsKnown : IsKnown (start_postprocess o p)
  unfolding start_postprocess
  start_postprocess-IsKnown =
      let p' = record p { current_capture_block = none } in
      elim (set_block_state_cases o CaptureBlockState.burndown p') [
        | inl (same, e) ↦ absurd (ground (arith, captures.1))
        | inr (inr (unwatched, e)) ↦ absurd (let yes_watched = watched in cc)
        | inr (inl (seen, e)) ↦
            let b = enter CaptureBlockState.burndown (p.blocks o) in
            subst IsKnown (sym (ap after e)) (
              burning-IsKnown (after (with_block o b (sense o b p') p')) refl twice refl refl refl (
                block_states_ext (put o b p.blocks) (put o burning p.blocks) p.capture_blocks
                  (λ x. ground arith)))
      ]
    where
      after : Product → Product
      after r = create_task (postprocess_start o) (record r {
        blocks = put o (record (r.blocks o) { postprocess_task = some r.next_task }) r.blocks;
      })

      twice :
          put o
            (record (put o (enter CaptureBlockState.burndown (p.blocks o)) p.blocks o) {
              postprocess_task = some p.next_task;
            })
            (put o (enter CaptureBlockState.burndown (p.blocks o)) p.blocks)
          ≡ put o burning p.blocks
      twice = fun_ext λ x. ground arith
