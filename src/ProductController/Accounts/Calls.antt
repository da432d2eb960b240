-- ===== src/ProductController/Accounts/Calls.antt =====
-- A `SubarrayProduct` stays sound when others call it. product_controller.py.
use katsdpcontroller.Prelude.{
  ◌==◌, nat_eq, string_eq, ℕ, ◌≡◌, ◌≢◌, ◌⊎◌, false, Option, Bool-cases, none, some, arith, refl,
  sym, ◌∙◌, inl, inr,
}
use katsdpcontroller.ProductController.{
  Product, Job, Task, init_start, init_telstate, init_transition,
}
use katsdpcontroller.ProductController.Tasks.{start_operation}
use katsdpcontroller.ProductController.Control.{starts, task_starts}
use katsdpcontroller.ProductController.Accounts.{IsAccounted}
use katsdpcontroller.ProductController.Accounts.Knowledge.{
  Always, AlwaysTask, IsKnown, AlwaysTask-Lasts, Always-Lasts, same-Lasts,
}
use katsdpcontroller.ProductController.Accounts.Live.{Live}
use katsdpcontroller.ProductController.Accounts.Steps.{LiveTask, IsSound}

-- Sound, but for the control part.
pub record IsKeen (p : Product) : Type 0 where
  pub known : IsKnown p
  pub lively : (u : ℕ) → LiveTask (p.tasks u) p
  pub unstarted : (u o : ℕ) → p.current_capture_block ≡ some o → task_starts (p.tasks u) ≢ some o

pub keen : (p : Product) → IsSound p → IsKeen p
keen p h = record { known = h.known; lively = h.lively; unstarted = h.unstarted }

pub carried-IsAccounted :
    (p q : Product)
    → IsAccounted p
    → q.blocks ≡ p.blocks
    → q.next_block ≡ p.next_block
    → q.capture_blocks ≡ p.capture_blocks
    → q.capture_block_sensor ≡ p.capture_block_sensor
    → q.current_capture_block ≡ p.current_capture_block
    → q.state ≡ p.state
    → IsAccounted q
carried-IsAccounted p q a blocks count d sensor current state = record {
  listed = rw (blocks, count, d) a.listed;
  once = rw d a.once;
  named = rw (blocks, count) a.named;
  buried = rw (blocks, count, d) a.buried;
  captures = rw (blocks, count, d, current) a.captures;
  sole = rw (blocks, count, current, state) a.sole;
  unique = rw (blocks, count) a.unique;
  sensed = rw (blocks, d, sensor) a.sensed;
}

-- The same capture blocks.
pub Live-alike :
    (job : Job) (p q : Product)
    → q.blocks ≡ p.blocks
    → q.capture_blocks ≡ p.capture_blocks
    → Live job p
    → Live job q
Live-alike (init_start o) p q blocks d live = rw blocks live
Live-alike (init_telstate o) p q blocks d live = rw (blocks, d) live
Live-alike (init_transition o) p q blocks d live = rw (blocks, d) live
Live-alike job p q blocks d live = ground arith

pub LiveTask-alike :
    (o : Option Task) (p q : Product)
    → q.blocks ≡ p.blocks
    → q.capture_blocks ≡ p.capture_blocks
    → LiveTask o p
    → LiveTask o q
LiveTask-alike none p q blocks d live = tt
LiveTask-alike (some task) p q blocks d live =
    λ alive. Live-alike task.job p q blocks d (live alive)

module _ (job : Job) (p : Product) (h : IsKeen p) (known : Always job p) (live : Live job p)
    (new : (u x : ℕ) → task_starts (p.tasks u) ≡ some x → starts job ≢ some x)
    (other : (o : ℕ) → p.current_capture_block ≡ some o → starts job ≢ some o) where
  abbrev q : Product
  q = start_operation job p

  own-Always : Always job q
  own-Always = Always-Lasts job p q (same-Lasts p q refl refl) known

  own_live : LiveTask (some (record { job = job; cancelled = false })) q
  own_live = λ alive. Live-alike job p q refl refl live

  started_task :
      (u x : ℕ)
      → task_starts (q.tasks u) ≡ some x
      → ((u ≡ p.next_task) × (starts job ≡ some x)) ⊎ (task_starts (p.tasks u) ≡ some x)
  started_task u x e = elim (Bool-cases (u == p.next_task)) [
    | inl same ↦ inl ((nat_eq.same_iff u p.next_task).0 same, rw same at e)
    | inr old ↦ inr (rw old at e)
  ]

  start_separate :
      (t u x : ℕ) → task_starts (q.tasks t) ≡ some x → task_starts (q.tasks u) ≡ some x → t ≡ u
  start_separate t u x e f = elim (started_task t x e) [
    | inl (is, begun) ↦ elim (started_task u x f) [
      | inl (is', begun') ↦ is ∙ sym is'
      | inr old ↦ absurd (new u x old begun)
    ]
    | inr old ↦ elim (started_task u x f) [
      | inl (is', begun') ↦ absurd (new t x old begun')
      | inr old' ↦ h.known.separate t u x old old'
    ]
  ]

  pub start_operation-IsKeen : IsKeen q
  start_operation-IsKeen = record {
    known = record {
      accounted = carried-IsAccounted p q h.known.accounted refl refl refl refl refl refl;
      always = λ u. always_at u;
      separate = start_separate;
    };
    lively = λ u. lively_at u;
    unstarted = λ u o current begun. elim (started_task u o begun) [
      | inl (is, began) ↦ other o current began
      | inr old ↦ h.unstarted u o current old
    ];
  }
    where
      always_at : (u : ℕ) → AlwaysTask (q.tasks u) q
      always_at u = elim (Bool-cases (u == p.next_task)) [
        | inl same ↦ rw same own-Always
        | inr old ↦
            rw old (AlwaysTask-Lasts (p.tasks u) p q (same-Lasts p q refl refl) (h.known.always u))
      ]

      lively_at : (u : ℕ) → LiveTask (q.tasks u) q
      lively_at u = elim (Bool-cases (u == p.next_task)) [
        | inl same ↦ rw same own_live
        | inr old ↦ rw old (LiveTask-alike (p.tasks u) p q refl refl (h.lively u))
      ]
