-- ===== src/ProductController/Control/Reachable.antt =====
-- Every step of a `SubarrayProduct` keeps its control part in order. product_controller.py.
use katsdpcontroller.Prelude.{
  ◌∙◌, ◌==◌, nat_eq, ℕ, ◌≡◌, ◌⊎◌, Bool, false, Bool-cases, none, some, arith, refl, sym, subst,
  Option-cases, inl, inr,
}
use katsdpcontroller.ProductController.{Product}
use katsdpcontroller.ProductController.Tasks.{clear_async_task}
use katsdpcontroller.ProductController.Requests.{
  Happens, requested, awoken, cleared, Reach, here, next, new_product,
}
use katsdpcontroller.ProductController.Control.{is_live, IsControlled}
use katsdpcontroller.ProductController.Control.Steps.{
  GoesOn, follows_refl, run_task-GoesOn, obeys_dead,
}
use katsdpcontroller.ProductController.Control.Calls.{handle-GoesOn, live_is}

-- The current operation has ended: no task is live.
ended_live :
    (p : Product) (t v : ℕ)
    → IsControlled p
    → p.tasks t ≡ none
    → p.async_task ≡ some t
    → is_live (p.tasks v) ≡ false
ended_live p t v h ended current = elim (Bool-cases (is_live (p.tasks v))) [
  | inl alive ↦
      let same = (nat_eq.same_iff t v).0 (live_is p h t v current alive) in
      let gone : is_live (p.tasks v) ≡ false = rw (← same) (rw ended refl) in absurd (cc)
  | inr over ↦ over
]

pub clear_cases :
    (p : Product) (t : ℕ)
    → (clear_async_task t p ≡ p)
      ⊎ ((p.async_task ≡ some t) × (clear_async_task t p ≡ record p { async_task = none }))
unfolding clear_async_task
clear_cases p t = elim (Option-cases p.async_task) [
  | inl nothing ↦ inl (ground arith)
  | inr (u, e) ↦ elim (Bool-cases (u == t)) [
    | inr other ↦ inl (ground arith)
    | inl same ↦ inr (ground arith, ground arith)
  ]
]

clear-GoesOn :
    (p : Product) (t : ℕ) → IsControlled p → p.tasks t ≡ none → GoesOn p (clear_async_task t p)
clear-GoesOn p t h ended = elim (clear_cases p t) [
  | inl same ↦ subst (GoesOn p) (sym same) (h, follows_refl p.state, refl)
  | inr (current, is) ↦
      let q = record p { async_task = none } in
      subst (GoesOn p) (sym is) (
        record {
          fitting = h.fitting;
          fresh = h.fresh;
          recent = tt;
          obedient = λ v. obeys_dead v (p.tasks v) q (ended_live p t v h ended current);
        },
        follows_refl p.state,
        refl,
      )
]

pub new_product-IsControlled : (has_telstate : Bool) → IsControlled (new_product has_telstate)
new_product-IsControlled has_telstate = record {
  fitting = refl;
  fresh = λ t le. refl;
  recent = tt;
  obedient = λ t. refl;
}

pub Happens-GoesOn : (p q : Product) → IsControlled p → Happens p q → GoesOn p q
Happens-GoesOn p q h (requested r allowed e) = handle-GoesOn p h r q e
Happens-GoesOn p _ h (awoken t task w runs wakes) = run_task-GoesOn p t task w h runs wakes
Happens-GoesOn p _ h (cleared t ended) = clear-GoesOn p t h ended

pub Reach-IsControlled :
    (has_telstate : Bool) (p : Product)
    → Reach (new_product has_telstate) p
    → IsControlled p × (p.has_telstate ≡ has_telstate)
Reach-IsControlled has_telstate p here = (new_product-IsControlled has_telstate, refl)
Reach-IsControlled has_telstate p (next {q} r step) =
    let before = Reach-IsControlled has_telstate q r in
    let after = Happens-GoesOn q p before.0 step in (after.0, after.2 ∙ before.1)
