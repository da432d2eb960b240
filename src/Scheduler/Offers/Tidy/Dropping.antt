-- ===== src/Scheduler/Offers/Tidy/Dropping.antt =====
-- Giving offers up keeps the pool tidy: whole roles, or agents that are of no use.
use katsdpcontroller.Prelude.{
  Bool-cases, ◌==◌, member, Dict, same_eq, flip, lookup, remove, IsDict, remove-IsDict, Each,
  String, ◌≡◌, refl, inl, inr, Bool, true, false, none, List, [], ◌∷◌, arith, nat_eq, string_eq,
}
use katsdpcontroller.Scheduler.Offers.Roles.{minus, pop_roles, keep_useful, keep_useful_roles}
use katsdpcontroller.Scheduler.Offers.Tidy.{IsTidyAgent, IsTidyRole, IsTidyPool}
use katsdpcontroller.Scheduler.Offers.{Offer, Pool}

-- What is in `xs` but not in `xs - ys` is in `ys`.
member-minus :
    (x : String) (xs ys : List String)
    → member x xs ≡ true
    → member x (minus xs ys) ≡ false
    → member x ys ≡ true
member-minus x [] ys h g = absurd (cc)
member-minus x (y ∷ xs) ys h g = elim (Bool-cases (x == y)) [
  | inl here ↦
      let same = same_eq x y here in
      elim (Bool-cases (member y ys)) [
        | inl found ↦ rw same found
        | inr missing ↦ absurd (cc (rw (missing, here) at g))
      ]
  | inr there ↦ elim (Bool-cases (member y ys)) [
    | inl found ↦ member-minus x xs ys (rw there at h) (rw found at g)
    | inr missing ↦ member-minus x xs ys (rw there at h) (rw (missing, there) at g)
  ]
]

-- An entry that is left after `remove` has another key.
remove_apart {ℓ κ} :
    {V : Type ℓ} (P : String → V → Type κ) (k : String) (d : Dict V)
    → Each P d
    → Each (λ l v. P l v × ((l == k) ≡ false)) (remove k d)
remove_apart P k [] h = tt
remove_apart P k (e ∷ d) h = elim (Bool-cases (k == e.0)) [
  | inl here ↦ rw (remove, here) (remove_apart P k d h.1)
  | inr there ↦ rw (remove, there) ((h.0, flip k e.0 there), remove_apart P k d h.1)
]

pop_roles-Each {κ} :
    (P : String → Dict (Dict Offer) → Type κ) (roles : List String) (pool : Pool)
    → IsDict pool
    → Each P pool
    → IsDict (pop_roles roles pool).1
      × Each (λ r agents. P r agents × (member r roles ≡ false)) (pop_roles roles pool).1
unfolding pop_roles
pop_roles-Each P [] pool d h = (d, weaken pool h)
  where
    weaken : (p : Pool) → Each P p → Each (λ r agents. P r agents × (member r [] ≡ false)) p
    weaken [] h' = tt
    weaken (e ∷ p) h' = ((h'.0, refl), weaken p h'.1)
pop_roles-Each P (role ∷ roles) pool d h =
    let (d', each) =
      pop_roles-Each (λ r agents. P r agents × ((r == role) ≡ false)) roles (remove role pool)
        (remove-IsDict role pool d) (remove_apart P role pool h) in
    (d', join _ each)
  where
    join :
        (p : Pool)
        → Each (λ r agents. (P r agents × ((r == role) ≡ false)) × (member r roles ≡ false)) p
        → Each (λ r agents. P r agents × (member r (role ∷ roles) ≡ false)) p
    join [] h' = tt
    join (e ∷ p) (((a, b), c), rest) = ((a, rw (b, c)), join p rest)

pub minus-IsTidyPool :
    (old new : List String) (pool : Pool)
    → IsTidyPool old pool
    → IsTidyPool new (pop_roles (minus old new) pool).1
minus-IsTidyPool old new pool h =
    let (d, each) = pop_roles-Each (IsTidyRole old) (minus old new) pool h.0 h.1 in
    (d, renew _ each)
  where
    renew :
        (p : Pool)
        → Each (λ r agents. IsTidyRole old r agents × (member r (minus old new) ≡ false)) p
        → Each (IsTidyRole new) p
    renew [] h' = tt
    renew (e ∷ p) (((is_needed, is_dict, each), left), rest) =
        ((member-minus e.0 old new is_needed left, is_dict, each), renew p rest)

-- A part of a dictionary has no new keys.
keep_useful-lookup :
    (useful : String → Bool) (k : String) (agents : Dict (Dict Offer))
    → lookup k agents ≡ none
    → lookup k (keep_useful useful agents).1 ≡ none
unfolding keep_useful
keep_useful-lookup useful k [] h = refl
keep_useful-lookup useful k (e ∷ agents) h = ground (arith, keep_useful-lookup useful k agents)

keep_useful-tidy :
    (role : String) (useful : String → Bool) (agents : Dict (Dict Offer))
    → IsDict agents
    → Each (IsTidyAgent role) agents
    → IsDict (keep_useful useful agents).1 × Each (IsTidyAgent role) (keep_useful useful agents).1
unfolding keep_useful
keep_useful-tidy role useful [] d h = (tt, tt)
keep_useful-tidy role useful (e ∷ agents) d h =
    let (d', h') = keep_useful-tidy role useful agents d.1 h.1 in
    elim (Bool-cases (useful e.0)) [
      | inl good ↦
          rw (keep_useful, good) ((keep_useful-lookup useful e.0 agents d.0, d'), (h.0, h'))
      | inr bad ↦ rw (keep_useful, bad) (d', h')
    ]

keep_useful_roles-lookup :
    (useful : String → String → Bool) (k : String) (pool : Pool)
    → lookup k pool ≡ none
    → lookup k (keep_useful_roles useful pool).1 ≡ none
unfolding keep_useful_roles
keep_useful_roles-lookup useful k [] h = refl
keep_useful_roles-lookup useful k (e ∷ pool) h =
    ground (arith, keep_useful_roles-lookup useful k pool)

pub keep_useful_roles-IsTidyPool :
    (needed : List String) (useful : String → String → Bool) (pool : Pool)
    → IsTidyPool needed pool
    → IsTidyPool needed (keep_useful_roles useful pool).1
unfolding keep_useful_roles
keep_useful_roles-IsTidyPool needed useful [] h = (tt, tt)
keep_useful_roles-IsTidyPool needed useful (e ∷ pool) ((new, d), (here, h)) =
    let (d', h') = keep_useful_roles-IsTidyPool needed useful pool (d, h) in
    let (is_needed, agents_dict, agents_each) = here in
    let (kept_dict, kept_each) = keep_useful-tidy e.0 (useful e.0) e.1 agents_dict agents_each in
    ((keep_useful_roles-lookup useful e.0 pool new, d'), ((is_needed, kept_dict, kept_each), h'))
