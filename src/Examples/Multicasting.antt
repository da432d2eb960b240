-- ===== src/Examples/Multicasting.antt =====
-- Tests and examples of the multicast groups.
use katsdpcontroller.MasterController.Multicast.Grant.{
  Granted, get_multicast_groups-Granted, IsSafe, Survives, run-Survives,
}
use katsdpcontroller.MasterController.Multicast.{Manager, first_taken, search, get_multicast_groups}
use katsdpcontroller.Prelude.{option_map, ◌≡◌, refl, some, [], ◌∷◌, arith}
use katsdpcontroller.Errors.{no_addresses, ok, err}

-- A network of 16 addresses, with two products.
abbrev manager : Manager
manager = record {
  network = 16;
  broadcast = 31;
  next_group = 24;
  products = ("one", 26 ∷ 18 ∷ []) ∷ ("two", []) ∷ [];
}

-- The place from 24 on is too small before 26, the next one starts at 27.
four_sample : option_map (λ r. r.0) (get_multicast_groups "two" 4 manager) ≡ some (ok 27)
unfolding get_multicast_groups search first_taken
four_sample = refl

-- The search goes around.
five_sample : option_map (λ r. r.0) (get_multicast_groups "two" 5 manager) ≡ some (ok 19)
unfolding get_multicast_groups search first_taken
five_sample = refl

eight_sample :
    option_map (λ r. r.0) (get_multicast_groups "two" 8 manager) ≡ some (err no_addresses)
unfolding get_multicast_groups search first_taken
eight_sample = refl

get_multicast_groups-Granted_example : Granted 5 manager (get_multicast_groups "two" 5 manager)
get_multicast_groups-Granted_example =
    get_multicast_groups-Granted "two" 5 manager (omega arith) (omega arith) (omega arith)

manager-IsSafe : IsSafe manager
manager-IsSafe = record { disjoint = λ x. ground arith; inside = omega arith; below = omega arith }

run-Survives_example : Survives (("one", 2) ∷ ("two", 5) ∷ ("one", 8) ∷ []) manager
run-Survives_example =
    run-Survives (("one", 2) ∷ ("two", 5) ∷ ("one", 8) ∷ []) manager manager-IsSafe
