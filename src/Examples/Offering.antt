-- ===== src/Examples/Offering.antt =====
-- Tests and examples of the offers.
use katsdpcontroller.Prelude.{
  String, ◌≡◌, refl, subst, Bool, true, false, none, some, List, [], ◌∷◌, arith, nat_eq, string_eq,
}
use katsdpcontroller.Scheduler.Offers.Tidy.Events.{run-IsTidy, new_scheduler-IsTidy}
use katsdpcontroller.Scheduler.Offers.Settling.{Resolved, resolve_offers_done-Resolved}
use katsdpcontroller.Scheduler.Offers.Rescinding.{rescinded_never_pooled}
use katsdpcontroller.Scheduler.Offers.Roles.{
  Event, run, new_scheduler, update_roles, drop_roles, needs_roles, offered, resolved,
}
use katsdpcontroller.Scheduler.Offers.Tidy.{IsTidy}
use katsdpcontroller.Scheduler.Offers.Searching.{Withdrawn, offer_rescinded-Withdrawn}
use katsdpcontroller.Scheduler.Offers.{
  Offer, Scheduler, held, remove_offer, add_offer, fate, settle, resolve_offers_done,
  is_unavailable, sort_offer, sort_offers, start_batch, start_batches, resource_offers,
  offer_rescinded, decline_offer, revive_offers,
}

abbrev offer_a : Offer
offer_a = record { id = "a"; agent_id = "agent-1"; role = "cbf"; unavailability = none }

abbrev offer_b : Offer
offer_b = record { id = "b"; agent_id = "agent-1"; role = "cbf"; unavailability = none }

-- Unavailable for good.
abbrev offer_c : Offer
offer_c = record {
  id = "c";
  agent_id = "agent-2";
  role = "cbf";
  unavailability = some (record { start = 5; duration = none });
}

abbrev everything : String → Bool
everything x = true

abbrev arrivals : List Event
arrivals = needs_roles ("cbf" ∷ []) ∷ offered 100 (offer_a ∷ offer_b ∷ offer_c ∷ []) ∷ []

abbrev waiting : Scheduler
waiting = record {
  offers = [];
  resolving = ("a", 0) ∷ ("b", 0) ∷ [];
  batches =
      record { offers = offer_a ∷ offer_b ∷ []; role = "cbf"; rescinded = []; is_cancelled = false }
      ∷ [];
  roles_needed = "cbf" ∷ [];
  wakeup = false;
  calls = revive_offers ("cbf" ∷ []) ∷ decline_offer ("c" ∷ []) ∷ [];
}

arrivals_sample : run arrivals new_scheduler ≡ waiting
unfolding update_roles drop_roles resource_offers sort_offers sort_offer is_unavailable
    start_batches start_batch
arrivals_sample = refl

run-IsTidy_example : IsTidy (run arrivals new_scheduler)
run-IsTidy_example = run-IsTidy arrivals new_scheduler new_scheduler-IsTidy

waiting-IsTidy : IsTidy waiting
waiting-IsTidy = record {
  pool = (tt, tt);
  uniform = ((refl, (refl, tt)), tt);
  known = (omega arith, (omega arith, tt));
}

resolve_offers_done-Resolved_example :
    Resolved everything
      (record {
        offers = offer_a ∷ offer_b ∷ [];
        role = "cbf";
        rescinded = [];
        is_cancelled = false;
      })
      waiting
      (resolve_offers_done 0 everything waiting)
resolve_offers_done-Resolved_example = resolve_offers_done-Resolved 0 everything _ waiting refl

rescinded_never_pooled_example :
    held "cbf" "agent-1" "a"
      (resolve_offers_done 0 everything (run arrivals (offer_rescinded "a" waiting))).offers
    ≡ held "cbf" "agent-1" "a" (run arrivals (offer_rescinded "a" waiting)).offers
rescinded_never_pooled_example =
    rescinded_never_pooled "a" 0 arrivals everything waiting waiting-IsTidy refl "cbf" "agent-1"

abbrev pooled : Scheduler
pooled = record waiting {
  offers = ("cbf", ("agent-1", ("a", offer_a) ∷ ("b", offer_b) ∷ []) ∷ []) ∷ [];
  resolving = [];
  wakeup = true;
}

pooled_sample : resolve_offers_done 0 everything waiting ≡ pooled
unfolding resolve_offers_done settle fate add_offer
pooled_sample = refl

pooled-IsTidy : IsTidy pooled
pooled-IsTidy =
    subst IsTidy pooled_sample (run-IsTidy (resolved 0 everything ∷ []) waiting waiting-IsTidy)

offer_rescinded-Withdrawn_example : Withdrawn "b" pooled.offers (offer_rescinded "b" pooled).offers
offer_rescinded-Withdrawn_example = offer_rescinded-Withdrawn "b" pooled pooled-IsTidy refl

-- The other offer of the agent stays.
remove_offer_sample :
    remove_offer "cbf" "agent-1" "b" pooled.offers
    ≡ ("cbf", ("agent-1", ("a", offer_a) ∷ []) ∷ []) ∷ []
unfolding remove_offer
remove_offer_sample = refl
