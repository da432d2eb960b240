-- ===== src/Examples/Resources.antt =====
-- Tests and examples of the resources.
use katsdpcontroller.Scheduler.RangeResource.Sequential.{sequential-IsLawful}
use katsdpcontroller.Scheduler.Decimals.Floats.{to_float}
use katsdpcontroller.Prelude.{
  ◌⊎◌, ◌<◌, length, ℕ, ◌+◌, ◌*◌, ◌≤◌, ◌≡◌, refl, none, some, List, [], ◌∷◌, arith,
}
use katsdpcontroller.Examples.Samples.{lowest, lowest-IsGenerator, scalar_of, sample_ports}
use katsdpcontroller.Scheduler.Resource.Roles.{IsCollected, add-IsCollected}
use katsdpcontroller.Scheduler.Resource.Laws.{Allocated, allocate_outcome}
use katsdpcontroller.Scheduler.Devices.Taking.{TakesScalar, scalar_allocate-TakesScalar}
use katsdpcontroller.Scheduler.RangeResource.Subset.{iter-subset}
use katsdpcontroller.Scheduler.RangeResource.RandomItems.{SharesOut, range_allocate-SharesOut}
use katsdpcontroller.Scheduler.RangeResource.Iteration.{
  length-iter, TakesFirst, range_allocate-TakesFirst,
}
use katsdpcontroller.Scheduler.Resource.{Message, insert_part, add, allocate, IsInSync, ranges}
use katsdpcontroller.Scheduler.Decimals.{Real, as_decimal, as_decimal_close}
use katsdpcontroller.Scheduler.ScalarResource.{transform, untransform, transform-untransform}
use katsdpcontroller.Scheduler.RangeResource.{
  range_up, range_down, transform as range_transform, range_hooks, RangeResource, iter, contains,
  select, subset,
}
use katsdpcontroller.Errors.{value_error, ok, err}

range_allocate-TakesFirst_example : TakesFirst 4 sample_ports
range_allocate-TakesFirst_example = range_allocate-TakesFirst 4 sample_ports refl (omega arith)

range_allocate-SharesOut_example : SharesOut lowest 5 sample_ports
range_allocate-SharesOut_example =
    range_allocate-SharesOut lowest 5 sample_ports lowest-IsGenerator refl (omega arith)

-- Iteration starts with the most specifically reserved part.
iter_sample : iter sample_ports ≡ 6000 ∷ 6001 ∷ 5000 ∷ 5001 ∷ 5002 ∷ 5010 ∷ 5011 ∷ []
unfolding iter range_up
iter_sample = refl

abbrev wanted : List ℕ
wanted = 5001 ∷ 6001 ∷ 7000 ∷ []

subset_sample : iter (subset wanted sample_ports) ≡ 6001 ∷ 5001 ∷ []
unfolding iter subset range_up range_down
subset_sample = refl

iter-subset_example :
    (iter (subset wanted sample_ports) ≡ select (λ i. contains i wanted) (iter sample_ports))
    × IsInSync range_hooks (subset wanted sample_ports)
iter-subset_example = iter-subset wanted sample_ports

length-iter_example : length (iter sample_ports) ≡ 7
length-iter_example = length-iter sample_ports refl

abbrev more_ports : Message
more_ports = record {
  name = "ports";
  role = some "sdp";
  value = ranges (record { begin = 7000; last = 7009 } ∷ []);
}

abbrev added_ports : RangeResource
added_ports = record {
  name = "ports";
  parts =
      record {
        role = some "*";
        value = record { begin = 5010; last = 5011 } ∷ record { begin = 5000; last = 5002 } ∷ [];
      }
      ∷ record { role = some "sdp"; value = record { begin = 7000; last = 7009 } ∷ [] }
      ∷ record { role = some "cbf"; value = record { begin = 6000; last = 6001 } ∷ [] }
      ∷ [];
  available = 17;
}

add_sample : add range_hooks more_ports sample_ports ≡ ok added_ports
unfolding add insert_part range_transform
add_sample = refl

sample_ports-IsCollected : IsCollected range_hooks sample_ports
sample_ports-IsCollected = record { in_sync = refl; ordered = (omega arith, tt) }

add-IsCollected_example : IsCollected range_hooks added_ports
add-IsCollected_example =
    add-IsCollected range_hooks more_ports sample_ports added_ports sample_ports-IsCollected
      add_sample

abbrev third : Real
third = record { num = 1; den = 3 }

as_decimal-third : as_decimal third ≡ 333
unfolding as_decimal
as_decimal-third = refl

as_decimal_close_example :
    (2 * (as_decimal third * 3) ≤ 2 * 1000 + 3) × (2 * 1000 ≤ 2 * (as_decimal third * 3) + 3)
as_decimal_close_example = as_decimal_close third (omega arith)

transform-untransform_example : transform (untransform 1500) ≡ ok 1500
transform-untransform_example = transform-untransform 1500 (omega arith)

-- Floats are too far apart here.
lost_thousandth : transform (untransform 17592186044416001) ≡ ok 17592186044416000
unfolding transform untransform to_float as_decimal
lost_thousandth = refl

scalar_allocate-TakesScalar_example : TakesScalar third (scalar_of "cpus" 2)
scalar_allocate-TakesScalar_example =
    scalar_allocate-TakesScalar third (scalar_of "cpus" 2) refl (rw as_decimal-third (omega arith))

allocate_outcome_example :
    ((8 ≤ sample_ports.available) × Allocated range_hooks none 8 sample_ports)
    ⊎ ((sample_ports.available < 8) × (allocate range_hooks none 8 sample_ports ≡ err value_error))
allocate_outcome_example = allocate_outcome range_hooks none sequential-IsLawful 8 sample_ports refl
