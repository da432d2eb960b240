-- ===== src/Scheduler/Devices/Taking.antt =====
-- One device: an amount that is there is taken, and what is left is what was there less the amount.
use katsdpcontroller.Prelude.{if◌then◌else◌, ℕ, ◌+◌, ◌≤◌, ◌≡◌, refl, true, [], ◌++◌, arith}
use katsdpcontroller.Scheduler.Resource.Laws.{allocate_total}
use katsdpcontroller.Scheduler.Resource.{IsInSync}
use katsdpcontroller.Scheduler.Decimals.{Real, as_decimal}
use katsdpcontroller.Scheduler.ScalarResource.{
  request_amount, as_decimal-request_amount, scalar_hooks, scalar-IsLawful, ScalarResource,
  scalar_allocate,
}
use katsdpcontroller.Scheduler.Devices.{
  Duo, Kind, take_duo, take_gpu, take_interface, gpu_kind, interface_kind, enough,
}
use katsdpcontroller.Errors.{ok}

abbrev pub IsScalarInSync : ScalarResource → Type 0
IsScalarInSync = IsInSync scalar_hooks

abbrev pub AreInSync : Duo ScalarResource → Type 0
AreInSync have = IsScalarInSync have.first × IsScalarInSync have.second

-- A request for a scalar that fits.
pub record TakesScalar (value : Real) (self : ScalarResource) : Type 0 where
  pub out : ScalarResource
  pub rest : ScalarResource
  pub done : scalar_allocate (request_amount value) self ≡ ok (out, rest)
  pub out_has : out.available ≡ as_decimal value
  pub rest_has : rest.available + as_decimal value ≡ self.available
  pub out_in_sync : IsScalarInSync out
  pub rest_in_sync : IsScalarInSync rest

-- An allocation of a request's value from a scalar resource whose books are in step, of at most
-- what is available, returns a resource with the value rounded to thousandths, leaves the rest,
-- and both have their books in step.
pub scalar_allocate-TakesScalar :
    (value : Real) (self : ScalarResource)
    → IsScalarInSync self
    → as_decimal value ≤ self.available
    → TakesScalar value self
unfolding scalar_allocate
scalar_allocate-TakesScalar value self sync fits =
    let same = as_decimal-request_amount value in
    let amount = as_decimal (request_amount value) in
    let a = allocate_total scalar_hooks tt scalar-IsLawful amount self sync (omega arith) in
    record {
      out = a.out;
      rest = a.rest;
      done = a.done;
      out_has = omega (arith, a.out_has);
      rest_has = omega (arith, a.rest_has);
      out_in_sync = a.out_in_sync;
      rest_in_sync = a.rest_in_sync;
    }

-- What was there is what is taken, as needed, and what is left.
pub record IsShared (need : Duo Real) (have taken left : Duo ScalarResource) : Type 0 where
  pub taken_first : taken.first.available ≡ as_decimal need.first
  pub taken_second : taken.second.available ≡ as_decimal need.second
  pub left_first : left.first.available + as_decimal need.first ≡ have.first.available
  pub left_second : left.second.available + as_decimal need.second ≡ have.second.available
  pub taken_in_sync : AreInSync taken
  pub left_in_sync : AreInSync left

pub record Took {Req Dev Alloc : Type 0} (kind : Kind Req Dev Alloc) (i : ℕ) (request : Req)
    (item : Dev) : Type 0 where
  pub alloc : Alloc
  pub item' : Dev
  pub done : kind.take i request item ≡ (ok alloc, item')
  pub index_is : kind.index_of alloc ≡ i
  pub shared :
      IsShared
        (kind.amounts request)
        (kind.resources item)
        (kind.taken_of alloc)
        (kind.resources item')

-- A kind of device whose loop body does what it should.
pub record IsLawfulKind {Req Dev Alloc : Type 0} (kind : Kind Req Dev Alloc) : Type 0 where
  pub takes :
      (i : ℕ) (request : Req) (item : Dev)
      → AreInSync (kind.resources item)
      → enough kind request item ≡ true
      → Took kind i request item

pub record TookDuo (need : Duo Real) (have : Duo ScalarResource) : Type 0 where
  pub taken : Duo ScalarResource
  pub left : Duo ScalarResource
  pub done : take_duo need have ≡ (ok taken, left)
  pub shared : IsShared need have taken left

take_duo_total :
    (need : Duo Real) (have : Duo ScalarResource)
    → AreInSync have
    → as_decimal need.first ≤ have.first.available
    → as_decimal need.second ≤ have.second.available
    → TookDuo need have
unfolding take_duo
take_duo_total need have sync fits_first fits_second =
    let a = scalar_allocate-TakesScalar need.first have.first sync.0 fits_first in
    let b = scalar_allocate-TakesScalar need.second have.second sync.1 fits_second in
    record {
      taken = record { first = a.out; second = b.out };
      left = record { first = a.rest; second = b.rest };
      done = ground (arith, a.done, b.done);
      shared = record {
        taken_first = a.out_has;
        taken_second = b.out_has;
        left_first = a.rest_has;
        left_second = b.rest_has;
        taken_in_sync = (a.out_in_sync, b.out_in_sync);
        left_in_sync = (a.rest_in_sync, b.rest_in_sync);
      };
    }

pub gpu_kind-IsLawfulKind : IsLawfulKind gpu_kind
unfolding take_gpu
gpu_kind-IsLawfulKind = record {
  takes = λ i request gpu sync some_left.
      let t = take_duo_total request.amounts gpu.resources sync (ground arith) (ground arith) in
      record {
        alloc = record { index = i; resources = t.taken };
        item' = record gpu { resources = t.left };
        done = ground (arith, t.done);
        index_is = refl;
        shared = t.shared;
      };
}

pub interface_kind-IsLawfulKind : IsLawfulKind interface_kind
unfolding take_interface
interface_kind-IsLawfulKind = record {
  takes = λ i request interface sync some_left.
      let t =
        take_duo_total request.amounts interface.resources sync (ground arith) (ground arith) in
      let out = if request.infiniband then request.multicast_out else [] in
      record {
        alloc = record {
          index = i;
          resources = t.taken;
          infiniband_multicast_out = out;
          multicast_in = request.multicast_in;
        };
        item' = record interface {
          resources = t.left;
          infiniband_multicast_out = interface.infiniband_multicast_out ++ out;
          multicast_in = interface.multicast_in ++ request.multicast_in;
        };
        done = ground (arith, t.done);
        index_is = refl;
        shared = t.shared;
      };
}
