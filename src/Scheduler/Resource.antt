-- ===== src/Scheduler/Resource.antt =====
-- The base class `Resource` of scheduler.py. What its subclasses override (`_transform`,
-- `_untransform`, `_available`, `_allocate`) is a record of functions over the transformed value of
-- a part.
pub mod Loop
pub mod View
pub mod Laws
pub mod Roles
use katsdpcontroller.Prelude.{
  ℕ, ◌+◌, ◌-◌, min, String, Bool, Option, none, some, List, [], ◌∷◌, reverse, ltb, if◌then◌else◌,
  sum_of, map, ◌==◌, string_eq, nat_eq, ◌≡◌,
}
use katsdpcontroller.Errors.{Result, ok, err, value_error, assertion_error, ◌>>=◌}
use katsdpcontroller.Scheduler.Decimals.{Real}

-- `{"begin": b, "end": e}`, both ends included.
pub record Range : Type 0 where
  pub begin : ℕ
  pub last : ℕ

-- The value of a Mesos resource message, by its `type`.
pub data Value : Type 0 where
  scalar : Real → Value
  ranges : List Range → Value
  other_type : Value

pub record Message : Type 0 where
  pub name : String
  pub role : Option String
  pub value : Value

-- A transformed message, without the name that all parts of one resource share.
pub record Part (V : Type 0) : Type 0 where
  pub role : Option String
  pub value : V

pub record Hooks (K V : Type 0) : Type 0 where
  pub has_kwargs : K → Bool
  pub transform : Value → Result V
  pub untransform : V → Value
  pub part_available : V → ℕ
  pub part_allocate : K → V → ℕ → Result (V × V)

pub record Resource (V : Type 0) : Type 0 where
  pub name : String
  pub parts : List (Part V)
  pub available : ℕ

abbrev pub empty : {V : Type 0} → String → Resource V
empty name = record { name = name; parts = []; available = 0 }

-- Characters of a string, `len(role)`.
abbrev pub string_length : String → ℕ
string_length String.[] = 0
string_length (String.◌∷◌ c s) = string_length s + 1

abbrev pub role_or_star : Option String → String
role_or_star none = "*"
role_or_star (some role) = role

abbrev pub role_length : {V : Type 0} → Part V → ℕ
role_length p = string_length (role_or_star p.role)

-- The `while` loop and the `insert` of `add`: behind every part with a shorter role.
unfoldable pub insert_part : {V : Type 0} → Part V → List (Part V) → List (Part V)
insert_part p [] = p ∷ []
insert_part p (q ∷ qs) =
    if ltb (role_length q) (role_length p) then q ∷ insert_part p qs else p ∷ q ∷ qs

module _ {K V : Type 0} (hooks : Hooks K V) where
  abbrev pub available_of : Part V → ℕ
  available_of p = hooks.part_available p.value

  unfoldable pub add : Message → Resource V → Result (Resource V)
  add message self =
      if message.name == self.name
      then (do
        value ← hooks.transform message.value
        ok (record self {
          parts = insert_part (record { role = message.role; value = value }) self.parts;
          available = self.available + hooks.part_available value;
        }))
      else err value_error

  -- A part that has nothing left is deleted.
  abbrev pub keep_part : Part V → List (Part V) → List (Part V)
  keep_part part kept = if available_of part == 0 then kept else part ∷ kept

  -- The `while amount > self.ZERO` loop, over the parts from the last to the first: the pieces
  -- that are taken, the parts that are left, and the sum of what was used.
  unfoldable pub draw : K → ℕ → List (Part V) → Result (List (Part V) × List (Part V) × ℕ)
  draw kwargs amount [] = if ltb 0 amount then err assertion_error else ok ([], [], 0)
  draw kwargs amount (part ∷ parts) =
      let taken = min (hooks.part_available part.value) amount in
      let rest = draw kwargs (amount - taken) parts in
      if ltb 0 amount
      then (do
        (piece, left) ← hooks.part_allocate kwargs part.value taken
        (out, kept, used) ← rest
        ok (
          record part { value = piece } ∷ out,
          keep_part (record part { value = left }) kept,
          taken + used,
        ))
      else ok ([], part ∷ parts, 0)

  -- What `allocate` compares the amount with.
  abbrev pub allocatable : K → Resource V → ℕ
  allocatable kwargs self =
      if hooks.has_kwargs kwargs then sum_of available_of self.parts else self.available

  -- Returns the new resource and the changed `self`.
  unfoldable pub allocate : K → ℕ → Resource V → Result (Resource V × Resource V)
  allocate kwargs amount self =
      if ltb (allocatable kwargs self) amount then err value_error else (do
        (out, kept, used) ← draw kwargs amount (reverse self.parts)
        ok (
          record { name = self.name; parts = reverse out; available = used },
          record self { parts = reverse kept; available = self.available - used },
        ))

  -- `info`: the messages for a task.
  unfoldable pub info : Resource V → List Message
  info self =
      map
        (λ part. record {
          name = self.name;
          role = part.role;
          value = hooks.untransform part.value;
        })
        self.parts

  -- `available` is in step with the parts.
  abbrev pub IsInSync : Resource V → Type 0
  IsInSync self = self.available ≡ sum_of available_of self.parts
