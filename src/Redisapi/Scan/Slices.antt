-- ===== src/Redisapi/Scan/Slices.antt =====
-- redisapi/scan.go: `ScanSlice`, and `Ints` and `Int64s` of redisapi/reply.go, which call it. `none`
-- is a panic.
pub mod Ints
use grab_redis.Base.{
  ℕ, zero, suc, ◌+◌, ◌*◌, ◌/◌, ◌%◌, Bool, true, false, Option, none, some, List, [], ◌∷◌, length,
  take, drop, ◌==◌, nat_eq, if◌then◌else◌,
}
use grab_redis.Base.Int.{ℤ, pos}
use grab_redis.Base.Text.{Str}
use grab_redis.Errors.{Error}
use grab_redis.Float.{FloatText}
use grab_redis.Redisapi.Failure.{
  Failure, not_a_slice, no_fields, bad_multiple, bad_field, at_element, at_element_field,
}
use grab_redis.Redisapi.Reply.{Result, values}
use grab_redis.Redisapi.Scan.Assign.{assign_value}
use grab_redis.Redisapi.Scan.Dest.{
  Dest, Dests, Fields, Target, int_dest, uint_dest, float_dest, bool_dest, string_dest, slice_dest,
  iface_dest, struct_dest, nil_ptr, ptr, other_dest, end, elem, nil_target, nil_pointer,
  not_pointer, pointer, ensure_len, count,
}
use grab_redis.Redisapi.Scan.Spec.{FieldSpec, StructSpec, spec_of, lookup}
use grab_redis.Redisapi.Scan.Structs.{at_path, put_path}
use grab_redis.Redisapi.Value.{Value, null, integer, bulk, simple, array, other}

-- `fss[i] = ss.m[name]` for each name
unfoldable pub select_fields : StructSpec → List Str → List FieldSpec × Option Failure
select_fields ss [] = ([], none)
select_fields ss (name ∷ names) =
    let (rest, e) = select_fields ss names in
    elim (lookup name ss.m) [ none ↦ ([], some (bad_field name)) | some fs ↦ (fs ∷ rest, e) ]

-- The fields of an element that is a struct or a pointer to one.
unfoldable pub struct_fields : {F : Type 0} → Dest F → Option (Fields F)
struct_fields (struct_dest fields) = some fields
struct_fields (nil_ptr (struct_dest fields)) = some fields
struct_fields d = none

-- The struct behind an element: a nil pointer is given a new one.
unfoldable pub open_elem : {F : Type 0} → Dest F → Dest F
open_elem (nil_ptr d) = d
open_elem (ptr d) = d
open_elem d = d

unfoldable pub close_elem : {F : Type 0} → Dest F → Dest F → Dest F
close_elem (nil_ptr d) v = ptr v
close_elem (ptr d) v = ptr v
close_elem d v = v

module _ (f : FloatText) where
  -- The loop over elements that are no structs; a nil source leaves its element alone.
  unfoldable pub fill_elems :
      ℕ → Dests f.Float → List Value → Option (Dests f.Float × Option Failure)
  fill_elems i ds [] = some (ds, none)
  fill_elems i end (s ∷ src) = none
  fill_elems i (elem d ds) (null ∷ src) = elim (fill_elems (suc i) ds src) [
    | none ↦ none
    | some (ds', e) ↦ some (elem d ds', e)
  ]
  fill_elems i (elem d ds) (s ∷ src) = elim (assign_value f d s) [
    | none ↦ none
    | some (d', some e) ↦ some (elem d' ds, some (at_element i e))
    | some (d', none) ↦ elim (fill_elems (suc i) ds src) [
      | none ↦ none
      | some (ds', e) ↦ some (elem d' ds', e)
    ]
  ]

  -- The inner loop over the fields of one struct, whose values begin at number `i`.
  unfoldable pub fill_fields :
      ℕ → List FieldSpec → List Value → Dest f.Float → Option (Dest f.Float × Option Failure)
  fill_fields i [] src d = some (d, none)
  fill_fields i (fs ∷ fss) [] d = none
  fill_fields i (fs ∷ fss) (null ∷ src) d = fill_fields (suc i) fss src d
  fill_fields i (fs ∷ fss) (s ∷ src) d = elim (at_path d fs.index) [
    | none ↦ none
    | some old ↦ elim (assign_value f old s) [
      | none ↦ none
      | some (new, some e) ↦ some (put_path d fs.index new, some (at_element_field i fs.name e))
      | some (new, none) ↦ fill_fields (suc i) fss src (put_path d fs.index new)
    ]
  ]

  -- The outer loop over structs.
  unfoldable pub fill_structs :
      ℕ → List FieldSpec → Dests f.Float → List Value → Option (Dests f.Float × Option Failure)
  fill_structs i fss end src = some (end, none)
  fill_structs i fss (elem d ds) src =
      let k = length fss in
      elim (fill_fields i fss (take k src) (open_elem d)) [
        | none ↦ none
        | some (d', some e) ↦ some (elem (close_elem d d') ds, some e)
        | some (d', none) ↦ elim (fill_structs (i + k) fss ds (drop k src)) [
          | none ↦ none
          | some (ds', e) ↦ some (elem (close_elem d d') ds', e)
        ]
      ]

  -- A slice of structs, by the fields chosen.
  unfoldable pub scan_structs :
      List FieldSpec
      → List Value
      → Dest f.Float
      → Dests f.Float
      → Dests f.Float
      → Option (Option Failure × Target f.Float)
  scan_structs [] src z elems spare = some (some no_fields, pointer (slice_dest z elems spare))
  scan_structs (fs ∷ fss) src z elems spare =
      let k = suc (length fss) in
      let (room, rest) = ensure_len z elems spare (length src / k) in
      if length src % k == 0
      then elim (fill_structs 0 (fs ∷ fss) room src) [
        | none ↦ none
        | some (ds, e) ↦ some (e, pointer (slice_dest z ds rest))
      ]
      else some (some bad_multiple, pointer (slice_dest z elems spare))

  unfoldable pub scan_elems :
      List Value
      → Dest f.Float
      → Dests f.Float
      → Dests f.Float
      → Option (Option Failure × Target f.Float)
  scan_elems src z elems spare =
      let (room, rest) = ensure_len z elems spare (length src) in
      elim (fill_elems 0 room src) [
        | none ↦ none
        | some (ds, e) ↦ some (e, pointer (slice_dest z ds rest))
      ]

  -- The fields of the spec, or those that are named.
  unfoldable pub chosen : StructSpec → List Str → List FieldSpec × Option Failure
  chosen ss [] = (ss.l, none)
  chosen ss (name ∷ names) = select_fields ss (name ∷ names)

  -- `ScanSlice`
  unfoldable pub scan_slice :
      List Value → Target f.Float → List Str → Option (Option Failure × Target f.Float)
  scan_slice src (pointer (slice_dest z elems spare)) field_names = elim (struct_fields z) [
    | none ↦ scan_elems src z elems spare
    | some fields ↦ elim (spec_of fields) [
      | none ↦ none
      | some ss ↦
          let (fss, e) = chosen ss field_names in
          elim e [
            | some x ↦ some (some x, pointer (slice_dest z elems spare))
            | none ↦ scan_structs fss src z elems spare
          ]
    ]
  ]
  scan_slice src dest field_names = some (some not_a_slice, dest)

-- A float type with one value, for the helpers that read no float.
abbrev no_floats : FloatText
no_floats = record { Float = Unit; zero = tt; parse = λ bits s. (tt, none); is_zero = λ x. true }

-- `var ints []int`, and what is read from it afterwards
abbrev pub new_ints : Target (Unit {0})
new_ints = pointer (slice_dest (int_dest 64 (pos 0)) end end)

unfoldable pub ints_in : Dests (Unit {0}) → List ℤ
ints_in end = []
ints_in (elem (int_dest bits n) ds) = n ∷ ints_in ds
ints_in (elem d ds) = ints_in ds

unfoldable pub ints_of : Target (Unit {0}) → List ℤ
ints_of (pointer (slice_dest z elems spare)) = ints_in elems
ints_of t = []

-- `Ints`, which keeps what it has read on an error
unfoldable pub ints : Value → Option Error → Option (Result (List ℤ))
ints reply err =
    let (vs, e) = values reply err in
    elim e [
      | some x ↦ some ([], some x)
      | none ↦ elim (scan_slice no_floats vs new_ints []) [
        | none ↦ none
        | some (e', t) ↦ some (ints_of t, e')
      ]
    ]

-- `Int64s`, which does not
unfoldable pub int64s : Value → Option Error → Option (Result (List ℤ))
int64s reply err =
    let (vs, e) = values reply err in
    elim e [
      | some x ↦ some ([], some x)
      | none ↦ elim (scan_slice no_floats vs new_ints []) [
        | none ↦ none
        | some (some x, t) ↦ some ([], some x)
        | some (none, t) ↦ some (ints_of t, none)
      ]
    ]
