-- ===== src/Redisapi/Scan/Assign.antt =====
-- redisapi/scan.go: `convertAssign` and the functions that it calls. `none` is a panic; otherwise the
-- variable as it is left, and the error.
pub mod Returns
use grab_redis.Base.{
  ◌%◌, ◌^◌, Bool, true, false, not, Option, none, some, List, [], ◌∷◌, map, length, ◌==◌, nat_eq,
  if◌then◌else◌,
}
use grab_redis.Base.Int.{ℤ, pos, negsuc, int_eq}
use grab_redis.Base.Text.{Str, str}
use grab_redis.Float.{FloatText}
use grab_redis.Redisapi.Failure.{Failure, cannot_convert, out_of_range, bad_number}
use grab_redis.Redisapi.Strconv.{NumKind, parse_int, parse_uint, parse_bool}
use grab_redis.Redisapi.Value.{Value, Values, null, integer, bulk, simple, array, other, to_list}
use grab_redis.Redisapi.Scan.Dest.{
  Dest, Dests, Target, int_dest, uint_dest, float_dest, bool_dest, string_dest, slice_dest,
  iface_dest, end, elem, nil_target, nil_pointer, not_pointer, pointer, dests_of, ensure_len,
  wrap_int,
}

-- What `cannotConvert` calls the source. On nil it panics: a nil reflect.Type has no `String`.
unfoldable pub source_name : Value → Option Str
source_name (simple s) = some (str "Redis simple string")
source_name (integer n) = some (str "Redis integer")
source_name (bulk s) = some (str "Redis bulk string")
source_name (array vs) = some (str "Redis array")
source_name (other t) = some t
source_name null = none

-- `err = cannotConvert(d, s)`
unfoldable pub fail {ℓ} : {A : Type ℓ} → A → Value → Option (A × Option Failure)
unfolding source_name
fail d s = elim (source_name s) [ none ↦ none | some n ↦ some (d, some (cannot_convert n)) ]

-- The error of strconv for a text.
abbrev pub number_error : Str → Option NumKind → Option Failure
number_error s none = none
number_error s (some kind) = some (bad_number s kind)

abbrev pub is_byte : {F : Type 0} → Dest F → Bool
is_byte (uint_dest bits n) = bits == 8
is_byte d = false

abbrev pub is_iface : {F : Type 0} → Dest F → Bool
is_iface (iface_dest v) = true
is_iface d = false

module _ (f : FloatText) where
  abbrev pub Assigned : Type 0
  Assigned = Option (Dest f.Float × Option Failure)

  -- `convertAssignBulkString` and `convertAssignSimpleString`, which differ in the name of the
  -- source alone. A number that fails is written all the same.
  unfoldable pub assign_text : Value → Dest f.Float → Str → Assigned
  assign_text source (float_dest bits x) s =
      let (y, e) = f.parse bits s in some (float_dest bits y, number_error s e)
  assign_text source (int_dest bits x) s =
      let (y, e) = parse_int bits s in some (int_dest bits y, number_error s e)
  assign_text source (uint_dest bits x) s =
      let (y, e) = parse_uint bits s in some (uint_dest bits y, number_error s e)
  assign_text source (bool_dest x) s =
      let (y, e) = parse_bool s in some (bool_dest y, number_error s e)
  assign_text source (string_dest x) s = some (string_dest s, none)
  assign_text source (slice_dest z elems spare) s =
      if is_byte z
      then some (slice_dest z (dests_of (map (λ b. uint_dest 8 b) s)) end, none)
      else fail (slice_dest z elems spare) source
  assign_text source d s = fail d source

  -- `convertAssignInt`
  unfoldable pub assign_int : Dest f.Float → ℤ → Assigned
  assign_int (int_dest bits x) s =
      let y = wrap_int bits s in
      if y == s
      then some (int_dest bits y, none)
      else some (int_dest bits (pos 0), some out_of_range)
  assign_int (uint_dest bits x) (negsuc n) = some (uint_dest bits x, some out_of_range)
  assign_int (uint_dest bits x) (pos n) =
      let y = n % 2 ^ bits in
      if y == n then some (uint_dest bits y, none) else some (uint_dest bits 0, some out_of_range)
  assign_int (bool_dest x) s = some (bool_dest (not (s == pos 0)), none)
  assign_int d s = fail d (integer s)

  -- `convertAssignValue`
  unfoldable pub assign_value : Dest f.Float → Value → Assigned
  unfolding assign_text assign_int
  assign_value d (bulk s) = assign_text (bulk s) d s
  assign_value d (simple s) = assign_text (simple s) d s
  assign_value d (integer n) = assign_int d n
  assign_value d v = fail d v

  -- The loop of `convertAssignArray`; the first error ends it.
  unfoldable pub assign_each : Dests f.Float → List Value → Option (Dests f.Float × Option Failure)
  unfolding assign_value
  assign_each ds [] = some (ds, none)
  assign_each end (v ∷ vs) = none
  assign_each (elem d ds) (v ∷ vs) = elim (assign_value d v) [
    | none ↦ none
    | some (d', some e) ↦ some (elem d' ds, some e)
    | some (d', none) ↦ elim (assign_each ds vs) [
      | none ↦ none
      | some (ds', e) ↦ some (elem d' ds', e)
    ]
  ]

  -- `convertAssignArray`
  unfoldable pub assign_array : Dest f.Float → List Value → Value → Assigned
  unfolding assign_each ensure_len
  assign_array (slice_dest z elems spare) vs source =
      let (room, rest) = ensure_len z elems spare (length vs) in
      elim (assign_each room vs) [ none ↦ none | some (ds, e) ↦ some (slice_dest z ds rest, e) ]
  assign_array d vs source = fail d source

  -- The bulk strings and integers of `convertAssign`: an interface takes them as they are.
  unfoldable pub assign_stored : Dest f.Float → Value → Assigned
  unfolding assign_value
  assign_stored (iface_dest v) source = some (iface_dest source, none)
  assign_stored d source = assign_value d source

  -- Its arrays.
  unfoldable pub assign_items : Dest f.Float → Values → Assigned
  unfolding assign_array
  assign_items (iface_dest v) vs = some (iface_dest (array vs), none)
  assign_items (slice_dest z elems spare) vs =
      if is_iface z
      then some (slice_dest z (dests_of (map (λ v. iface_dest v) (to_list vs))) end, none)
      else assign_array (slice_dest z elems spare) (to_list vs) (array vs)
  assign_items d vs = assign_array d (to_list vs) (array vs)

  -- `convertAssign` to a pointer; a source is not nil here.
  unfoldable pub assign_pointed : Dest f.Float → Value → Assigned
  unfolding assign_stored assign_items assign_value
  assign_pointed d (bulk s) = assign_stored d (bulk s)
  assign_pointed d (integer n) = assign_stored d (integer n)
  assign_pointed d (array vs) = assign_items d vs
  assign_pointed d source = assign_value d source

  unfoldable pub convert_assign : Target f.Float → Value → Option (Target f.Float × Option Failure)
  unfolding assign_pointed
  convert_assign t null = some (t, none)
  convert_assign nil_target (simple s) = none
  convert_assign nil_target (other t) = none
  convert_assign nil_target source = some (nil_target, none)
  convert_assign nil_pointer (other t) = fail nil_pointer (other t)
  convert_assign nil_pointer source = none
  convert_assign not_pointer source = fail not_pointer source
  convert_assign (pointer d) source = elim (assign_pointed d source) [
    | none ↦ none
    | some (d', e) ↦ some (pointer d', e)
  ]
