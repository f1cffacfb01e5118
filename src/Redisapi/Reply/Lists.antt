-- ===== src/Redisapi/Reply/Lists.antt =====
-- redisapi/reply.go: `Strings`, `ByteSlices` and `Float64s`.
pub mod Texts
use grab_redis.Base.{Bool, true, false, Option, none, some, List, [], ◌∷◌}
use grab_redis.Base.Text.{Str, str}
use grab_redis.Errors.{Error}
use grab_redis.Float.{FloatText}
use grab_redis.Redisapi.Failure.{Failure, given, no_data, unexpected_type, unexpected_element}
use grab_redis.Redisapi.Reply.{Result, values, bytes, float64}
use grab_redis.Redisapi.Value.{Value, null, bulk, simple, array, to_list}

unfoldable pub to_string : Value → Option Str
to_string (bulk s) = some s
to_string (simple s) = some s
to_string v = none

-- One element: a nil one keeps the empty text of the new slice.
unfoldable pub string_at : Value → Option Str
unfolding to_string
string_at null = some []
string_at v = to_string v

-- The loop of `Strings`; the slice is nil on an error.
unfoldable pub strings_from : List Value → Result (List Str)
unfolding string_at
strings_from [] = ([], none)
strings_from (v ∷ vs) = elim (string_at v) [
  | none ↦ ([], some (unexpected_element (str "Strings") v))
  | some s ↦ elim (strings_from vs).1 [
    | none ↦ (s ∷ (strings_from vs).0, none)
    | some e ↦ ([], some e)
  ]
]

unfoldable pub strings : Value → Option Error → Result (List Str)
unfolding strings_from
strings reply (some err) = ([], some (given err))
strings (array vs) none = strings_from (to_list vs)
strings null none = ([], some no_data)
strings reply none = ([], some (unexpected_type (str "Strings") reply))

-- The loop of `ByteSlices`; a nil element stays nil.
unfoldable pub slices_from : List Value → Result (List (Option Str))
slices_from [] = ([], none)
slices_from (null ∷ vs) =
    let (rest, e) = slices_from vs in elim e [ none ↦ (none ∷ rest, none) | some x ↦ ([], some x) ]
slices_from (v ∷ vs) =
    let (b, e) = bytes v none in
    let (rest, e') = slices_from vs in
    elim e [
      | some x ↦ ([], some x)
      | none ↦ elim e' [ none ↦ (b ∷ rest, none) | some x ↦ ([], some x) ]
    ]

unfoldable pub byte_slices : Value → Option Error → Result (List (Option Str))
unfolding slices_from
byte_slices reply err =
    let (vs, e) = values reply err in elim e [ some x ↦ ([], some x) | none ↦ slices_from vs ]

module _ (f : FloatText) where
  -- The loop of `Float64s`
  unfoldable pub floats_from : List Value → Result (List f.Float)
  floats_from [] = ([], none)
  floats_from (v ∷ vs) =
      let (x, e) = float64 f v none in
      let (rest, e') = floats_from vs in
      elim e [
        | some bad ↦ ([], some bad)
        | none ↦ elim e' [ none ↦ (x ∷ rest, none) | some bad ↦ ([], some bad) ]
      ]

  unfoldable pub float64s : Value → Option Error → Result (List f.Float)
  unfolding floats_from
  float64s reply err =
      let (vs, e) = values reply err in elim e [ some x ↦ ([], some x) | none ↦ floats_from vs ]
