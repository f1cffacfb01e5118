-- ===== src/Redisapi/Reply/Maps.antt =====
-- redisapi/reply.go: the helpers that read alternating keys and values into a map. A map is the list
-- of its entries, in the order in which their keys came first; Go leaves the order open.
pub mod RoundTrip
use grab_redis.Base.{
  ℕ, ◌%◌, Bool, true, false, Option, none, some, List, [], ◌∷◌, ◌++◌, ◌==◌, nat_eq, length,
  if◌then◌else◌, Equality, Option-cases,
}
use grab_redis.Base.Int.{ℤ, int_eq}
use grab_redis.Base.Text.{Str, str, str_eq}
use grab_redis.Errors.{Error}
use grab_redis.Float.{FloatText}
use grab_redis.Redisapi.Failure.{Failure, given, odd_length, bad_key, bad_value}
use grab_redis.Redisapi.Reply.{Result, values, string, int, int64, float64}
use grab_redis.Redisapi.Value.{Value, array, to_list}

-- `m[key] = value`
unfoldable pub insert {ℓ κ} :
    {K : Type ℓ} {V : Type κ} ⦃e : Equality K⦄ → K → V → List (K × V) → List (K × V)
insert key value [] = (key, value) ∷ []
insert key value ((k, v) ∷ m) = if k == key then (key, value) ∷ m else (k, v) ∷ insert key value m

module _ {ℓ} {V : Type ℓ} (value_of : Value → Option Error → Result V) (kind : Str) where
  -- The loop that the four helpers share, over an even number of values.
  unfoldable pub entries : List (Str × V) → List Value → Result (List (Str × V))
  unfolding insert
  entries m [] = (m, none)
  entries m (k ∷ []) = (m, none)
  entries m (k ∷ v ∷ rest) =
      let (key, e) = string k none in
      let (value, e') = value_of v none in
      elim e [
        | some x ↦ ([], some bad_key)
        | none ↦ elim e' [
          | some x ↦ ([], some (bad_value kind))
          | none ↦ entries (insert key value m) rest
        ]
      ]

  unfoldable pub map_of : Str → Value → Option Error → Result (List (Str × V))
  unfolding entries
  map_of helper reply err =
      let (vs, e) = values reply err in
      elim e [
        | some x ↦ ([], some x)
        | none ↦ if length vs % 2 == 0 then entries [] vs else ([], some (odd_length helper))
      ]

unfoldable pub string_map : Value → Option Error → Result (List (Str × Str))
unfolding map_of
string_map = map_of string (str "string") (str "StringMap")

unfoldable pub int_map : Value → Option Error → Result (List (Str × ℤ))
unfolding map_of
int_map = map_of int (str "int") (str "IntMap")

unfoldable pub int64_map : Value → Option Error → Result (List (Str × ℤ))
unfolding map_of
int64_map = map_of int64 (str "int64") (str "Int64Map")

unfoldable pub float64_map : (f : FloatText) → Value → Option Error → Result (List (Str × f.Float))
unfolding map_of
float64_map f = map_of (float64 f) (str "float64") (str "Float64Map")

-- `out[score] = append(out[score], value)`
unfoldable pub append_at : ℤ → Str → List (ℤ × List Str) → List (ℤ × List Str)
append_at score value [] = (score, value ∷ []) ∷ []
append_at score value ((s, vs) ∷ m) =
    if s == score then (s, vs ++ (value ∷ [])) ∷ m else (s, vs) ∷ append_at score value m

-- The loop of `Int64StringMapSlice`
unfoldable pub scores_from : List (ℤ × List Str) → List Value → Result (List (ℤ × List Str))
unfolding append_at
scores_from m [] = (m, none)
scores_from m (v ∷ []) = (m, none)
scores_from m (v ∷ s ∷ rest) =
    let (value, e) = string v none in
    let (score, e') = int64 s none in
    elim e [
      | some x ↦ ([], some bad_key)
      | none ↦ elim e' [
        | some x ↦ ([], some (bad_value (str "int64")))
        | none ↦ scores_from (append_at score value m) rest
      ]
    ]

-- A reply that is no array counts as an empty one here.
abbrev pub array_or_empty : Value → List Value
array_or_empty (array vs) = to_list vs
array_or_empty v = []

unfoldable pub int64_string_map_slice : Value → Option Error → Result (List (ℤ × List Str))
unfolding scores_from
int64_string_map_slice reply (some err) = ([], some (given err))
int64_string_map_slice reply none =
    let vs = array_or_empty reply in
    if length vs % 2 == 0 then scores_from [] vs else ([], some (odd_length []))
