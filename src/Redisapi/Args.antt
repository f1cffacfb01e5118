-- ===== src/Redisapi/Args.antt =====
-- redisapi/args.go: command arguments from Go values. An argument is a value of type interface{},
-- so it is a `Dest` as redisapi/scan.go sees it.
pub mod Plain
pub mod RoundTrip
use grab_redis.Base.{
  Bool, true, false, not, ◌&&◌, Option, none, some, List, [], ◌∷◌, ◌++◌, map, ◌==◌, nat_eq,
  if◌then◌else◌,
}
use grab_redis.Base.Int.{pos, int_eq}
use grab_redis.Base.Text.{str_eq}
use grab_redis.Float.{FloatText}
use grab_redis.Redisapi.Scan.Dest.{
  Dest, Fields, int_dest, uint_dest, float_dest, bool_dest, string_dest, slice_dest, iface_dest,
  struct_dest, nil_ptr, ptr, other_dest, list_of, count,
}
use grab_redis.Redisapi.Scan.Spec.{FieldSpec, spec_of}
use grab_redis.Redisapi.Scan.Structs.{at_path}
use grab_redis.Redisapi.Value.{Value, null, bulk, array, to_list}

-- What `AddFlat` is given: a value, or a map with its entries in the order of `MapKeys`.
pub data Flat (F : Type 0) : Type 0 where
  plain : Dest F → Flat F
  map_value : List (Dest F × Dest F) → Flat F

unfoldable pub is_null : Value → Bool
is_null null = true
is_null v = false

module _ (f : FloatText) where
  abbrev pub Args : Type 0
  Args = List (Dest f.Float)

  -- `Add` and `NewArgs`
  unfoldable pub add : Args → Args → Args
  add args values = args ++ values

  unfoldable pub new_args : Args → Args
  new_args args = args

  -- The switch of `flattenStruct` on a field with `omitempty`.
  unfoldable pub is_empty : Dest f.Float → Bool
  is_empty (slice_dest z elems spare) = count elems == 0
  is_empty (string_dest s) = s == []
  is_empty (bool_dest b) = not b
  is_empty (int_dest bits n) = n == pos 0
  is_empty (uint_dest bits n) = n == 0
  is_empty (float_dest bits x) = f.is_zero x
  is_empty (iface_dest v) = is_null v
  is_empty (nil_ptr d) = true
  is_empty (other_dest t empty) = empty
  is_empty d = false

  -- The loop of `flattenStruct` over the fields of the spec.
  unfoldable pub flatten_fields : List FieldSpec → Dest f.Float → Option Args
  flatten_fields [] d = some []
  flatten_fields (fs ∷ l) d = elim (at_path d fs.index) [
    | none ↦ none
    | some v ↦ elim (flatten_fields l d) [
      | none ↦ none
      | some rest ↦
          some (if fs.omit_empty && is_empty v then rest else string_dest fs.name ∷ v ∷ rest)
    ]
  ]

  -- `flattenStruct`; `none` is a panic.
  unfoldable pub flatten_struct : Args → Fields f.Float → Option Args
  flatten_struct args fields = elim (spec_of fields) [
    | none ↦ none
    | some ss ↦ elim (flatten_fields ss.l (struct_dest fields)) [
      | none ↦ none
      | some rest ↦ some (args ++ rest)
    ]
  ]

  unfoldable pub flatten_map : List (Dest f.Float × Dest f.Float) → Args
  flatten_map [] = []
  flatten_map ((k, v) ∷ m) = k ∷ v ∷ flatten_map m

  -- `AddFlat` looks through an interface at the value that it holds: []interface{} and []byte are
  -- slices.
  unfoldable pub flatten_value : Value → Args
  flatten_value (array vs) = map (λ v. iface_dest v) (to_list vs)
  flatten_value (bulk s) = map (λ b. uint_dest 8 b) s
  flatten_value v = iface_dest v ∷ []

  -- `AddFlat`
  unfoldable pub add_flat : Args → Flat f.Float → Option Args
  add_flat args (plain (struct_dest fields)) = flatten_struct args fields
  add_flat args (plain (slice_dest z elems spare)) = some (args ++ list_of elems)
  add_flat args (plain (ptr (struct_dest fields))) = flatten_struct args fields
  add_flat args (plain (nil_ptr d)) = some args
  add_flat args (plain (iface_dest v)) = some (args ++ flatten_value v)
  add_flat args (plain d) = some (args ++ (d ∷ []))
  add_flat args (map_value m) = some (args ++ flatten_map m)
