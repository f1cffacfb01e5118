-- ===== src/Redisapi/Scan/Structs.antt =====
-- redisapi/scan.go: `ScanStruct`. `none` is a panic.
use grab_redis.Base.{
  ℕ, zero, suc, ◌+◌, ◌%◌, Option, none, some, List, [], ◌∷◌, length, ◌==◌, nat_eq, if◌then◌else◌,
}
use grab_redis.Float.{FloatText}
use grab_redis.Redisapi.Failure.{Failure, not_a_struct, odd_length, key_not_bulk, at_field}
use grab_redis.Redisapi.Scan.Assign.{assign_value}
use grab_redis.Redisapi.Scan.Dest.{Dest, Fields, Target, struct_dest, no_more, field, pointer}
use grab_redis.Redisapi.Scan.Spec.{FieldSpec, StructSpec, spec_of, lookup}
use grab_redis.Redisapi.Value.{Value, null, bulk}

unfoldable mutual
  -- `FieldByIndex`; `none` is a path that leads out of the struct.
  pub at_path : {F : Type 0} → Dest F → List ℕ → Option (Dest F)
  at_path d [] = some d
  at_path (struct_dest fields) (i ∷ path) = nth_field fields i path
  at_path d (i ∷ path) = none

  pub nth_field : {F : Type 0} → Fields F → ℕ → List ℕ → Option (Dest F)
  nth_field no_more i path = none
  nth_field (field info d rest) zero path = at_path d path
  nth_field (field info d rest) (suc i) path = nth_field rest i path

unfoldable mutual
  -- The write through `FieldByIndex`.
  pub put_path : {F : Type 0} → Dest F → List ℕ → Dest F → Dest F
  put_path d [] v = v
  put_path (struct_dest fields) (i ∷ path) v = struct_dest (put_field fields i path v)
  put_path d (i ∷ path) v = d

  pub put_field : {F : Type 0} → Fields F → ℕ → List ℕ → Dest F → Fields F
  put_field no_more i path v = no_more
  put_field (field info d rest) zero path v = field info (put_path d path v) rest
  put_field (field info d rest) (suc i) path v = field info d (put_field rest i path v)

module _ (f : FloatText) where
  -- One field gets a value.
  unfoldable pub assign_field :
      FieldSpec → Value → Dest f.Float → Option (Dest f.Float × Option Failure)
  assign_field fs s d = elim (at_path d fs.index) [
    | none ↦ none
    | some old ↦ elim (assign_value f old s) [
      | none ↦ none
      | some (new, none) ↦ some (put_path d fs.index new, none)
      | some (new, some e) ↦ some (put_path d fs.index new, some (at_field fs.name e))
    ]
  ]

  -- A pair of a name and a value that is not nil.
  unfoldable pub assign_pair :
      StructSpec → ℕ → Value → Value → Dest f.Float → Option (Dest f.Float × Option Failure)
  assign_pair ss i (bulk name) s d = elim (lookup name ss.m) [
    | none ↦ some (d, none)
    | some fs ↦ assign_field fs s d
  ]
  assign_pair ss i key s d = some (d, some (key_not_bulk i))

  -- The loop over the pairs; a nil value leaves its field alone.
  unfoldable pub scan_pairs :
      StructSpec → ℕ → List Value → Dest f.Float → Option (Dest f.Float × Option Failure)
  scan_pairs ss i [] d = some (d, none)
  scan_pairs ss i (k ∷ []) d = some (d, none)
  scan_pairs ss i (k ∷ null ∷ src) d = scan_pairs ss (i + 2) src d
  scan_pairs ss i (k ∷ s ∷ src) d = elim (assign_pair ss i k s d) [
    | none ↦ none
    | some (d', some e) ↦ some (d', some e)
    | some (d', none) ↦ scan_pairs ss (i + 2) src d'
  ]

  -- `ScanStruct`: the error, and the destination as it is left.
  unfoldable pub scan_struct :
      List Value → Target f.Float → Option (Option Failure × Target f.Float)
  scan_struct src (pointer (struct_dest fields)) = elim (spec_of fields) [
    | none ↦ none
    | some ss ↦
        if length src % 2 == 0
        then elim (scan_pairs ss 0 src (struct_dest fields)) [
          | none ↦ none
          | some (d, e) ↦ some (e, pointer d)
        ]
        else some (some (odd_length []), pointer (struct_dest fields))
  ]
  scan_struct src dest = some (some not_a_struct, dest)
