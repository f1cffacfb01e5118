-- ===== src/Redisapi/Scan/Variables.antt =====
-- redisapi/scan.go: `Scan`.
pub mod Order
pub mod Panics
use grab_redis.Base.{
  ℕ, suc, ◌+◌, Bool, Option, none, some, List, [], ◌∷◌, length, drop, ltb, if◌then◌else◌,
}
use grab_redis.Float.{FloatText}
use grab_redis.Redisapi.Failure.{Failure, array_short, at_dest}
use grab_redis.Redisapi.Scan.Assign.{convert_assign}
use grab_redis.Redisapi.Scan.Dest.{Target}
use grab_redis.Redisapi.Value.{Value}

module _ (f : FloatText) where
  -- The loop over the destinations from number `i` on; the first error ends it.
  unfoldable pub scan_from :
      ℕ → List Value → List (Target f.Float) → Option (List (Target f.Float) × Option Failure)
  scan_from i src [] = some ([], none)
  scan_from i [] (d ∷ dest) = none
  scan_from i (v ∷ src) (d ∷ dest) = elim (convert_assign f d v) [
    | none ↦ none
    | some (d', some e) ↦ some (d' ∷ dest, some (at_dest i e))
    | some (d', none) ↦ elim (scan_from (suc i) src dest) [
      | none ↦ none
      | some (dest', e) ↦ some (d' ∷ dest', e)
    ]
  ]

  -- `Scan`: what is left of the source, the error, and the variables.
  unfoldable pub scan :
      List Value
      → List (Target f.Float)
      → Option (List Value × Option Failure × List (Target f.Float))
  scan src dest =
      if ltb (length src) (length dest)
      then some ([], some array_short, dest)
      else elim (scan_from 0 src dest) [
        | none ↦ none
        | some (dest', e) ↦ some (drop (length dest) src, e, dest')
      ]
