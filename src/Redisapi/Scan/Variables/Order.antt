-- ===== src/Redisapi/Scan/Variables/Order.antt =====
-- `Scan` of redisapi/scan.go goes through its destinations in order, and stops at the first error.
use grab_redis.Base.{
  ℕ, suc, ◌+◌, ◌≤◌, ◌≡◌, refl, sym, ap, false, none, some, List, [], ◌∷◌, ◌++◌, length, drop,
  length-append, arith, ltb,
}
use grab_redis.Float.{FloatText}
use grab_redis.Redisapi.Failure.{Failure, at_dest}
use grab_redis.Redisapi.Scan.Assign.{convert_assign}
use grab_redis.Redisapi.Scan.Dest.{Target}
use grab_redis.Redisapi.Scan.Variables.{scan_from, scan}
use grab_redis.Redisapi.Value.{Value}

drop-length : {A : Type 0} (xs ys : List A) → drop (length xs) (xs ++ ys) ≡ ys
drop-length [] ys = refl
drop-length (x ∷ xs) ys = drop-length xs ys

not_short :
    {A B : Type 0} (xs : List A) (ys : List B) (rest : List A)
    → length ys ≤ length xs + length rest
    → ltb (length (xs ++ rest)) (length ys) ≡ false
not_short xs ys rest h = rw (length-append xs rest) (ground arith)

module _ (f : FloatText) where
  -- Each source goes into its destination without an error.
  pub data Converts : List Value → List (Target f.Float) → List (Target f.Float) → Type 0 where
    none_left : Converts [] [] []
    converts :
        {v : Value} {d d' : Target f.Float} {vs : List Value} {ds ds' : List (Target f.Float)}
        → convert_assign f d v ≡ some (d', none)
        → Converts vs ds ds'
        → Converts (v ∷ vs) (d ∷ ds) (d' ∷ ds')

  Converts-length :
      {vs : List Value} {ds ds' : List (Target f.Float)}
      → Converts vs ds ds'
      → length vs ≡ length ds
  Converts-length none_left = refl
  Converts-length (converts e c) = ap suc (Converts-length c)

  enough_for :
      {vs : List Value} {ds ds' : List (Target f.Float)} (rest : List Value)
      → Converts vs ds ds'
      → length ds ≤ length vs + length rest
  enough_for {vs = vs} {ds = ds} rest c = rw (Converts-length c) (omega arith)

  scan_from-append :
      (i : ℕ) {vs : List Value} {ds ds' : List (Target f.Float)} (rest : List Value)
      → Converts vs ds ds'
      → scan_from f i (vs ++ rest) ds ≡ some (ds', none)
  unfolding scan_from
  scan_from-append i rest none_left = refl
  scan_from-append i rest (converts e c) = rw (e, scan_from) (rw (scan_from-append (suc i) rest c))

  scan_from-failed :
      (i : ℕ) {vs : List Value} {ds ds' : List (Target f.Float)} (v : Value) (rest : List Value)
      (d d' : Target f.Float) (others : List (Target f.Float)) (e : Failure)
      → Converts vs ds ds'
      → convert_assign f d v ≡ some (d', some e)
      → scan_from f i (vs ++ (v ∷ rest)) (ds ++ (d ∷ others))
        ≡ some (ds' ++ (d' ∷ others), some (at_dest (i + length ds) e))
  unfolding scan_from
  scan_from-failed i v rest d d' others e none_left h =
      rw (h, scan_from) (ap (λ k. some (d' ∷ others, some (at_dest k e))) (omega arith))
  scan_from-failed i v rest d d' others e (converts {d' = t} {ds = ds} {ds' = ds'} e' c) h =
      rw (e', scan_from)
        (rw (scan_from-failed (suc i) v rest d d' others e c h)
          (ap (λ k. some (t ∷ (ds' ++ (d' ∷ others)), some (at_dest k e))) (omega arith)))

  room :
      {vs : List Value} {ds ds' : List (Target f.Float)} (v : Value) (rest : List Value)
      (d : Target f.Float) (others : List (Target f.Float))
      → Converts vs ds ds'
      → length others ≤ length rest
      → length (ds ++ (d ∷ others)) ≤ length vs + length (v ∷ rest)
  room {ds = ds} v rest d others c h =
      rw (length-append ds (d ∷ others)) (rw (Converts-length c) (omega arith))

  -- Where every source that has a destination converts to it, `Scan` writes all the destinations and
  -- returns the rest of the source without an error.
  pub scan-Converts :
      {vs : List Value} {ds ds' : List (Target f.Float)} (rest : List Value)
      → Converts vs ds ds'
      → scan f (vs ++ rest) ds ≡ some (rest, none, ds')
  unfolding scan
  scan-Converts {vs = vs} {ds = ds} rest c =
      rw (not_short vs ds rest (enough_for rest c), scan)
        (rw (scan_from-append 0 rest c)
          (rw (sym (Converts-length c)) (rw (drop-length vs rest) refl)))

  -- Where the sources before one convert, and that one fails, `Scan` returns its error with the
  -- number of the destination; the destinations before it are written, those after it are as they
  -- were, if there is a source for each of them.
  pub scan-failed :
      {vs : List Value} {ds ds' : List (Target f.Float)} (v : Value) (rest : List Value)
      (d d' : Target f.Float) (others : List (Target f.Float)) (e : Failure)
      → Converts vs ds ds'
      → convert_assign f d v ≡ some (d', some e)
      → length others ≤ length rest
      → scan f (vs ++ (v ∷ rest)) (ds ++ (d ∷ others))
        ≡ some (
          drop (length (ds ++ (d ∷ others))) (vs ++ (v ∷ rest)),
          some (at_dest (length ds) e),
          ds' ++ (d' ∷ others),
        )
  unfolding scan
  scan-failed {vs = vs} {ds = ds} {ds' = ds'} v rest d d' others e c h enough =
      rw (not_short vs (ds ++ (d ∷ others)) (v ∷ rest) (room v rest d others c enough), scan)
        (rw (scan_from-failed 0 v rest d d' others e c h) (
          ap
            (λ k. some (
              drop (length (ds ++ (d ∷ others))) (vs ++ (v ∷ rest)),
              some (at_dest k e),
              ds' ++ (d' ∷ others),
            ))
            (omega arith)))
