-- ===== src/Redisapi/Scan/Variables/Panics.antt =====
-- `Scan` of redisapi/scan.go into pointers that are not nil.
use grab_redis.Base.{
  ℕ, suc, ◌≤◌, ◌≡◌, refl, ap, sym, ◌∙◌, false, Bool-cases, Option, none, some, List, [], ◌∷◌,
  length, map, length-map, nat_eq, All, arith, ltb, inl, inr,
}
use grab_redis.Base.Int.{int_eq}
use grab_redis.Float.{FloatText}
use grab_redis.Redisapi.Failure.{Failure}
use grab_redis.Redisapi.Scan.Assign.{convert_assign}
use grab_redis.Redisapi.Scan.Dest.{Dest, Target, pointer}
use grab_redis.Redisapi.Scan.Variables.{scan_from, scan}
use grab_redis.Redisapi.Value.{Value}
use grab_redis.Redisapi.Scan.Assign.Returns.{Returns, IsFull, not_fits, convert_assign-Returns}

le_of_ltb : (m n : ℕ) → ltb m n ≡ false → n ≤ m
le_of_ltb m n h = ground arith

fits_of :
    {F : Type 0} (vs : List Value) (ds : List (Dest F))
    → ltb (length vs) (length (map (λ d. pointer d) ds)) ≡ false
    → length ds ≤ length vs
fits_of vs ds h =
    le_of_ltb (length vs) (length ds)
      (ap (λ n. ltb (length vs) n) (sym (length-map (λ d. pointer d) ds)) ∙ h)

module _ (f : FloatText) where
  scan_step :
      (i : ℕ) (v : Value) (vs : List Value) (t t' : Target f.Float) (ts : List (Target f.Float))
      (e : Option Failure)
      → convert_assign f t v ≡ some (t', e)
      → Returns (scan_from f (suc i) vs ts)
      → Returns (scan_from f i (v ∷ vs) (t ∷ ts))
  unfolding scan_from
  scan_step i v vs t t' ts (some x) q h = rw (q, scan_from) (_, refl)
  scan_step i v vs t t' ts none q (r, p) = rw (q, scan_from) (rw p (_, refl))

  scan_from-Returns :
      (i : ℕ) (vs : List Value) (ds : List (Dest f.Float))
      → length ds ≤ length vs
      → All IsFull vs
      → Returns (scan_from f i vs (map (λ d. pointer d) ds))
  unfolding scan_from
  scan_from-Returns i vs [] fits h = (_, refl)
  scan_from-Returns i [] (d ∷ ds) fits h = absurd (not_fits (length ds) fits)
  scan_from-Returns i (v ∷ vs) (d ∷ ds) fits (h, hs) =
      let (d', e, q) = convert_assign-Returns f d v h in
      scan_step i v vs (pointer d) (pointer d') (map (λ d. pointer d) ds) e q
        (scan_from-Returns (suc i) vs ds (omega arith) hs)

  -- `Scan` into pointers that are not nil does not panic, whatever their types and however many
  -- values there are, if no array among the values has a nil element.
  pub scan-Returns :
      (vs : List Value) (ds : List (Dest f.Float))
      → All IsFull vs
      → (left : List Value) × (e : Option Failure) × (ds' : List (Target f.Float)) × (scan f vs
            (map (λ d. pointer d) ds)
          ≡ some (left, e, ds'))
  unfolding scan
  scan-Returns vs ds h = elim (Bool-cases (ltb (length vs) (length (map (λ d. pointer d) ds)))) [
    | inl e ↦ rw (e, scan) (_, _, _, refl)
    | inr e ↦
        let (r, q) = scan_from-Returns 0 vs ds (fits_of vs ds e) h in
        rw (e, scan) (rw q (_, _, _, refl))
  ]
