-- ===== src/Redisapi/Scan/Assign/Returns.antt =====
-- `convertAssign` of redisapi/scan.go into a pointer that is not nil does not panic.
use grab_redis.Base.{
  ℕ, zero, suc, ◌≤◌, ◌≡◌, refl, ap, Bool, true, false, Bool-cases, Option, none, some, List, [],
  ◌∷◌, length, ◌==◌, nat_eq, ◌%◌, ◌^◌, All, arith, ltb, if◌then◌else◌, inl, inr,
}
use grab_redis.Base.Int.{ℤ, pos, negsuc, int_eq}
use grab_redis.Base.Text.{Str}
use grab_redis.Float.{FloatText}
use grab_redis.Redisapi.Failure.{Failure}
use grab_redis.Redisapi.Scan.Assign.{
  source_name, fail, assign_text, assign_int, assign_value, assign_each, assign_array,
  assign_stored, assign_items, assign_pointed, convert_assign, is_byte, is_iface,
}
use grab_redis.Redisapi.Scan.Dest.{
  Dest, Dests, int_dest, uint_dest, float_dest, bool_dest, string_dest, slice_dest, iface_dest,
  struct_dest, nil_ptr, ptr, other_dest, end, elem, pointer, ensure_len, count, front, copies,
  dests_append, wrap_int,
}
use grab_redis.Redisapi.Value.{Value, Values, null, integer, bulk, simple, array, other, to_list}

-- The code ran to its end.
abbrev pub Returns : {A : Type 0} → Option A → Type 0
Returns {A} r = (a : A) × (r ≡ some a)

abbrev pub IsNotNull : Value → Type 0
IsNotNull null = ⊥
IsNotNull v = Unit

-- No array with a nil element.
abbrev pub IsFull : Value → Type 0
IsFull (array vs) = All IsNotNull (to_list vs)
IsFull v = Unit

fail-Returns : {A : Type 0} (d : A) (v : Value) → IsNotNull v → Returns (fail d v)
unfolding fail source_name
fail-Returns d null h = elim h [ ]
fail-Returns d (integer n) h = (_, refl)
fail-Returns d (bulk s) h = (_, refl)
fail-Returns d (simple s) h = (_, refl)
fail-Returns d (array vs) h = (_, refl)
fail-Returns d (other t) h = (_, refl)

if-Returns : {A : Type 0} (b : Bool) (x y : A) → Returns (if b then some x else some y)
if-Returns true x y = (x, refl)
if-Returns false x y = (y, refl)

pub not_fits : (n : ℕ) → ¬ (suc n ≤ 0)
not_fits n h = omega arith

module _ {F : Type 0} where
  count-copies : (n : ℕ) (d : Dest F) → count (copies n d) ≡ n
  unfolding count copies
  count-copies zero d = refl
  count-copies (suc n) d = ap suc (count-copies n d)

  count-front : (n : ℕ) (ds : Dests F) → n ≤ count ds → count (front n ds) ≡ n
  unfolding count front
  count-front zero ds h = refl
  count-front (suc n) end h = omega arith
  count-front (suc n) (elem d ds) h = ap suc (count-front n ds (omega arith))

  count-ensure_len : (d : Dest F) (ds es : Dests F) (n : ℕ) → count ((ensure_len d ds es n).0) ≡ n
  unfolding ensure_len
  count-ensure_len d ds es n = elim (Bool-cases (ltb (count (dests_append ds es)) n)) [
    | inl h ↦ rw (h, ensure_len) (count-copies n d)
    | inr h ↦ rw (h, ensure_len) (count-front n (dests_append ds es) (ground arith))
  ]

room :
    {F : Type 0} (z : Dest F) (ds es : Dests F) (vs : List Value)
    → length vs ≤ count ((ensure_len z ds es (length vs)).0)
room z ds es vs = rw (count-ensure_len z ds es (length vs)) (omega arith)

module _ (f : FloatText) where
  assign_text-Returns :
      (v : Value) (d : Dest f.Float) (s : Str) → IsNotNull v → Returns (assign_text f v d s)
  unfolding assign_text
  assign_text-Returns v (int_dest b x) s h = (_, refl)
  assign_text-Returns v (uint_dest b x) s h = (_, refl)
  assign_text-Returns v (float_dest b x) s h = (_, refl)
  assign_text-Returns v (bool_dest x) s h = (_, refl)
  assign_text-Returns v (string_dest x) s h = (_, refl)
  assign_text-Returns v (slice_dest z ds es) s h = elim (Bool-cases (is_byte z)) [
    | inl e ↦ rw (e, assign_text) (_, refl)
    | inr e ↦ rw (e, assign_text) (fail-Returns (slice_dest z ds es) v h)
  ]
  assign_text-Returns v (iface_dest w) s h = fail-Returns (iface_dest w) v h
  assign_text-Returns v (struct_dest w) s h = fail-Returns (struct_dest w) v h
  assign_text-Returns v (nil_ptr w) s h = fail-Returns (nil_ptr w) v h
  assign_text-Returns v (ptr w) s h = fail-Returns (ptr w) v h
  assign_text-Returns v (other_dest w b) s h = fail-Returns (other_dest w b) v h

  assign_int-Returns : (d : Dest f.Float) (n : ℤ) → Returns (assign_int f d n)
  unfolding assign_int
  assign_int-Returns (int_dest b x) n = if-Returns (wrap_int b n == n) _ _
  assign_int-Returns (uint_dest b x) (negsuc n) = (_, refl)
  assign_int-Returns (uint_dest b x) (pos n) = if-Returns (n % 2 ^ b == n) _ _
  assign_int-Returns (float_dest b x) n = fail-Returns (float_dest b x) (integer n) tt
  assign_int-Returns (bool_dest x) n = (_, refl)
  assign_int-Returns (string_dest x) n = fail-Returns (string_dest x) (integer n) tt
  assign_int-Returns (slice_dest z ds es) n = fail-Returns (slice_dest z ds es) (integer n) tt
  assign_int-Returns (iface_dest w) n = fail-Returns (iface_dest w) (integer n) tt
  assign_int-Returns (struct_dest w) n = fail-Returns (struct_dest w) (integer n) tt
  assign_int-Returns (nil_ptr w) n = fail-Returns (nil_ptr w) (integer n) tt
  assign_int-Returns (ptr w) n = fail-Returns (ptr w) (integer n) tt
  assign_int-Returns (other_dest w b) n = fail-Returns (other_dest w b) (integer n) tt

  assign_value-Returns : (d : Dest f.Float) (v : Value) → IsNotNull v → Returns (assign_value f d v)
  unfolding assign_value
  assign_value-Returns d null h = elim h [ ]
  assign_value-Returns d (integer n) h = assign_int-Returns d n
  assign_value-Returns d (bulk s) h = assign_text-Returns (bulk s) d s h
  assign_value-Returns d (simple s) h = assign_text-Returns (simple s) d s h
  assign_value-Returns d (array vs) h = fail-Returns d (array vs) h
  assign_value-Returns d (other t) h = fail-Returns d (other t) h

  each_step :
      (d d' : Dest f.Float) (ds : Dests f.Float) (v : Value) (vs : List Value) (e : Option Failure)
      → assign_value f d v ≡ some (d', e)
      → Returns (assign_each f ds vs)
      → Returns (assign_each f (elem d ds) (v ∷ vs))
  unfolding assign_each
  each_step d d' ds v vs (some x) q h = rw (q, assign_each) (_, refl)
  each_step d d' ds v vs none q (r, p) = rw (q, assign_each) (rw p (_, refl))

  assign_each-Returns :
      (ds : Dests f.Float) (vs : List Value)
      → length vs ≤ count ds
      → All IsNotNull vs
      → Returns (assign_each f ds vs)
  unfolding assign_each count
  assign_each-Returns ds [] fits h = (_, refl)
  assign_each-Returns end (v ∷ vs) fits h = absurd (not_fits (length vs) fits)
  assign_each-Returns (elem d ds) (v ∷ vs) fits (h, hs) =
      let (r, q) = assign_value-Returns d v h in
      each_step d r.0 ds v vs r.1 q (assign_each-Returns ds vs (omega arith) hs)

  assign_array-Returns :
      (d : Dest f.Float) (vs : List Value) (v : Value)
      → IsNotNull v
      → All IsNotNull vs
      → Returns (assign_array f d vs v)
  unfolding assign_array
  assign_array-Returns (slice_dest z ds es) vs v h hs =
      let (r, q) =
        assign_each-Returns ((ensure_len z ds es (length vs)).0) vs (room z ds es vs) hs in
      rw (q, assign_array) (_, refl)
  assign_array-Returns (int_dest b w) vs v h hs = fail-Returns (int_dest b w) v h
  assign_array-Returns (uint_dest b w) vs v h hs = fail-Returns (uint_dest b w) v h
  assign_array-Returns (float_dest b w) vs v h hs = fail-Returns (float_dest b w) v h
  assign_array-Returns (bool_dest w) vs v h hs = fail-Returns (bool_dest w) v h
  assign_array-Returns (string_dest w) vs v h hs = fail-Returns (string_dest w) v h
  assign_array-Returns (iface_dest w) vs v h hs = fail-Returns (iface_dest w) v h
  assign_array-Returns (struct_dest w) vs v h hs = fail-Returns (struct_dest w) v h
  assign_array-Returns (nil_ptr w) vs v h hs = fail-Returns (nil_ptr w) v h
  assign_array-Returns (ptr w) vs v h hs = fail-Returns (ptr w) v h
  assign_array-Returns (other_dest w b) vs v h hs = fail-Returns (other_dest w b) v h

  assign_stored-Returns :
      (d : Dest f.Float) (v : Value) → IsNotNull v → Returns (assign_stored f d v)
  unfolding assign_stored
  assign_stored-Returns (iface_dest w) v h = (_, refl)
  assign_stored-Returns (slice_dest z ds es) v h = assign_value-Returns (slice_dest z ds es) v h
  assign_stored-Returns (int_dest b w) v h = assign_value-Returns (int_dest b w) v h
  assign_stored-Returns (uint_dest b w) v h = assign_value-Returns (uint_dest b w) v h
  assign_stored-Returns (float_dest b w) v h = assign_value-Returns (float_dest b w) v h
  assign_stored-Returns (bool_dest w) v h = assign_value-Returns (bool_dest w) v h
  assign_stored-Returns (string_dest w) v h = assign_value-Returns (string_dest w) v h
  assign_stored-Returns (struct_dest w) v h = assign_value-Returns (struct_dest w) v h
  assign_stored-Returns (nil_ptr w) v h = assign_value-Returns (nil_ptr w) v h
  assign_stored-Returns (ptr w) v h = assign_value-Returns (ptr w) v h
  assign_stored-Returns (other_dest w b) v h = assign_value-Returns (other_dest w b) v h

  assign_items-Returns :
      (d : Dest f.Float) (vs : Values) → All IsNotNull (to_list vs) → Returns (assign_items f d vs)
  unfolding assign_items
  assign_items-Returns (iface_dest w) vs h = (_, refl)
  assign_items-Returns (slice_dest z ds es) vs h = elim (Bool-cases (is_iface z)) [
    | inl e ↦ rw (e, assign_items) (_, refl)
    | inr e ↦
        rw (e, assign_items)
          (assign_array-Returns (slice_dest z ds es) (to_list vs) (array vs) tt h)
  ]
  assign_items-Returns (int_dest b w) vs h =
      assign_array-Returns (int_dest b w) (to_list vs) (array vs) tt h
  assign_items-Returns (uint_dest b w) vs h =
      assign_array-Returns (uint_dest b w) (to_list vs) (array vs) tt h
  assign_items-Returns (float_dest b w) vs h =
      assign_array-Returns (float_dest b w) (to_list vs) (array vs) tt h
  assign_items-Returns (bool_dest w) vs h =
      assign_array-Returns (bool_dest w) (to_list vs) (array vs) tt h
  assign_items-Returns (string_dest w) vs h =
      assign_array-Returns (string_dest w) (to_list vs) (array vs) tt h
  assign_items-Returns (struct_dest w) vs h =
      assign_array-Returns (struct_dest w) (to_list vs) (array vs) tt h
  assign_items-Returns (nil_ptr w) vs h =
      assign_array-Returns (nil_ptr w) (to_list vs) (array vs) tt h
  assign_items-Returns (ptr w) vs h = assign_array-Returns (ptr w) (to_list vs) (array vs) tt h
  assign_items-Returns (other_dest w b) vs h =
      assign_array-Returns (other_dest w b) (to_list vs) (array vs) tt h

  -- A value whose arrays have no nil element converts to a pointer without a panic.
  pub convert_assign-Returns :
      (d : Dest f.Float) (v : Value)
      → IsFull v
      → (d' : Dest f.Float) × (e : Option Failure) × (convert_assign f (pointer d) v
          ≡ some (pointer d', e))
  unfolding convert_assign assign_pointed
  convert_assign-Returns d null h = (d, none, refl)
  convert_assign-Returns d (integer n) h =
      let (r, q) = assign_stored-Returns d (integer n) tt in rw (q, convert_assign) (_, _, refl)
  convert_assign-Returns d (bulk s) h =
      let (r, q) = assign_stored-Returns d (bulk s) tt in rw (q, convert_assign) (_, _, refl)
  convert_assign-Returns d (simple s) h =
      let (r, q) = assign_value-Returns d (simple s) tt in rw (q, convert_assign) (_, _, refl)
  convert_assign-Returns d (array vs) h =
      let (r, q) = assign_items-Returns d vs h in rw (q, convert_assign) (_, _, refl)
  convert_assign-Returns d (other t) h =
      let (r, q) = assign_value-Returns d (other t) tt in rw (q, convert_assign) (_, _, refl)
