-- ===== src/Redisapi/Reply/Maps/RoundTrip.antt =====
-- The map helpers of redisapi/reply.go read back the alternating keys and values of a map.
use grab_redis.Base.{
  ◌%◌, ◌≡◌, ◌≢◌, refl, sym, ap, ◌∙◌, Option, none, List, [], ◌∷◌, ◌++◌, append_assoc, append-nil,
  length, All, arith, nat_eq, ==-cases, inl, inr,
}
use grab_redis.Base.Int.{ℤ}
use grab_redis.Base.Text.{Str, str_eq}
use grab_redis.Errors.{Error}
use grab_redis.Redisapi.Reply.{Result, values, string, int64}
use grab_redis.Redisapi.Reply.Maps.{insert, entries, map_of, int64_map, string_map}
use grab_redis.Redisapi.Reply.Numbers.{IsInt64, int64-format}
use grab_redis.Redisapi.Strconv.{format_int}
use grab_redis.Redisapi.Value.{
  Value, TextKind, as_bytes, as_string, text_value, array, of_list, to_list-of_list,
}

-- Keys that differ from one another and from those seen.
abbrev pub IsFresh {ℓ} : {V : Type ℓ} → Str → List (Str × V) → Type 0
IsFresh key [] = Unit
IsFresh key ((k, v) ∷ m) = (k ≢ key) × IsFresh key m

abbrev pub IsDistinct {ℓ} : {V : Type ℓ} → List (Str × V) → Type 0
IsDistinct [] = Unit
IsDistinct ((k, v) ∷ m) = IsFresh k m × IsDistinct m

pub insert-IsFresh {ℓ} :
    {V : Type ℓ} (key : Str) (v : V) (m : List (Str × V))
    → IsFresh key m
    → insert key v m ≡ m ++ ((key, v) ∷ [])
unfolding insert
insert-IsFresh key v [] h = refl
insert-IsFresh key v ((k, w) ∷ m) (ne, h) = elim (==-cases k key) [
  | inl (e, same) ↦ absurd (ne same)
  | inr e ↦ rw e (ap (λ l. (k, w) ∷ l) (insert-IsFresh key v m h))
]

IsFresh-append {ℓ} :
    {V : Type ℓ} (key k : Str) (v : V) (m : List (Str × V))
    → IsFresh key m
    → k ≢ key
    → IsFresh key (m ++ ((k, v) ∷ []))
IsFresh-append key k v [] h ne = (ne, tt)
IsFresh-append key k v ((j, w) ∷ m) (ne', h) ne = (ne', IsFresh-append key k v m h ne)

-- Every key of `m` is fresh for `done`.
abbrev AreFresh {ℓ} : {V : Type ℓ} → List (Str × V) → List (Str × V) → Type 0
AreFresh done [] = Unit
AreFresh done ((k, v) ∷ m) = IsFresh k done × AreFresh done m

AreFresh-nil {ℓ} : {V : Type ℓ} (m : List (Str × V)) → AreFresh [] m
AreFresh-nil [] = tt
AreFresh-nil ((k, v) ∷ m) = (tt, AreFresh-nil m)

AreFresh-append {ℓ} :
    {V : Type ℓ} (done m : List (Str × V)) (k : Str) (v : V)
    → AreFresh done m
    → IsFresh k m
    → AreFresh (done ++ ((k, v) ∷ [])) m
AreFresh-append done [] k v h f = tt
AreFresh-append done ((j, w) ∷ m) k v (h, hs) (ne, f) =
    (IsFresh-append j k v done h (λ e. ne (sym e)), AreFresh-append done m k v hs f)

-- The reply to HGETALL: keys and values in turn, as the client hands them on.
pub alternate {ℓ} : {V : Type ℓ} → TextKind → (V → Str) → List (Str × V) → List Value
alternate t text [] = []
alternate t text ((k, v) ∷ m) = text_value t k ∷ text_value t (text v) ∷ alternate t text m

even-alternate {ℓ} :
    {V : Type ℓ} (t : TextKind) (text : V → Str) (m : List (Str × V))
    → length (alternate t text m) % 2 ≡ 0
unfolding alternate
even-alternate t text [] = refl
even-alternate t text ((k, v) ∷ m) = omega (arith, even-alternate t text m)

module _ {ℓ} {V : Type ℓ} (value_of : Value → Option Error → Result V) (kind : Str) (t : TextKind)
    (text : V → Str) where
  -- The helper reads this value from its text.
  abbrev pub Reads : V → Type ℓ
  Reads v = value_of (text_value t (text v)) none ≡ (v, none)

  entries_step :
      (m : List (Str × V)) (k : Str) (w : Value) (v : V) (rest : List Value)
      → value_of w none ≡ (v, none)
      → entries value_of kind m (text_value t k ∷ w ∷ rest)
        ≡ entries value_of kind (insert k v m) rest
  unfolding entries string
  entries_step m k w v rest h = by_kind t
    where
      by_kind :
          (t : TextKind)
          → entries value_of kind m (text_value t k ∷ w ∷ rest)
            ≡ entries value_of kind (insert k v m) rest
      by_kind as_bytes = rw (h, entries) (rw h)
      by_kind as_string = rw (h, entries) (rw h)

  entries-alternate :
      (done m : List (Str × V))
      → AreFresh done m
      → IsDistinct m
      → All (λ p. Reads p.1) m
      → entries value_of kind done (alternate t text m) ≡ (done ++ m, none)
  unfolding alternate
  entries-alternate done [] f d r = unfold entries in rw (append-nil done)
  entries-alternate done ((k, v) ∷ m) (f, fs) (d, ds) (r, rs) =
      entries_step done k (text_value t (text v)) v (alternate t text m) r
      ∙ rw (insert-IsFresh k v done f) (
          entries-alternate (done ++ ((k, v) ∷ [])) m (AreFresh-append done m k v fs d) ds rs
          ∙ ap (λ l. (l, none)) (append_assoc done ((k, v) ∷ []) m))

  pub map_of-alternate :
      (helper : Str) (m : List (Str × V))
      → IsDistinct m
      → All (λ p. Reads p.1) m
      → map_of value_of kind helper (array (of_list (alternate t text m))) none ≡ (m, none)
  unfolding map_of values
  map_of-alternate helper m d r =
      rw (to_list-of_list (alternate t text m))
        (rw (even-alternate t text m) (entries-alternate [] m (AreFresh-nil m) d r))

-- `StringMap` and `Int64Map` read the map that HGETALL sent, entry by entry and in its order,
-- whether the client hands its texts on as Go strings or as byte slices: any texts, and any int64 as
-- its decimal text, under keys that differ.
pub maps-alternate :
    (t : TextKind) (texts : List (Str × Str)) (numbers : List (Str × ℤ))
    → IsDistinct texts
    → IsDistinct numbers
    → All (λ p. IsInt64 p.1) numbers
    → (string_map (array (of_list (alternate t (λ s. s) texts))) none ≡ (texts, none))
      × (int64_map (array (of_list (alternate t format_int numbers))) none ≡ (numbers, none))
unfolding string_map int64_map string
maps-alternate t texts numbers d d' h = (
  map_of-alternate string _ t (λ s. s) _ texts d (texts_read t texts),
  map_of-alternate int64 _ t format_int _ numbers d' (numbers_read t numbers h),
)
  where
    texts_read :
        (t : TextKind) (m : List (Str × Str))
        → All (λ p. string (text_value t p.1) none ≡ (p.1, none)) m
    texts_read t [] = tt
    texts_read as_bytes (p ∷ m) = (refl, texts_read as_bytes m)
    texts_read as_string (p ∷ m) = (refl, texts_read as_string m)

    numbers_read :
        (t : TextKind) (m : List (Str × ℤ))
        → All (λ p. IsInt64 p.1) m
        → All (λ p. int64 (text_value t (format_int p.1)) none ≡ (p.1, none)) m
    numbers_read t [] h = tt
    numbers_read as_bytes ((k, z) ∷ m) (h, hs) =
        let read = int64-format z h in (read.1, numbers_read as_bytes m hs)
    numbers_read as_string ((k, z) ∷ m) (h, hs) =
        let read = int64-format z h in (read.2, numbers_read as_string m hs)
