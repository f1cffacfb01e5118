-- ===== src/Redisapi/Strconv/Bounds.antt =====
-- What strconv returns lies in the range of the type that is asked for, also where it fails.
use grab_redis.Base.{
  ℕ, zero, suc, ◌+◌, ◌-◌, ◌*◌, ◌^◌, ◌≤◌, ◌<◌, Bool, true, false, Option, none, some, [], ◌∷◌, arith,
  ltb, if◌then◌else◌, ◌==◌, nat_eq, Bool-cases, inl, inr,
}
use grab_redis.Base.Int.{ℤ, pos, negsuc}
use grab_redis.Base.Text.{Str}
use grab_redis.Redisapi.Strconv.{
  NumKind, syntax, range, parse_digits, parse_uint, parse_int, signed, negate,
}

-- The integers of `2 * half` values.
abbrev pub Within : ℕ → ℤ → Type 0
Within half (pos n) = n < half
Within half (negsuc n) = n < half

parse_digits-le : (max n : ℕ) (s : Str) → n ≤ max → (parse_digits max n s).0 ≤ max
unfolding parse_digits
parse_digits-le max n [] h = h
parse_digits-le max n (c ∷ s) h = ground (arith, parse_digits-le max (n * 10 + (c - b'0')) s)

negate-Within : (half n : ℕ) → 0 < half → n ≤ half → Within half (negate n)
negate-Within half zero pos' h = pos'
negate-Within half (suc n) pos' h = omega arith

if-Within :
    (half : ℕ) (x y : ℤ × Option NumKind) (b : Bool)
    → Within half x.0
    → Within half y.0
    → Within half (if b then x else y).0
if-Within half x y true h k = h
if-Within half x y false h k = k

signed-Within :
    (neg : Bool) (half : ℕ) (r : ℕ × Option NumKind) → 0 < half → Within half (signed neg half r).0
signed-Within neg half (n, some syntax) h = h
signed-Within false half (n, none) h = ground arith
signed-Within false half (n, some range) h = ground arith
signed-Within true half (n, none) h = elim (Bool-cases (ltb half n)) [
  | inl e ↦ rw e (negate-Within half half h (omega arith))
  | inr e ↦ rw e (negate-Within half n h (ground arith))
]
signed-Within true half (n, some range) h = elim (Bool-cases (ltb half n)) [
  | inl e ↦ rw e (negate-Within half half h (omega arith))
  | inr e ↦ rw e (negate-Within half n h (ground arith))
]

half_pos : (k : ℕ) → 0 < 2 ^ k
half_pos zero = omega arith
half_pos (suc k) = omega (arith, half_pos k)

-- Whatever the text, the number that `ParseInt` returns is one of the `2 ^ bits` values of its type.
pub parse_int-Within : (bits : ℕ) (s : Str) → Within (2 ^ (bits - 1)) (parse_int bits s).0
unfolding parse_int
parse_int-Within bits [] = half_pos (bits - 1)
parse_int-Within bits (c ∷ s) =
    let h = half_pos (bits - 1) in
    if-Within _ _ _ (c == b'+') (signed-Within false _ (parse_uint bits s) h) (
      if-Within _ _ _ (c == b'-') (signed-Within true _ (parse_uint bits s) h)
        (signed-Within false _ (parse_uint bits (c ∷ s)) h))

pub parse_uint-le : (bits : ℕ) (s : Str) → (parse_uint bits s).0 ≤ 2 ^ bits - 1
unfolding parse_uint
parse_uint-le bits [] = omega arith
parse_uint-le bits (c ∷ s) = parse_digits-le (2 ^ bits - 1) 0 (c ∷ s) (omega arith)
