-- ===== src/Redisapi/Strconv/Decimal.antt =====
-- The decimal text of a number reads back as the number.
use grab_redis.Base.{
  ℕ, zero, suc, ◌+◌, ◌-◌, ◌*◌, ◌/◌, ◌%◌, ◌^◌, ◌≤◌, ◌<◌, ◌≡◌, refl, ap, ◌∙◌, true, false, none, [],
  ◌∷◌, arith, Bool-cases, inl, inr, ◌==◌, nat_eq,
}
use native.Mathlib.Nat.{two-pow-succ}
use grab_redis.Base.Int.{ℤ, pos, negsuc}
use grab_redis.Base.Text.{Str}
use grab_redis.Redisapi.Strconv.{
  parse_digits, parse_uint, parse_int, signed, digits, format_uint, format_int,
}
use grab_redis.Redisapi.Strconv.Bounds.{Within}

parse_digits_step :
    (max n d : ℕ) (s : Str)
    → d < 10
    → n * 10 + d ≤ max
    → parse_digits max n ((b'0' + d) ∷ s) ≡ parse_digits max (n * 10 + d) s
unfolding parse_digits
parse_digits_step max n d s h k =
    let e : n * 10 + (b'0' + d - b'0') ≡ n * 10 + d = omega arith in ground arith

-- The digits of `n` in front of a text bring the parser to `n`.
parse_digits-digits :
    (fuel n max : ℕ) (out : Str)
    → n < fuel
    → n ≤ max
    → parse_digits max 0 (digits fuel n out) ≡ parse_digits max n out
unfolding digits
parse_digits-digits zero n max out h k = absurd (omega arith)
parse_digits-digits (suc fuel) n max out h k = elim (Bool-cases (n / 10 == 0)) [
  | inl one ↦ rw one (
      parse_digits_step max 0 (n % 10) out (omega arith) (ground arith)
      ∙ ap (λ m. parse_digits max m out) (ground arith))
  | inr more ↦ rw more (
      parse_digits-digits fuel (n / 10) max _ (ground arith) (omega arith)
      ∙ parse_digits_step max (n / 10) (n % 10) out (omega arith) (omega arith)
      ∙ ap (λ m. parse_digits max m out) (omega arith))
]

-- A text of digits, and not an empty one.
digits-cons :
    (fuel n : ℕ) (out : Str)
    → n < fuel
    → (d : ℕ) × (s : Str) × (digits fuel n out ≡ (b'0' + d) ∷ s) × (d < 10)
unfolding digits
digits-cons zero n out h = absurd (omega arith)
digits-cons (suc fuel) n out h = elim (Bool-cases (n / 10 == 0)) [
  | inl one ↦ rw one (n % 10, out, refl, omega arith)
  | inr more ↦ rw more (digits-cons fuel (n / 10) _ (ground arith))
]

parse_uint-cons :
    (bits c : ℕ) (s t : Str) → s ≡ c ∷ t → parse_uint bits s ≡ parse_digits (2 ^ bits - 1) 0 s
unfolding parse_uint
parse_uint-cons bits c [] t e = cc
parse_uint-cons bits c (x ∷ s) t e = refl

pub parse_uint-format :
    (bits n : ℕ) → n ≤ 2 ^ bits - 1 → parse_uint bits (format_uint n) ≡ (n, none)
unfolding format_uint parse_digits
parse_uint-format bits n h =
    let (d, s, e, _) = digits-cons (suc n) n [] (omega arith) in
    parse_uint-cons bits (b'0' + d) (digits (suc n) n []) s e
    ∙ parse_digits-digits (suc n) n (2 ^ bits - 1) [] (omega arith) h

-- A digit is no sign.
parse_int-digit :
    (bits d : ℕ) (s t : Str)
    → d < 10
    → s ≡ (b'0' + d) ∷ t
    → parse_int bits s ≡ signed false (2 ^ (bits - 1)) (parse_uint bits s)
unfolding parse_int
parse_int-digit bits d [] t h e = cc
parse_int-digit bits d (x ∷ s) t h e = ground arith

parse_int-minus :
    (bits : ℕ) (s : Str)
    → parse_int bits (b'-' ∷ s) ≡ signed true (2 ^ (bits - 1)) (parse_uint bits s)
unfolding parse_int
parse_int-minus bits s = refl

halves : (bits : ℕ) → 0 < bits → 2 ^ bits ≡ 2 ^ (bits - 1) + 2 ^ (bits - 1)
halves zero h = absurd (omega arith)
halves (suc k) h = two-pow-succ k ∙ ap (λ j. 2 ^ j + 2 ^ j) (omega arith)

-- Every number of a signed type of one bit or more reads back from its decimal text.
pub parse_int-format :
    (bits : ℕ) (z : ℤ)
    → 0 < bits
    → Within (2 ^ (bits - 1)) z
    → parse_int bits (format_int z) ≡ (z, none)
unfolding format_int format_uint
parse_int-format bits (pos n) b h =
    let (d, s, e, lt) = digits-cons (suc n) n [] (omega arith) in
    parse_int-digit bits d (digits (suc n) n []) s lt e
    ∙ ap (signed false (2 ^ (bits - 1))) (parse_uint-format bits n (omega (arith, halves bits b)))
    ∙ ground arith
parse_int-format bits (negsuc n) b h =
    parse_int-minus bits (digits (suc (suc n)) (suc n) [])
    ∙ ap (signed true (2 ^ (bits - 1)))
        (parse_uint-format bits (suc n) (omega (arith, halves bits b, h)))
    ∙ ground arith
