-- ===== src/Redisapi/Strconv.antt =====
-- What redisapi/reply.go and redisapi/scan.go use of the standard package strconv: `ParseInt`,
-- `ParseUint` and `ParseBool` in base ten, as its documentation gives them, and the decimal text of
-- a number, which Redis answers with.
pub mod Decimal
pub mod Bounds
use grab_redis.Base.{
  ℕ, zero, suc, ◌+◌, ◌-◌, ◌*◌, ◌/◌, ◌%◌, ◌^◌, Bool, true, false, Option, none, some, List, [], ◌∷◌,
  ◌==◌, ◌&&◌, nat_eq, ltb, leb, if◌then◌else◌,
}
use grab_redis.Base.Int.{ℤ, pos, negsuc}
use grab_redis.Base.Text.{Str, str, str_eq}

-- `strconv.ErrSyntax` and `strconv.ErrRange`
pub data NumKind : Type 0 where
  syntax range : NumKind

abbrev pub is_digit : ℕ → Bool
is_digit c = leb b'0' c && leb c b'9'

-- The loop of `ParseUint`; past `max` it stops there.
unfoldable pub parse_digits : ℕ → ℕ → Str → ℕ × Option NumKind
parse_digits max n [] = (n, none)
parse_digits max n (c ∷ s) =
    let m = n * 10 + (c - b'0') in
    let rest = parse_digits max m s in
    if is_digit c then (if ltb max m then (max, some range) else rest) else (0, some syntax)

unfoldable pub parse_uint : ℕ → Str → ℕ × Option NumKind
unfolding parse_digits
parse_uint bits [] = (0, some syntax)
parse_uint bits (c ∷ s) = parse_digits (2 ^ bits - 1) 0 (c ∷ s)

-- `-n`
abbrev pub negate : ℕ → ℤ
negate zero = pos 0
negate (suc n) = negsuc n

-- The number behind the sign, within the signed range of `2 * half` values.
abbrev pub signed : Bool → ℕ → ℕ × Option NumKind → ℤ × Option NumKind
signed neg half (n, some syntax) = (pos 0, some syntax)
signed false half (n, e) = if leb half n then (pos (half - 1), some range) else (pos n, none)
signed true half (n, e) = if ltb half n then (negate half, some range) else (negate n, none)

unfoldable pub parse_int : ℕ → Str → ℤ × Option NumKind
unfolding parse_uint
parse_int bits [] = (pos 0, some syntax)
parse_int bits (c ∷ s) =
    let half = 2 ^ (bits - 1) in
    if c == b'+'
    then signed false half (parse_uint bits s)
    else if c == b'-'
    then signed true half (parse_uint bits s)
    else signed false half (parse_uint bits (c ∷ s))

one_of : List Str → Str → Bool
one_of [] s = false
one_of (t ∷ ts) s = if s == t then true else one_of ts s

unfoldable pub parse_bool : Str → Bool × Option NumKind
unfolding one_of
parse_bool s =
    if one_of (str "1" ∷ str "t" ∷ str "T" ∷ str "TRUE" ∷ str "true" ∷ str "True" ∷ []) s
    then (true, none)
    else if one_of (str "0" ∷ str "f" ∷ str "F" ∷ str "FALSE" ∷ str "false" ∷ str "False" ∷ []) s
    then (false, none)
    else (false, some syntax)

-- The decimal digits of a number, in front of a text; `n + 1` rounds are enough.
unfoldable pub digits : ℕ → ℕ → Str → Str
digits zero n out = out
digits (suc fuel) n out =
    let longer = (b'0' + n % 10) ∷ out in
    let rest = digits fuel (n / 10) longer in if n / 10 == 0 then longer else rest

unfoldable pub format_uint : ℕ → Str
unfolding digits
format_uint n = digits (suc n) n []

unfoldable pub format_int : ℤ → Str
unfolding format_uint
format_int (pos n) = format_uint n
format_int (negsuc n) = b'-' ∷ format_uint (suc n)
