-- ===== src/Redisapi/Reply/Numbers.antt =====
-- The integer helpers of redisapi/reply.go: which numbers they read, and the range of their results.
use grab_redis.Base.{◌-◌, ◌^◌, ◌≤◌, ◌≡◌, refl, ap, Option, none, some, arith, subst, sym}
use grab_redis.Base.Int.{ℤ, pos, negsuc, wrap64, int_eq, int_beq_iff}
use grab_redis.Base.Text.{Str}
use grab_redis.Errors.{Error}
use grab_redis.Redisapi.Reply.{numeric, int, int64, uint64}
use grab_redis.Redisapi.Strconv.{NumKind, parse_int, parse_uint, format_int}
use grab_redis.Redisapi.Strconv.Bounds.{Within, parse_int-Within, parse_uint-le}
use grab_redis.Redisapi.Strconv.Decimal.{parse_int-format}
use grab_redis.Redisapi.Value.{Value, null, integer, bulk, simple, array, other}

abbrev pub IsInt64 : ℤ → Type 0
IsInt64 z = Within (2 ^ 63) z

wrap64-IsInt64 : (z : ℤ) → IsInt64 z → wrap64 z ≡ z
unfolding wrap64
wrap64-IsInt64 (pos n) h = ground arith
wrap64-IsInt64 (negsuc n) h = ground arith

-- Redis answers with a number in three ways: an integer, or its decimal text as a bulk or a simple
-- string. `Int` and `Int64` read every int64 from each of them.
pub int64-format :
    (z : ℤ)
    → IsInt64 z
    → (int64 (integer z) none ≡ (z, none))
      × (int64 (bulk (format_int z)) none ≡ (z, none))
      × (int64 (simple (format_int z)) none ≡ (z, none))
      × (int (integer z) none ≡ (z, none))
      × (int (bulk (format_int z)) none ≡ (z, none))
      × (int (simple (format_int z)) none ≡ (z, none))
unfolding int64 int
int64-format z h =
    let e = ap (numeric (format_int z)) (parse_int-format 64 z (omega arith) h) in
    (refl, e, e, rw (wrap64-IsInt64 z h) (rw ((int_beq_iff z z).1 refl)), e, e)

-- The bounds.
numeric-fst {ℓ} : {A : Type ℓ} (s : Str) (r : A × Option NumKind) → (numeric s r).0 ≡ r.0
numeric-fst s (a, none) = refl
numeric-fst s (a, some k) = refl

abbrev pub IsGo : Value → Type 0
IsGo (integer z) = IsInt64 z
IsGo v = Unit

zero-IsInt64 : IsInt64 (pos 0)
zero-IsInt64 = omega arith

numeric-IsInt64 : (s t : Str) → IsInt64 (numeric s (parse_int 64 t)).0
numeric-IsInt64 s t = subst IsInt64 (sym (numeric-fst s (parse_int 64 t))) (parse_int-Within 64 t)

int64-IsInt64 : (reply : Value) (err : Option Error) → IsGo reply → IsInt64 (int64 reply err).0
unfolding int64
int64-IsInt64 reply (some e) h = zero-IsInt64
int64-IsInt64 (integer n) none h = h
int64-IsInt64 (bulk s) none h = numeric-IsInt64 s s
int64-IsInt64 (simple s) none h = numeric-IsInt64 s s
int64-IsInt64 null none h = zero-IsInt64
int64-IsInt64 (array vs) none h = zero-IsInt64
int64-IsInt64 (other t) none h = zero-IsInt64

int-IsInt64 : (reply : Value) (err : Option Error) → IsGo reply → IsInt64 (int reply err).0
unfolding int
int-IsInt64 reply (some e) h = zero-IsInt64
int-IsInt64 (integer n) none h = rw (wrap64-IsInt64 n h) (rw ((int_beq_iff n n).1 refl) h)
int-IsInt64 (bulk s) none h = numeric-IsInt64 s s
int-IsInt64 (simple s) none h = numeric-IsInt64 s s
int-IsInt64 null none h = zero-IsInt64
int-IsInt64 (array vs) none h = zero-IsInt64
int-IsInt64 (other t) none h = zero-IsInt64

numeric-le : (s : Str) → (numeric s (parse_uint 64 s)).0 ≤ 2 ^ 64 - 1
numeric-le s = rw (numeric-fst s (parse_uint 64 s)) (parse_uint-le 64 s)

uint64-le : (reply : Value) (err : Option Error) → IsGo reply → (uint64 reply err).0 ≤ 2 ^ 64 - 1
unfolding uint64
uint64-le reply (some e) h = omega arith
uint64-le (integer (pos n)) none h = omega arith
uint64-le (integer (negsuc n)) none h = omega arith
uint64-le (bulk s) none h = numeric-le s
uint64-le (simple s) none h = numeric-le s
uint64-le null none h = omega arith
uint64-le (array vs) none h = omega arith
uint64-le (other t) none h = omega arith

-- Whatever the reply, if an integer in it is an int64, and whether the helper fails or not: the
-- numbers that `Int`, `Int64` and `Uint64` return lie in the range of their types.
int64_bounds :
    (reply : Value) (err : Option Error)
    → IsGo reply
    → IsInt64 (int reply err).0 × IsInt64 (int64 reply err).0 × ((uint64 reply err).0 ≤ 2 ^ 64 - 1)
int64_bounds reply err h =
    (int-IsInt64 reply err h, int64-IsInt64 reply err h, uint64-le reply err h)
