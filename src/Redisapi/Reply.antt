-- ===== src/Redisapi/Reply.antt =====
-- redisapi/reply.go: the helpers that convert a reply. A result is Go's pair of a value and an
-- error, where `none` is the nil error. An int is 64 bits.
pub mod Lists
pub mod Maps
pub mod Numbers
use grab_redis.Base.{
  ℕ, Bool, true, false, not, Option, none, some, List, [], ◌∷◌, ◌==◌, if◌then◌else◌,
}
use grab_redis.Base.Int.{ℤ, pos, negsuc, int_eq, wrap64}
use grab_redis.Base.Text.{Str, str}
use grab_redis.Errors.{Error}
use grab_redis.Float.{FloatText}
use grab_redis.Redisapi.Failure.{
  Failure, given, no_data, bad_number, out_of_range, unexpected_type, unexpected_value,
}
use grab_redis.Redisapi.Strconv.{NumKind, parse_int, parse_uint, parse_bool}
use grab_redis.Redisapi.Value.{Value, null, integer, bulk, simple, array, other, to_list}

abbrev pub Result {ℓ} : Type ℓ → Type ℓ
Result A = A × Option Failure

-- What strconv returns for a text, as a result.
abbrev pub numeric {ℓ} : {A : Type ℓ} → Str → A × Option NumKind → Result A
numeric s (a, none) = (a, none)
numeric s (a, some kind) = (a, some (bad_number s kind))

-- `Int`
unfoldable pub int : Value → Option Error → Result ℤ
int reply (some err) = (pos 0, some (given err))
int (integer n) none = let x = wrap64 n in if x == n then (x, none) else (pos 0, some out_of_range)
int (bulk s) none = numeric s (parse_int 64 s)
int (simple s) none = numeric s (parse_int 64 s)
int null none = (pos 0, some no_data)
int reply none = (pos 0, some (unexpected_type (str "Int") reply))

-- `Int64`
unfoldable pub int64 : Value → Option Error → Result ℤ
int64 reply (some err) = (pos 0, some (given err))
int64 (integer n) none = (n, none)
int64 (bulk s) none = numeric s (parse_int 64 s)
int64 (simple s) none = numeric s (parse_int 64 s)
int64 null none = (pos 0, some no_data)
int64 reply none = (pos 0, some (unexpected_type (str "Int64") reply))

-- `Uint64`
unfoldable pub uint64 : Value → Option Error → Result ℕ
uint64 reply (some err) = (0, some (given err))
uint64 (integer (pos n)) none = (n, none)
uint64 (integer (negsuc n)) none = (0, some (unexpected_value (integer (negsuc n))))
uint64 (bulk s) none = numeric s (parse_uint 64 s)
uint64 (simple s) none = numeric s (parse_uint 64 s)
uint64 null none = (0, some no_data)
uint64 reply none = (0, some (unexpected_type (str "Uint64") reply))

-- `Float64`
unfoldable pub float64 : (f : FloatText) → Value → Option Error → Result f.Float
float64 f reply (some err) = (f.zero, some (given err))
float64 f (bulk s) none = numeric s (f.parse 64 s)
float64 f (simple s) none = numeric s (f.parse 64 s)
float64 f null none = (f.zero, some no_data)
float64 f reply none = (f.zero, some (unexpected_type (str "Float64") reply))

-- `String`
unfoldable pub string : Value → Option Error → Result Str
string reply (some err) = ([], some (given err))
string (bulk s) none = (s, none)
string (simple s) none = (s, none)
string null none = ([], some no_data)
string reply none = ([], some (unexpected_type (str "String") reply))

-- `Bytes`; the nil slice is `none`.
unfoldable pub bytes : Value → Option Error → Result (Option Str)
bytes reply (some err) = (none, some (given err))
bytes (bulk s) none = (some s, none)
bytes (simple s) none = (some s, none)
bytes null none = (none, some no_data)
bytes reply none = (none, some (unexpected_type (str "[]byte") reply))

-- `Bool`
unfoldable pub bool : Value → Option Error → Result Bool
bool reply (some err) = (false, some (given err))
bool (integer n) none = (not (n == pos 0), none)
bool (bulk s) none = numeric s (parse_bool s)
bool (simple s) none = numeric s (parse_bool s)
bool null none = (false, some no_data)
bool reply none = (false, some (unexpected_type (str "Bool") reply))

-- `Values`
unfoldable pub values : Value → Option Error → Result (List Value)
values reply (some err) = ([], some (given err))
values (array vs) none = (to_list vs, none)
values null none = ([], some no_data)
values reply none = ([], some (unexpected_type (str "Values") reply))
