-- ===== src/Float.antt =====
-- Go's float64, as far as the library computes with it: its type and the operations used are a
-- parameter, with no law assumed.
use grab_redis.Base.{ℕ, Bool, Option}
use grab_redis.Base.Int.{ℤ}
use grab_redis.Base.Text.{Str}
use grab_redis.Redisapi.Strconv.{NumKind}

pub record Float64 : Type 1 where
  pub Float : Type 0
  pub of_int : ℤ → Float
  pub mul : Float → Float → Float
  pub div : Float → Float → Float
  -- `0 < x`
  pub is_positive : Float → Bool
  -- `int64(math.Ceil(x))`
  pub ceil : Float → ℤ

-- What the package redisapi asks of floats: reading a text, as `strconv.ParseFloat`.
pub record FloatText : Type 1 where
  pub Float : Type 0
  pub zero : Float
  -- the number of bits and the text
  pub parse : ℕ → Str → Float × Option NumKind
  -- `x == 0`
  pub is_zero : Float → Bool
