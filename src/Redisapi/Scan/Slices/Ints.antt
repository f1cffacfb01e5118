-- ===== src/Redisapi/Scan/Slices/Ints.antt =====
-- `Ints` and `Int64s` of redisapi/reply.go on an array of numbers.
use grab_redis.Base.{List, map}
use grab_redis.Base.Int.{ℤ}
use grab_redis.Redisapi.Scan.Dest.{Dest}
use grab_redis.Redisapi.Strconv.{format_int}
use grab_redis.Redisapi.Value.{Value, bulk}

abbrev pub texts_of : List ℤ → List Value
texts_of zs = map (λ z. bulk (format_int z)) zs
