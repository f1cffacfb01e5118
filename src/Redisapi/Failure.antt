-- ===== src/Redisapi/Failure.antt =====
-- The errors of the package redisapi. The function that a strconv error names is left out.
use grab_redis.Base.{ℕ}
use grab_redis.Base.Text.{Str}
use grab_redis.Errors.{Error}
use grab_redis.Redisapi.Strconv.{NumKind}
use grab_redis.Redisapi.Value.{Value}

pub data Failure : Type 0 where
  -- the error that a helper was called with
  given : Error → Failure
  -- `ErrNoData`
  no_data : Failure
  -- strconv: the text and what is wrong with it, or the bare `strconv.ErrRange`
  bad_number : Str → NumKind → Failure
  out_of_range : Failure
  -- "unexpected type for ...": the helper and the reply whose type it prints
  unexpected_type unexpected_element : Str → Value → Failure
  -- `Uint64` of a negative integer
  unexpected_value : Value → Failure
  -- the odd length of a map, and what is wrong with an entry
  odd_length : Str → Failure
  bad_key : Failure
  bad_value : Str → Failure
  -- the two constants of redisapi/reply_geo.go
  geo_point_length geo_location_length : Failure
  -- `cannotConvert`: from what; the type of the destination is left out
  cannot_convert : Str → Failure
  -- redisapi/scan.go
  array_short not_a_struct not_a_slice no_fields bad_multiple : Failure
  key_not_bulk : ℕ → Failure
  bad_field : Str → Failure
  at_dest at_element : ℕ → Failure → Failure
  at_field : Str → Failure → Failure
  at_element_field : ℕ → Str → Failure → Failure
