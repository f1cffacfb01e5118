-- ===== src/Redisapi/Script.antt =====
-- redisapi/scripter.go: a Lua script and the arguments that run it. SHA-1 is a parameter.
use grab_redis.Base.{List, ◌∷◌, if◌then◌else◌}
use grab_redis.Base.Int.{ℤ, is_negative}
use grab_redis.Base.Text.{Str}
use grab_redis.Redisapi.Value.{Value, integer, simple}

pub record Script : Type 0 where
  pub key_count : ℤ
  pub src : Str
  pub hash : Str

unfoldable pub new_script : (Str → Str) → ℤ → Str → Script
new_script sha1_hex key_count script_source = record {
  key_count = key_count;
  src = script_source;
  hash = sha1_hex script_source;
}

unfoldable pub script_args : Script → Str → List Value → List Value
script_args s spec keys_and_args =
    if is_negative s.key_count
    then simple spec ∷ keys_and_args
    else simple spec ∷ integer s.key_count ∷ keys_and_args

unfoldable pub get_hash_and_args : Script → List Value → List Value
unfolding script_args
get_hash_and_args s keys_and_args = script_args s s.hash keys_and_args

unfoldable pub get_script_and_args : Script → List Value → List Value
unfolding script_args
get_script_and_args s keys_and_args = script_args s s.src keys_and_args
