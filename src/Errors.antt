-- ===== src/Errors.antt =====
-- Go's `error` values as this library meets them. An error of a library outside the repository is
-- `external`: which sentinel or type it is, and its text. The texts of the repository's own errors
-- are those of config.go, client_wrapper.go, connector.go, client.go and circuitbreaker/error.go.
use grab_redis.Base.{◌++◌}
use grab_redis.Base.Text.{Str, str}

-- `redis` is any server reply of type goredis.Error; `redis_nil` is goredis.Nil.
pub data Kind : Type 0 where
  canceled deadline_exceeded redis_nil redis timeout circuit_open max_concurrency plain : Kind

pub data ConfigError : Type 0 where
  no_addrs client_mode_change db_change addrs_change bad_create_mode : ConfigError
  bad_client_mode bad_read_mode : Str → ConfigError

pub data Error : Type 0 where
  external : Kind → Str → Error
  wrapped : Str → Error → Error
  config : ConfigError → Error
  -- circuitbreaker.RoutinePanicError
  routine_panic : Str → Error
  -- connector.go: the two refusals of a reload
  scheduler_change shared_address : Error
  -- client.go: `ifCommandReadonly` without an entry
  no_command_cache : Error

pub config_text : ConfigError → Str
config_text no_addrs = str "no addrs found in config"
config_text client_mode_change = str "client mode change is not allowed in reloading"
config_text db_change = str "DB change is not allowed in reloading"
config_text addrs_change = str "addrs change is not allowed in reloading"
config_text bad_create_mode = str "invalid client mode to init Redis client"
config_text (bad_client_mode m) = str "client mode " ++ (m ++ str " is not valid")
config_text (bad_read_mode m) = str "read mode " ++ (m ++ str " is not valid")

-- `err.Error()`
unfoldable pub error_text : Error → Str
unfolding config_text
error_text (external k s) = s
error_text (wrapped s e) = s ++ (str ": " ++ error_text e)
error_text (config e) = config_text e
error_text (routine_panic s) = str "routine panicked: " ++ s
error_text scheduler_change =
    str "dual write worker number/channel size change is not allowed in reloading"
error_text shared_address = str "can't share the same address with the main client"
error_text no_command_cache = str "no command cache"

-- `errors.Cause` of github.com/pkg/errors
unfoldable pub cause : Error → Error
cause (external k s) = external k s
cause (wrapped s e) = cause e
cause (config e) = config e
cause (routine_panic s) = routine_panic s
cause scheduler_change = scheduler_change
cause shared_address = shared_address
cause no_command_cache = no_command_cache
