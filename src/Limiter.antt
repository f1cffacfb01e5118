-- ===== src/Limiter.antt =====
-- limiter.go: the circuit breaker of one redis node. What it asks of the hystrix library is a list
-- of effects, in the order of the calls; whether a reply is a READONLY error is a parameter.
pub mod Classify
pub mod Calls
use grab_redis.Base.{Bool, true, false, not, Option, none, some, List, [], ◌∷◌, ◌++◌, if◌then◌else◌}
use grab_redis.Base.Int.{ℤ}
use grab_redis.Base.Text.{Str, str}
use grab_redis.Breaker.Options.{CbSetter, with_user_error_handler}
use grab_redis.Config.Modes.{Hystrix}
use grab_redis.Errors.{
  Error, external, wrapped, config, routine_panic, scheduler_change, shared_address,
  no_command_cache, Kind,
}

pub record Limiter : Type 0 where
  pub key : Str
  pub cb_options : List CbSetter

unfoldable pub new_limiter : Str → List CbSetter → Limiter
new_limiter key cb_options = record { key = key; cb_options = cb_options }

unfoldable pub generate_cb_key : Str → Str
generate_cb_key addr = str "redis_" ++ addr

-- `errors.Is(err, context.Canceled)`: the error or one that it wraps
unfoldable pub is_canceled : Error → Bool
is_canceled (external Kind.canceled s) = true
is_canceled (wrapped s e) = is_canceled e
is_canceled _ = false

-- `_, ok := err.(goredis.Error)`: the error itself
unfoldable pub is_redis_error : Error → Bool
is_redis_error (external Kind.redis s) = true
is_redis_error (external Kind.redis_nil s) = true
is_redis_error _ = false

module _ (is_read_only_error : Error → Bool) where
  unfoldable pub should_count_as_cb_error : Option Error → Bool
  should_count_as_cb_error none = false
  should_count_as_cb_error (some err) =
      if is_canceled err
      then false
      else if is_read_only_error err
      then true
      else if is_redis_error err
      then false
      else true

  unfoldable pub default_cb_options : List CbSetter
  default_cb_options =
      with_user_error_handler (λ err. (not (should_count_as_cb_error err), err)) ∷ []

-- One call of the chain that hystrix's command builder receives.
pub data BuilderCall : Type 0 where
  with_timeout with_max_concurrent_requests with_request_volume_threshold
        with_error_percentage_threshold with_sleep_window with_queue_size :
      ℤ → BuilderCall

-- `configure key chain` is ConfigureCircuit of what the chain of `New(key)` builds.
pub data Effect : Type 0 where
  configure : Str → List BuilderCall → Effect
  flush : Effect

unfoldable pub configure_hystrix : Str → Hystrix → List Effect
configure_hystrix key setting =
    configure key (
      with_timeout setting.timeout_in_ms
      ∷ with_max_concurrent_requests setting.max_concurrent_requests
      ∷ with_request_volume_threshold setting.request_volume_threshold
      ∷ with_error_percentage_threshold setting.error_percent_threshold
      ∷ with_sleep_window setting.sleep_window_in_ms
      ∷ with_queue_size setting.queue_size_rejection_threshold
      ∷ [])
    ∷ []

unfoldable pub reconfigure_hystrix : Str → Hystrix → List Effect
reconfigure_hystrix key setting = configure_hystrix key setting ++ (flush ∷ [])
