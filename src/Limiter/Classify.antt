-- ===== src/Limiter/Classify.antt =====
-- Which errors of a redis command count against the circuit of its node: limiter.go, through the
-- options that it hands to the circuit breaker.
use grab_redis.Base.{Bool, ◌≡◌, refl, Option, none, some, [], ◌∷◌, arith, if◌then◌else◌}
use grab_redis.Base.Text.{Str}
use grab_redis.Breaker.Options.{make_option, with_user_error_handler}
use grab_redis.Breaker.Run.{run, returned, panicked}
use grab_redis.Errors.{Error, routine_panic}
use grab_redis.Limiter.{is_canceled, is_redis_error, should_count_as_cb_error, default_cb_options}

module _ (is_read_only_error : Error → Bool) where
  -- With the limiter's options: a counted error goes to hystrix and nothing is sent; any other result is sent as it is, and
  -- hystrix sees a success.
  pub run-default_cb_options :
      (e : Option Error)
      → run (make_option (default_cb_options is_read_only_error)) (returned e)
        ≡ (if should_count_as_cb_error is_read_only_error e then (e, []) else (none, e ∷ []))
  unfolding run make_option default_cb_options with_user_error_handler should_count_as_cb_error
  run-default_cb_options none = refl
  run-default_cb_options (some e) = ground arith

  -- With the limiter's options a panic of the command counts: hystrix sees its error, and nothing
  -- else is sent.
  pub panic-default_cb_options :
      (text : Str)
      → run (make_option (default_cb_options is_read_only_error)) (panicked text)
        ≡ (some (routine_panic text), [])
  unfolding run make_option default_cb_options with_user_error_handler should_count_as_cb_error
      is_canceled is_redis_error
  panic-default_cb_options text = ground arith
