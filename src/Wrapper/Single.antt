-- ===== src/Wrapper/Single.antt =====
-- client_wrapper.go: `reload` of the client of a single host.
pub mod Sync
pub mod Takes
use grab_redis.Base.{
  Bool, true, false, not, Option, none, some, List, [], ◌∷◌, ◌++◌, map, ◌||◌, if◌then◌else◌,
}
use grab_redis.Base.Text.{Str}
use grab_redis.Breaker.Options.{CbSetter}
use grab_redis.Config.Checks.{init, validate_reload}
use grab_redis.Config.Modes.{equals}
use grab_redis.Config.Records.{ClientConfig}
use grab_redis.Errors.{Error}
use grab_redis.Limiter.{Limiter, new_limiter, generate_cb_key, reconfigure_hystrix}
use grab_redis.Wrapper.Calls.{Call, set_limiter, hystrix}
use grab_redis.Wrapper.Settings.{Wrapper, reload_settings}

-- The block on `HystrixEnabled`; `addr` is `c.Client.Options().Addr`.
pub reload_limiter : List CbSetter → Str → ClientConfig → Wrapper → Wrapper
reload_limiter cb_options addr new w =
    if new.hystrix_enabled
    then (if not (equals w.config.hystrix new.hystrix) || not w.config.hystrix_enabled
        then (let cb_key = generate_cb_key addr in
            record w {
              config = record c { hystrix = new.hystrix };
              calls =
                  w.calls
                  ++ (map hystrix (reconfigure_hystrix cb_key new.hystrix)
                      ++ (set_limiter (some (new_limiter cb_key cb_options)) ∷ []));
            })
        else w)
    else record w { calls = w.calls ++ (set_limiter none ∷ []) }
  where
    open w use {config as c}

-- The last assignments.
pub finish : ClientConfig → Wrapper → Wrapper
finish new w = record w {
  config = record c {
    hystrix_enabled = new.hystrix_enabled;
    ignore_read_only = new.ignore_read_only;
  };
}
  where
    open w use {config as c}

-- The error, and the wrapper with the calls that the reload made. `validateReload` may have sorted
-- the addresses of the configuration also where it refuses.
unfoldable pub reload : List CbSetter → Str → ClientConfig → ClientConfig → Option Error × Wrapper
unfolding reload_limiter finish
reload cb_options addr c config =
    let (err, c', new) = validate_reload c (init config) in
    elim err [
      | some e ↦ (some e, record { config = c'; calls = [] })
      | none ↦ (
        none,
        finish new (
            reload_limiter cb_options addr new
              (reload_settings new (record { config = c'; calls = [] }))),
      )
    ]
