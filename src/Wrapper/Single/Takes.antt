-- ===== src/Wrapper/Single/Takes.antt =====
-- What the configuration of a single-host client is after an accepted `reload`: which fields come
-- from the new configuration and which stay.
use grab_redis.Base.{
  ◌≡◌, ap, ap₂, ◌∙◌, none, some, List, [], if◌then◌else◌, arith, inl, inr, Option-cases,
}
use grab_redis.Base.Sort.{sort}
use grab_redis.Base.Text.{Str, str_order}
use grab_redis.Breaker.Options.{CbSetter}
use grab_redis.Config.Checks.{init, validate_reload}
use grab_redis.Config.Checks.Accepts.{validate_reload-eq_none}
use grab_redis.Config.Modes.{equals-eq}
use grab_redis.Config.Records.{ClientConfig}
use grab_redis.Wrapper.Settings.{Wrapper, reload_settings}
use grab_redis.Wrapper.Settings.Track.{take_settings, config-reload_settings}
use grab_redis.Wrapper.Single.{reload, reload_limiter, finish}
use grab_redis.Wrapper.Single.Sync.{
  set_option, with_settings, reloadable-IsLawful, reload_accepted, reload_refused,
}

-- The circuit breaker's settings are taken only while the new configuration enables it.
abbrev pub take_hystrix : ClientConfig → ClientConfig → ClientConfig
take_hystrix new c = record c {
  hystrix = if new.hystrix_enabled then new.hystrix else c.hystrix;
  hystrix_enabled = new.hystrix_enabled;
  ignore_read_only = new.ignore_read_only;
}

config-reload_limiter :
    (cb_options : List CbSetter) (addr : Str) (new : ClientConfig) (w : Wrapper)
    → (finish new (reload_limiter cb_options addr new w)).config ≡ take_hystrix new w.config
unfolding finish reload_limiter
config-reload_limiter cb_options addr new w = ground (arith, equals-eq w.config.hystrix new.hystrix)

config-apply :
    (cb_options : List CbSetter) (addr : Str) (c new : ClientConfig)
    → (finish new (
        reload_limiter cb_options addr new
          (reload_settings new (record { config = c; calls = [] })))).config
      ≡ take_hystrix new (take_settings new c)
config-apply cb_options addr c new =
    let w : Wrapper = record { config = c; calls = [] } in
    config-reload_limiter cb_options addr new (reload_settings new w)
    ∙ ap (take_hystrix new)
        (config-reload_settings set_option with_settings reloadable-IsLawful new w)

-- An accepted reload takes the fifteen settings, the circuit breaker and `IgnoreReadOnly`; the
-- addresses are sorted, and every other field stays, TLS, redirects and read mode among them.
pub config-reload :
    (cb_options : List CbSetter) (addr : Str) (c config : ClientConfig)
    → (reload cb_options addr c config).0 ≡ none
    → (reload cb_options addr c config).1.config
      ≡ record (take_hystrix (init config) (take_settings (init config) c)) { addrs = sort c.addrs }
unfolding take_settings
config-reload cb_options addr c config h = elim (Option-cases (validate_reload c (init config)).0) [
  | inl e ↦
      let (same, same') = validate_reload-eq_none c (init config) e in
      rw (reload_accepted cb_options addr c config e) (
        config-apply cb_options addr _ (validate_reload c (init config)).2
        ∙ ap₂ (λ n k. take_hystrix n (take_settings n k)) same' same)
  | inr (x, e) ↦
      let h' : some x ≡ none = rw (reload_refused cb_options addr c config e) at h in absurd (cc)
]
