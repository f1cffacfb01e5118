-- ===== src/Wrapper/Cluster/Reload.antt =====
-- Each block of `reload` of cluster_wrapper.go keeps the cluster in step with its configuration,
-- and so does the whole.
use grab_redis.Base.{
  true, not, ◌≡◌, refl, sym, ap, subst, ◌∙◌, Option, List, [], ◌∷◌, ◌||◌, arith, All, inl, inr,
  Bool-cases, Option-cases, ==-cases,
}
use grab_redis.Base.Int.{int_eq}
use grab_redis.Base.Text.{Str, str_eq}
use grab_redis.Breaker.Options.{CbSetter}
use grab_redis.Config.Checks.{init, validate_reload}
use grab_redis.Config.Checks.Accepts.{validate_reload_keeps}
use grab_redis.Config.Modes.{equals}
use grab_redis.Config.Records.{ClientConfig}
use grab_redis.Limiter.{Limiter}
use grab_redis.Wrapper.Options.{settings_of}
use grab_redis.Wrapper.Calls.{
  Goredis, replay, replay-append, run_calls, view-run_calls, set_max_redirects, set_read_only,
  set_route_by_latency, set_route_randomly,
}
use grab_redis.Wrapper.Settings.{Wrapper, reload_settings}
use grab_redis.Wrapper.Settings.Track.{
  take_settings, reload_settings-Tracks, config-reload_settings,
}
use grab_redis.Wrapper.Single.Sync.{expected_limiter}
use grab_redis.Wrapper.Cluster.{
  install_limiters, remove_limiters, reload_limiters, reload_redirects, read_flags,
  reload_read_mode, reload, reload_accepted, reload_refused,
}
use grab_redis.Wrapper.Cluster.Limiters.{Installed, install-Installed, remove-Installed}
use grab_redis.Wrapper.Cluster.Sync.{
  Cluster, set_cluster, with_settings, reloadable-IsLawful, IsSynced,
}

module _ (cb_options : List CbSetter) (shards : List Str) (o : Cluster) where
  -- The calls so far have kept the cluster in step with the configuration so far.
  abbrev InStep : Wrapper → Type 0
  InStep w = IsSynced cb_options shards w.config (replay set_cluster o w.calls)

  reload_settings-InStep :
      (new c : ClientConfig)
      → IsSynced cb_options shards c o
      → InStep (reload_settings new (record { config = c; calls = [] }))
  unfolding set_cluster with_settings take_settings replay
  reload_settings-InStep new c h =
      let w : Wrapper = record { config = c; calls = [] } in
      let same = config-reload_settings set_cluster with_settings reloadable-IsLawful new w in
      let t =
        reload_settings-Tracks set_cluster with_settings reloadable-IsLawful new w o
          (ap (λ v. record o { options = record k { settings = v } }) h.same_settings) in
      rw t (
        rw same (record {
          same_settings = refl;
          same_redirects = h.same_redirects;
          same_routing = h.same_routing;
          same_tls = h.same_tls;
          same_limiters = h.same_limiters;
        }))
    where
      open o use {options as k}

  -- After a loop over the shards, in step with a configuration that differs in the breaker alone.
  Installed-IsSynced :
      (f : Str → Option Limiter) (c c' : ClientConfig) (v v' : Cluster)
      → IsSynced cb_options shards c v
      → Installed f shards v v'
      → settings_of c' ≡ settings_of c
      → c'.max_redirects ≡ c.max_redirects
      → c'.read_mode ≡ c.read_mode
      → c'.tls_enabled ≡ c.tls_enabled
      → f ≡ expected_limiter cb_options c'.hystrix_enabled
      → IsSynced cb_options shards c' v'
  Installed-IsSynced f c c' v v' h i es er em et ef = record {
    same_settings = ap (λ k. k.settings) i.same_options ∙ h.same_settings ∙ sym es;
    same_redirects = ap (λ k. k.max_redirects) i.same_options ∙ h.same_redirects ∙ sym er;
    same_routing =
        ap (λ k. (k.read_only, k.route_by_latency, k.route_randomly)) i.same_options
        ∙ h.same_routing
        ∙ ap read_flags (sym em);
    same_tls = ap (λ k. k.insecure_tls) i.same_options ∙ h.same_tls ∙ sym et;
    same_limiters = subst (λ g. All (λ a. v'.limiters a ≡ g a) shards) ef i.each;
  }

  limiters-InStep :
      (new : ClientConfig) (w : Wrapper)
      → InStep w
      → InStep (reload_limiters cb_options shards new w)
  unfolding reload_limiters settings_of expected_limiter
  limiters-InStep new w h = elim (Bool-cases new.hystrix_enabled) [
    | inl on ↦
        elim (Bool-cases
          (not (equals w.config.hystrix new.hystrix) || not w.config.hystrix_enabled)) [
            | inl changed ↦
                rw (on, changed)
                  (rw
                    (replay-append set_cluster o w.calls
                      (install_limiters cb_options new.hystrix shards))
                    (Installed-IsSynced _ w.config _ _ _ h
                      (install-Installed cb_options new.hystrix shards _) refl refl refl refl refl))
            | inr kept ↦
                let enabled : w.config.hystrix_enabled ≡ true = ground arith in
                rw (on, kept)
                  (record {
                    same_settings = h.same_settings;
                    same_redirects = h.same_redirects;
                    same_routing = h.same_routing;
                    same_tls = h.same_tls;
                    same_limiters =
                        subst
                          (λ b.
                            All
                              (λ a.
                                (replay set_cluster o w.calls).limiters a
                                ≡ expected_limiter cb_options b a)
                              shards)
                          enabled h.same_limiters;
                  })
          ]
    | inr off ↦ rw off (
        rw (replay-append set_cluster o w.calls (remove_limiters shards)) (
          Installed-IsSynced _ w.config _ _ _ h (remove-Installed shards _) refl refl refl refl
            refl))
  ]

  redirects-InStep : (new : ClientConfig) (w : Wrapper) → InStep w → InStep (reload_redirects new w)
  unfolding reload_redirects set_cluster replay settings_of
  redirects-InStep new w h = elim (==-cases w.config.max_redirects new.max_redirects) [
    | inl (e, same) ↦ rw e (record {
      same_settings = h.same_settings;
      same_redirects = h.same_redirects;
      same_routing = h.same_routing;
      same_tls = h.same_tls;
      same_limiters = h.same_limiters;
    })
    | inr e ↦ rw e (
        rw (replay-append set_cluster o w.calls (set_max_redirects new.max_redirects ∷ []))
          (record {
            same_settings = h.same_settings;
            same_redirects = refl;
            same_routing = h.same_routing;
            same_tls = h.same_tls;
            same_limiters = h.same_limiters;
          }))
  ]

  read_mode-InStep : (new : ClientConfig) (w : Wrapper) → InStep w → InStep (reload_read_mode new w)
  unfolding reload_read_mode set_cluster replay settings_of
  read_mode-InStep new w h = elim (==-cases w.config.read_mode new.read_mode) [
    | inl (e, same) ↦ rw e h
    | inr e ↦
        let (read_only, by_latency, randomly) = read_flags new.read_mode in
        rw e (
          rw
            (replay-append set_cluster o w.calls (
              set_read_only read_only
              ∷ set_route_by_latency by_latency
              ∷ set_route_randomly randomly
              ∷ []))
            (record {
              same_settings = h.same_settings;
              same_redirects = h.same_redirects;
              same_routing = refl;
              same_tls = h.same_tls;
              same_limiters = h.same_limiters;
            }))
  ]

  validate_reload-IsSynced :
      (c new : ClientConfig)
      → IsSynced cb_options shards c o
      → IsSynced cb_options shards (validate_reload c new).1 o
  unfolding settings_of
  validate_reload-IsSynced c new h = elim (validate_reload_keeps c new) [
    | inl e ↦ rw e h
    | inr e ↦ rw e (record {
      same_settings = h.same_settings;
      same_redirects = h.same_redirects;
      same_routing = h.same_routing;
      same_tls = h.same_tls;
      same_limiters = h.same_limiters;
    })
  ]

  reload-InStep :
      (c config : ClientConfig)
      → IsSynced cb_options shards c o
      → InStep (reload cb_options shards c config).1
  reload-InStep c config h =
      let h' = validate_reload-IsSynced c (init config) h in
      let new = (validate_reload c (init config)).2 in
      elim (Option-cases (validate_reload c (init config)).0) [
        | inl e ↦ rw (reload_accepted cb_options shards c config e) (
            read_mode-InStep new _
              (redirects-InStep new _ (limiters-InStep new _ (reload_settings-InStep new _ h'))))
        | inr (x, e) ↦ rw (reload_refused cb_options shards c config e) (unfold replay in h')
      ]

module _ (g : Goredis Cluster set_cluster) (cb_options : List CbSetter) (shards : List Str) where
  -- If the cluster is in step with the wrapper's configuration before a reload, it is so after it,
  -- whether the reload is accepted or refused: settings, redirects, the routing flags, TLS and the
  -- limiter of every shard.
  pub reload_cluster-IsSynced :
      (s : g.State) (c config : ClientConfig)
      → IsSynced cb_options shards c (g.view s)
      → let (_, w) = reload cb_options shards c config in
        IsSynced cb_options shards w.config (g.view (run_calls g s w.calls))
  reload_cluster-IsSynced s c config h =
      rw (view-run_calls g s (reload cb_options shards c config).1.calls)
        (reload-InStep cb_options shards (g.view s) c config h)
