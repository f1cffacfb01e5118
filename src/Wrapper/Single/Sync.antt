-- ===== src/Wrapper/Single/Sync.antt =====
-- `reload` of the client of a single host against `singleHostOptions`, at the address that goredis was
-- given when it was made.
use grab_redis.Base.{
  Bool, not, ◌≡◌, refl, sym, ap, ◌∙◌, Option, none, some, List, [], ◌∷◌, ◌++◌, map, ◌||◌,
  if◌then◌else◌, arith, All, inl, inr, Bool-cases, Option-cases,
}
use grab_redis.Base.Text.{Str}
use grab_redis.Breaker.Options.{CbSetter}
use grab_redis.Config.Checks.{init, validate_reload}
use grab_redis.Config.Checks.Accepts.{validate_reload_keeps}
use grab_redis.Config.Modes.{equals}
use grab_redis.Config.Records.{ClientConfig}
use grab_redis.Errors.{Error}
use grab_redis.Limiter.{Limiter, new_limiter, generate_cb_key, reconfigure_hystrix, Effect}
use grab_redis.Wrapper.Options.{Settings, Options, settings_of, single_host_options, first_addr}
use grab_redis.Wrapper.Calls.{
  Call, Goredis, replay, replay-append, run_calls, view-run_calls, set_limiter, hystrix,
}
use grab_redis.Wrapper.Settings.{Wrapper, reloadable, reload_settings}
use grab_redis.Wrapper.Settings.Setters.{set_setting}
use grab_redis.Wrapper.Settings.Track.{
  take_settings, IsLawful, reload_settings-Tracks, config-reload_settings,
}
use grab_redis.Wrapper.Single.{reload, reload_limiter, finish}

unfoldable pub set_option : Call → Options → Options
unfolding set_setting
set_option (set_limiter l) o = record o { limiter = l }
set_option k o = record o { settings = set_setting k o.settings }

unfoldable pub with_settings : Settings → Options → Options
with_settings s o = record o { settings = s }

pub reloadable-IsLawful : All (IsLawful set_option with_settings) reloadable
unfolding set_option with_settings reloadable settings_of
reloadable-IsLawful = (
  ((λ c. refl), (λ v c o. refl)),
  (
    ((λ c. refl), (λ v c o. refl)),
    (
      ((λ c. refl), (λ v c o. refl)),
      (
        ((λ c. refl), (λ v c o. refl)),
        (
          ((λ c. refl), (λ v c o. refl)),
          (
            ((λ c. refl), (λ v c o. refl)),
            (
              ((λ c. refl), (λ v c o. refl)),
              (
                ((λ c. refl), (λ v c o. refl)),
                (
                  ((λ c. refl), (λ v c o. refl)),
                  (
                    ((λ c. refl), (λ v c o. refl)),
                    (
                      ((λ c. refl), (λ v c o. refl)),
                      (
                        ((λ c. refl), (λ v c o. refl)),
                        (
                          ((λ c. refl), (λ v c o. refl)),
                          (((λ c. refl), (λ v c o. refl)), (((λ c. refl), (λ v c o. refl)), tt)),
                        ),
                      ),
                    ),
                  ),
                ),
              ),
            ),
          ),
        ),
      ),
    ),
  ),
)

unfoldable pub expected_limiter : List CbSetter → Bool → Str → Option Limiter
expected_limiter cb_options enabled addr =
    if enabled then some (new_limiter (generate_cb_key addr) cb_options) else none

-- The options of goredis are those that the configuration asks for, at the address dialled.
pub record IsSynced (cb_options : List CbSetter) (c : ClientConfig) (o : Options) : Type 0 where
  pub same_settings : o.settings ≡ settings_of c
  pub same_db : o.db ≡ c.db
  pub same_tls : o.insecure_tls ≡ c.tls_enabled
  pub same_limiter : o.limiter ≡ expected_limiter cb_options c.hystrix_enabled o.addr

replay_hystrix :
    (o : Options) (es : List Effect) (ks : List Call)
    → replay set_option o (map hystrix es ++ ks) ≡ replay set_option o ks
unfolding replay set_option
replay_hystrix o [] ks = refl
replay_hystrix o (e ∷ es) ks = replay_hystrix o es ks

-- Calls that have brought the settings, then the one on the limiter.
replay_limiter :
    (o : Options) (w : Wrapper) (es : List Effect) (l : Option Limiter)
    → replay set_option o w.calls ≡ with_settings (settings_of w.config) o
    → replay set_option o (w.calls ++ (map hystrix es ++ (set_limiter l ∷ [])))
      ≡ record o { settings = settings_of w.config; limiter = l }
unfolding replay set_option with_settings
replay_limiter o w es l t =
    replay-append set_option o w.calls (map hystrix es ++ (set_limiter l ∷ []))
    ∙ ap (λ v. replay set_option v (map hystrix es ++ (set_limiter l ∷ []))) t
    ∙ replay_hystrix (with_settings (settings_of w.config) o) es (set_limiter l ∷ [])

-- The block on `HystrixEnabled`, whichever branch it takes.
reload_limiter-IsSynced :
    (cb_options : List CbSetter) (o : Options) (new : ClientConfig) (w : Wrapper)
    → replay set_option o w.calls ≡ with_settings (settings_of w.config) o
    → o.db ≡ w.config.db
    → o.insecure_tls ≡ w.config.tls_enabled
    → o.limiter ≡ expected_limiter cb_options w.config.hystrix_enabled o.addr
    → let w' = finish new (reload_limiter cb_options o.addr new w) in
      IsSynced cb_options w'.config (replay set_option o w'.calls)
unfolding reload_limiter finish with_settings expected_limiter settings_of
reload_limiter-IsSynced cb_options o new w t d l e = elim (Bool-cases new.hystrix_enabled) [
  | inl on ↦
      elim (Bool-cases
        (not (equals w.config.hystrix new.hystrix) || not w.config.hystrix_enabled)) [
          | inl changed ↦
              let key = generate_cb_key o.addr in
              rw (on, changed)
                (rw
                  (replay_limiter o w (reconfigure_hystrix key new.hystrix)
                    (some (new_limiter key cb_options)) t)
                  (record { same_settings = refl; same_db = d; same_tls = l; same_limiter = refl }))
          | inr kept ↦
              rw (on, kept)
                (rw t (record {
                  same_settings = refl;
                  same_db = d;
                  same_tls = l;
                  same_limiter = ground arith;
                }))
        ]
  | inr off ↦ rw off (
      rw (replay_limiter o w [] none t)
        (record { same_settings = refl; same_db = d; same_tls = l; same_limiter = refl }))
]

-- `validateReload` touches nothing that goredis runs with.
validate_reload-IsSynced :
    (cb_options : List CbSetter) (c new : ClientConfig) (o : Options)
    → IsSynced cb_options c o
    → IsSynced cb_options (validate_reload c new).1 o
unfolding settings_of
validate_reload-IsSynced cb_options c new o h = elim (validate_reload_keeps c new) [
  | inl e ↦ rw e h
  | inr e ↦ rw e (record {
    same_settings = h.same_settings;
    same_db = h.same_db;
    same_tls = h.same_tls;
    same_limiter = h.same_limiter;
  })
]

-- The accepted reload, from the configuration as `validateReload` leaves it.
apply-IsSynced :
    (cb_options : List CbSetter) (o : Options) (c new : ClientConfig)
    → IsSynced cb_options c o
    → let w = finish new (
        reload_limiter cb_options o.addr new
          (reload_settings new (record { config = c; calls = [] }))) in
      IsSynced cb_options w.config (replay set_option o w.calls)
unfolding take_settings
apply-IsSynced cb_options o c new h =
    let w0 : Wrapper = record { config = c; calls = [] } in
    let same = config-reload_settings set_option with_settings reloadable-IsLawful new w0 in
    reload_limiter-IsSynced cb_options o new (reload_settings new w0)
      (reload_settings-Tracks set_option with_settings reloadable-IsLawful new w0 o
        (unfold replay with_settings in ap (λ v. record o { settings = v }) h.same_settings))
      (h.same_db ∙ sym (ap (λ k. k.db) same)) (h.same_tls ∙ sym (ap (λ k. k.tls_enabled) same))
      (h.same_limiter ∙ sym (ap (λ k. expected_limiter cb_options k.hystrix_enabled o.addr) same))

pub reload_accepted :
    (cb_options : List CbSetter) (addr : Str) (c config : ClientConfig)
    → let (err, c', new) = validate_reload c (init config) in
      err ≡ none
      → reload cb_options addr c config ≡ (
        none,
        finish new (
            reload_limiter cb_options addr new
              (reload_settings new (record { config = c'; calls = [] }))),
      )
unfolding reload
reload_accepted cb_options addr c config e = rw (e, reload)

pub reload_refused :
    (cb_options : List CbSetter) (addr : Str) (c config : ClientConfig) {x : Error}
    → let (err, c', new) = validate_reload c (init config) in
      err ≡ some x → reload cb_options addr c config ≡ (some x, record { config = c'; calls = [] })
unfolding reload
reload_refused cb_options addr c config e = rw (e, reload)

-- The same of a view alone.
reload_view-IsSynced :
    (cb_options : List CbSetter) (o : Options) (c config : ClientConfig)
    → IsSynced cb_options c o
    → let (_, w) = reload cb_options o.addr c config in
      IsSynced cb_options w.config (replay set_option o w.calls)
unfolding replay
reload_view-IsSynced cb_options o c config h =
    let h' = validate_reload-IsSynced cb_options c (init config) o h in
    elim (Option-cases (validate_reload c (init config)).0) [
      | inl e ↦
          rw (reload_accepted cb_options o.addr c config e)
            (apply-IsSynced cb_options o _ (validate_reload c (init config)).2 h')
      | inr (x, e) ↦ rw (reload_refused cb_options o.addr c config e) h'
    ]

-- The options that `singleHostOptions` builds from a configuration whose address is `addr`.
abbrev pub options_at : List CbSetter → ClientConfig → Str → Options
options_at cb_options c addr = (single_host_options cb_options (record c { addrs = addr ∷ [] })).0

-- A client is created with the options at the first address of its configuration.
pub single_host_options_lem :
    (cb_options : List CbSetter) (c : ClientConfig)
    → (single_host_options cb_options c).0 ≡ options_at cb_options c (first_addr c.addrs)
unfolding single_host_options settings_of first_addr
single_host_options_lem cb_options c = refl

options_at-IsSynced :
    (cb_options : List CbSetter) (c : ClientConfig) (addr : Str)
    → IsSynced cb_options c (options_at cb_options c addr)
unfolding single_host_options settings_of first_addr expected_limiter
options_at-IsSynced cb_options c addr = record {
  same_settings = refl;
  same_db = refl;
  same_tls = refl;
  same_limiter = refl;
}

IsSynced-options_at :
    (cb_options : List CbSetter) (c : ClientConfig) (addr : Str) (o : Options)
    → IsSynced cb_options c o
    → o.addr ≡ addr
    → o ≡ options_at cb_options c addr
unfolding single_host_options settings_of first_addr expected_limiter
IsSynced-options_at cb_options c addr o h e =
    let s = h.same_settings in
    let d = h.same_db in let t = h.same_tls in let l = h.same_limiter in ground arith

set_option-addr : (k : Call) (o : Options) → (set_option k o).addr ≡ o.addr
unfolding set_option
set_option-addr (set_limiter l) o = refl
set_option-addr _ o = refl

-- No setter changes the address.
replay-addr : (o : Options) (ks : List Call) → (replay set_option o ks).addr ≡ o.addr
unfolding replay
replay-addr o [] = refl
replay-addr o (k ∷ ks) = replay-addr (set_option k o) ks ∙ set_option-addr k o

module _ (g : Goredis Options set_option) (cb_options : List CbSetter) where
  -- If goredis runs with the options that `singleHostOptions` builds from the wrapper's configuration
  -- at the address dialled, then after a reload, accepted or refused, it runs with those that
  -- `singleHostOptions` builds from the configuration that the wrapper then holds, at the same address.
  pub reload-options_at :
      (s : g.State) (c config : ClientConfig) (addr : Str)
      → g.view s ≡ options_at cb_options c addr
      → let (_, w) = reload cb_options addr c config in
        g.view (run_calls g s w.calls) ≡ options_at cb_options w.config addr
  unfolding single_host_options first_addr
  reload-options_at s c config addr h =
      let w = (reload cb_options addr c config).1 in
      let o = options_at cb_options c addr in
      view-run_calls g s w.calls
      ∙ ap (λ v. replay set_option v w.calls) h
      ∙ IsSynced-options_at cb_options w.config addr (replay set_option o w.calls)
          (reload_view-IsSynced cb_options o c config (options_at-IsSynced cb_options c addr))
          (replay-addr o w.calls)
