-- ===== src/Wrapper/Settings/Track.antt =====
-- What the fifteen assignments achieve: the configuration takes the new values, and the calls bring
-- a view that agreed with the old configuration to one that agrees with the new.
use grab_redis.Base.{◌≡◌, refl, sym, ap, ◌∙◌, List, [], ◌∷◌, foldl, All, inl, inr, ==-cases}
use grab_redis.Base.Int.{ℤ, int_eq}
use grab_redis.Base.Text.{Str, str_eq}
use grab_redis.Config.Records.{ClientConfig}
use grab_redis.Wrapper.Options.{Settings, settings_of}
use grab_redis.Wrapper.Calls.{Call, replay, replay-append}
use grab_redis.Wrapper.Settings.{
  Wrapper, Setting, text, number, reload_setting, reloadable, reload_settings,
}

-- The field that a setting writes, taken from the new configuration.
take_setting : ClientConfig → ClientConfig → Setting → ClientConfig
take_setting new c (text get put call) = put (get new) c
take_setting new c (number get put call) = put (get new) c

-- The fifteen fields of `new`, in `c`.
unfoldable pub take_settings : ClientConfig → ClientConfig → ClientConfig
take_settings new c = record c {
  username = new.username;
  password = new.password;
  max_retries = new.max_retries;
  min_retry_backoff_in_ms = new.min_retry_backoff_in_ms;
  max_retry_backoff_in_ms = new.max_retry_backoff_in_ms;
  dial_timeout_in_ms = new.dial_timeout_in_ms;
  read_timeout_in_ms = new.read_timeout_in_ms;
  write_timeout_in_ms = new.write_timeout_in_ms;
  pool_size = new.pool_size;
  min_idle_conns = new.min_idle_conns;
  max_idle_conns = new.max_idle_conns;
  max_conn_age_in_ms = new.max_conn_age_in_ms;
  pool_timeout_in_ms = new.pool_timeout_in_ms;
  idle_timeout_in_ms = new.idle_timeout_in_ms;
  idle_check_frequency_in_ms = new.idle_check_frequency_in_ms;
}

module _ {View : Type 0} (set : Call → View → View) (with_settings : Settings → View → View) where
  -- The call writes into the view what `put` writes into the configuration.
  abbrev pub IsLawful : Setting → Type 0
  IsLawful (text get put call) =
      ((c : ClientConfig) → put (get c) c ≡ c)
      × ((v : Str) (c : ClientConfig) (o : View)
          → set (call v) (with_settings (settings_of c) o)
            ≡ with_settings (settings_of (put v c)) o)
  IsLawful (number get put call) =
      ((c : ClientConfig) → put (get c) c ≡ c)
      × ((v : ℤ) (c : ClientConfig) (o : View)
          → set (call v) (with_settings (settings_of c) o)
            ≡ with_settings (settings_of (put v c)) o)

  -- The calls so far bring the view `o` to the settings of the configuration so far.
  abbrev pub Tracks : View → Wrapper → Type 0
  Tracks o w = replay set o w.calls ≡ with_settings (settings_of w.config) o

  reload_setting-Tracks :
      (new : ClientConfig) (o : View) (w : Wrapper) (s : Setting)
      → IsLawful s
      → Tracks o w
      → Tracks o (reload_setting new w s)
  unfolding reload_setting replay
  reload_setting-Tracks new o w (text get put call) law t =
      elim (==-cases (get w.config) (get new)) [
        | inl (e, same) ↦ rw e t
        | inr e ↦ rw e (
            replay-append set o w.calls (call (get new) ∷ [])
            ∙ ap (set (call (get new))) t
            ∙ law.1 (get new) w.config o)
      ]
  reload_setting-Tracks new o w (number get put call) law t =
      elim (==-cases (get w.config) (get new)) [
        | inl (e, same) ↦ rw e t
        | inr e ↦ rw e (
            replay-append set o w.calls (call (get new) ∷ [])
            ∙ ap (set (call (get new))) t
            ∙ law.1 (get new) w.config o)
      ]

  config-reload_setting :
      (new : ClientConfig) (w : Wrapper) (s : Setting)
      → IsLawful s
      → (reload_setting new w s).config ≡ take_setting new w.config s
  unfolding reload_setting take_setting
  config-reload_setting new w (text get put call) law = elim (==-cases (get w.config) (get new)) [
    | inl (e, same) ↦ rw e (sym (law.0 w.config) ∙ ap (λ v. put v w.config) same)
    | inr e ↦ rw e
  ]
  config-reload_setting new w (number get put call) law = elim (==-cases (get w.config) (get new)) [
    | inl (e, same) ↦ rw e (sym (law.0 w.config) ∙ ap (λ v. put v w.config) same)
    | inr e ↦ rw e
  ]

  fold-Tracks :
      (new : ClientConfig) (o : View) (ss : List Setting) (w : Wrapper)
      → All IsLawful ss
      → Tracks o w
      → Tracks o (foldl (reload_setting new) w ss)
  fold-Tracks new o [] w laws t = t
  fold-Tracks new o (s ∷ ss) w laws t =
      fold-Tracks new o ss (reload_setting new w s) laws.1
        (reload_setting-Tracks new o w s laws.0 t)

  config-fold :
      (new : ClientConfig) (ss : List Setting) (w : Wrapper)
      → All IsLawful ss
      → (foldl (reload_setting new) w ss).config ≡ foldl (take_setting new) w.config ss
  config-fold new [] w laws = refl
  config-fold new (s ∷ ss) w laws =
      config-fold new ss (reload_setting new w s) laws.1
      ∙ ap (λ c. foldl (take_setting new) c ss) (config-reload_setting new w s laws.0)

  module _ (laws : All IsLawful reloadable) (new : ClientConfig) (w : Wrapper) where
    pub reload_settings-Tracks : (o : View) → Tracks o w → Tracks o (reload_settings new w)
    unfolding reload_settings
    reload_settings-Tracks o t = fold-Tracks new o reloadable w laws t

    pub config-reload_settings : (reload_settings new w).config ≡ take_settings new w.config
    unfolding reload_settings take_settings take_setting
    config-reload_settings = config-fold new reloadable w laws
