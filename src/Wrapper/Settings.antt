-- ===== src/Wrapper/Settings.antt =====
-- The fifteen guarded assignments with which `reload` of client_wrapper.go and cluster_wrapper.go
-- begins, in the order of the source.
pub mod Setters
pub mod Track
use grab_redis.Base.{Bool, true, false, ◌≡◌, refl, List, [], ◌∷◌, ◌++◌, ◌==◌, if◌then◌else◌, foldl}
use grab_redis.Base.Int.{ℤ, int_eq}
use grab_redis.Base.Text.{Str, str_eq}
use grab_redis.Config.Records.{ClientConfig}
use grab_redis.Wrapper.Options.{Settings, parse_duration_in_ms}
use grab_redis.Wrapper.Calls.{
  Call, set_username, set_password, set_max_retries, set_min_retry_backoff, set_max_retry_backoff,
  set_dial_timeout, set_read_timeout, set_write_timeout, set_pool_size, set_min_idle_conns,
  set_max_idle_conns, set_max_conn_age, set_pool_timeout, set_idle_timeout,
  set_idle_check_frequency,
}

-- A client's configuration and the calls that were made on it, oldest first.
pub record Wrapper : Type 0 where
  pub config : ClientConfig
  pub calls : List Call

pub data Setting : Type 0 where
  text : (ClientConfig → Str) → (Str → ClientConfig → ClientConfig) → (Str → Call) → Setting
  number : (ClientConfig → ℤ) → (ℤ → ClientConfig → ClientConfig) → (ℤ → Call) → Setting

-- `if c.config.X != config.X { c.config.X = config.X; c.SetX(config.X) }`
pub reload_setting : ClientConfig → Wrapper → Setting → Wrapper
reload_setting new w (text get put call) =
    if get w.config == get new
    then w
    else record w { config = put (get new) w.config; calls = w.calls ++ (call (get new) ∷ []) }
reload_setting new w (number get put call) =
    if get w.config == get new
    then w
    else record w { config = put (get new) w.config; calls = w.calls ++ (call (get new) ∷ []) }

unfoldable pub reloadable : List Setting
reloadable =
    text (λ c. c.username) (λ v c. record c { username = v }) set_username
    ∷ text (λ c. c.password) (λ v c. record c { password = v }) set_password
    ∷ number (λ c. c.max_retries) (λ v c. record c { max_retries = v }) set_max_retries
    ∷ number (λ c. c.min_retry_backoff_in_ms) (λ v c. record c { min_retry_backoff_in_ms = v })
        (λ v. set_min_retry_backoff (parse_duration_in_ms v))
    ∷ number (λ c. c.max_retry_backoff_in_ms) (λ v c. record c { max_retry_backoff_in_ms = v })
        (λ v. set_max_retry_backoff (parse_duration_in_ms v))
    ∷ number (λ c. c.dial_timeout_in_ms) (λ v c. record c { dial_timeout_in_ms = v })
        (λ v. set_dial_timeout (parse_duration_in_ms v))
    ∷ number (λ c. c.read_timeout_in_ms) (λ v c. record c { read_timeout_in_ms = v })
        (λ v. set_read_timeout (parse_duration_in_ms v))
    ∷ number (λ c. c.write_timeout_in_ms) (λ v c. record c { write_timeout_in_ms = v })
        (λ v. set_write_timeout (parse_duration_in_ms v))
    ∷ number (λ c. c.pool_size) (λ v c. record c { pool_size = v }) set_pool_size
    ∷ number (λ c. c.min_idle_conns) (λ v c. record c { min_idle_conns = v }) set_min_idle_conns
    ∷ number (λ c. c.max_idle_conns) (λ v c. record c { max_idle_conns = v }) set_max_idle_conns
    ∷ number (λ c. c.max_conn_age_in_ms) (λ v c. record c { max_conn_age_in_ms = v })
        (λ v. set_max_conn_age (parse_duration_in_ms v))
    ∷ number (λ c. c.pool_timeout_in_ms) (λ v c. record c { pool_timeout_in_ms = v })
        (λ v. set_pool_timeout (parse_duration_in_ms v))
    ∷ number (λ c. c.idle_timeout_in_ms) (λ v c. record c { idle_timeout_in_ms = v })
        (λ v. set_idle_timeout (parse_duration_in_ms v))
    ∷ number (λ c. c.idle_check_frequency_in_ms)
        (λ v c. record c { idle_check_frequency_in_ms = v })
        (λ v. set_idle_check_frequency (parse_duration_in_ms v))
    ∷ []

unfoldable pub reload_settings : ClientConfig → Wrapper → Wrapper
unfolding reload_setting reloadable
reload_settings new w = foldl (reload_setting new) w reloadable
