-- ===== src/Config/Records.antt =====
-- config.go and constants.go: the configuration records and the default values.
use grab_redis.Base.{Bool, List}
use grab_redis.Base.Int.{ℤ, pos}
use grab_redis.Base.Text.{Str, str}
use grab_redis.Config.Modes.{ClientMode, ReadMode, mode_read_from_slaves, Hystrix}

pub record ClientConfig : Type 0 where
  pub client_mode : ClientMode
  pub addrs : List Str
  pub username : Str
  pub password : Str
  pub db : ℤ
  pub max_retries : ℤ
  pub min_retry_backoff_in_ms : ℤ
  pub max_retry_backoff_in_ms : ℤ
  pub dial_timeout_in_ms : ℤ
  pub read_timeout_in_ms : ℤ
  pub write_timeout_in_ms : ℤ
  pub pool_size : ℤ
  pub min_idle_conns : ℤ
  pub max_idle_conns : ℤ
  pub max_conn_age_in_ms : ℤ
  pub pool_timeout_in_ms : ℤ
  pub idle_timeout_in_ms : ℤ
  pub idle_check_frequency_in_ms : ℤ
  pub tls_enabled : Bool
  pub hystrix_enabled : Bool
  pub hystrix : Hystrix
  pub max_redirects : ℤ
  pub read_mode : ReadMode
  pub ignore_read_only : Bool

-- `Main` and the entries of `LoadTests` are pointers in the source; here none of them is nil.
pub record ConnectorConfig : Type 0 where
  pub main : ClientConfig
  pub load_tests : List ClientConfig
  pub hot_reload : Bool
  pub process_all_load_test_packets : Bool
  pub scheduler_worker_number : ℤ
  pub scheduler_channel_size : ℤ
  pub scheduler_worker_idle_timeout_in_ms : ℤ

abbrev pub ucm_empty_string : Str
ucm_empty_string = str "<nil>"

abbrev pub default_host_and_port : Str
default_host_and_port = str "localhost:6379"

abbrev pub default_read_mode : ReadMode
default_read_mode = mode_read_from_slaves

abbrev pub default_dial_timeout_in_ms : ℤ
default_dial_timeout_in_ms = pos 5000

abbrev pub default_cb_timeout_in_ms : ℤ
default_cb_timeout_in_ms = pos 31000

abbrev pub default_cb_max_concurrent : ℤ
default_cb_max_concurrent = pos 5000

abbrev pub default_cb_err_percent : ℤ
default_cb_err_percent = pos 50

abbrev pub default_max_chan_size : ℤ
default_max_chan_size = pos 10000

abbrev pub default_max_worker : ℤ
default_max_worker = pos 10

abbrev pub default_worker_idle_timeout : ℤ
default_worker_idle_timeout = pos 1000
