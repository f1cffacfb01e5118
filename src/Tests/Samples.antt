-- ===== src/Tests/Samples.antt =====
-- Configurations for the tests.
use grab_redis.Base.{true, false, [], ◌∷◌}
use grab_redis.Base.Int.{pos, negsuc}
use grab_redis.Base.Text.{str}
use grab_redis.Config.Modes.{Hystrix, mode_single_host, mode_cluster, mode_read_by_latency}
use grab_redis.Config.Records.{ClientConfig, ConnectorConfig}

abbrev pub breaker_settings : Hystrix
breaker_settings = record {
  timeout_in_ms = pos 0;
  max_concurrent_requests = pos 9;
  request_volume_threshold = pos 20;
  error_percent_threshold = pos 0;
  sleep_window_in_ms = pos 500;
  queue_size_rejection_threshold = negsuc 0;
}

-- A single host with the breaker on; unset values are zero.
abbrev pub single : ClientConfig
single = record {
  client_mode = mode_single_host;
  addrs = str "b:1" ∷ [];
  username = str "<nil>";
  password = str "pw";
  db = pos 2;
  max_retries = pos 3;
  min_retry_backoff_in_ms = pos 8;
  max_retry_backoff_in_ms = pos 512;
  dial_timeout_in_ms = pos 0;
  read_timeout_in_ms = pos 100;
  write_timeout_in_ms = pos 100;
  pool_size = pos 10;
  min_idle_conns = pos 1;
  max_idle_conns = pos 5;
  max_conn_age_in_ms = pos 0;
  pool_timeout_in_ms = pos 0;
  idle_timeout_in_ms = pos 0;
  idle_check_frequency_in_ms = negsuc 0;
  tls_enabled = false;
  hystrix_enabled = true;
  hystrix = breaker_settings;
  max_redirects = pos 0;
  read_mode = [];
  ignore_read_only = false;
}

-- The same with a larger pool, another password, and the breaker off.
abbrev pub single_new : ClientConfig
single_new = record single { pool_size = pos 20; password = str "secret"; hystrix_enabled = false }

abbrev pub cluster : ClientConfig
cluster = record single {
  client_mode = mode_cluster;
  addrs = str "b:1" ∷ str "a:1" ∷ [];
  max_redirects = pos 8;
}

-- The same cluster in another order, routed by latency.
abbrev pub cluster_new : ClientConfig
cluster_new = record cluster {
  addrs = str "a:1" ∷ str "b:1" ∷ [];
  read_mode = mode_read_by_latency;
  max_redirects = pos 3;
}

abbrev pub connector : ConnectorConfig
connector = record {
  main = single;
  load_tests = cluster ∷ [];
  hot_reload = true;
  process_all_load_test_packets = false;
  scheduler_worker_number = pos 0;
  scheduler_channel_size = pos 5;
  scheduler_worker_idle_timeout_in_ms = pos 0;
}
