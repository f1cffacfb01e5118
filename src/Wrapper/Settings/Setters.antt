-- ===== src/Wrapper/Settings/Setters.antt =====
-- What goredis documents of the setters that both wrappers call: each replaces the option of its name.
use grab_redis.Wrapper.Options.{Settings}
use grab_redis.Wrapper.Calls.{
  Call, set_username, set_password, set_max_retries, set_min_retry_backoff, set_max_retry_backoff,
  set_dial_timeout, set_read_timeout, set_write_timeout, set_pool_size, set_min_idle_conns,
  set_max_idle_conns, set_max_conn_age, set_pool_timeout, set_idle_timeout,
  set_idle_check_frequency,
}

unfoldable pub set_setting : Call → Settings → Settings
set_setting (set_username v) s = record s { username = v }
set_setting (set_password v) s = record s { password = v }
set_setting (set_max_retries v) s = record s { max_retries = v }
set_setting (set_min_retry_backoff v) s = record s { min_retry_backoff = v }
set_setting (set_max_retry_backoff v) s = record s { max_retry_backoff = v }
set_setting (set_dial_timeout v) s = record s { dial_timeout = v }
set_setting (set_read_timeout v) s = record s { read_timeout = v }
set_setting (set_write_timeout v) s = record s { write_timeout = v }
set_setting (set_pool_size v) s = record s { pool_size = v }
set_setting (set_min_idle_conns v) s = record s { min_idle_conns = v }
set_setting (set_max_idle_conns v) s = record s { max_idle_conns = v }
set_setting (set_max_conn_age v) s = record s { max_conn_age = v }
set_setting (set_pool_timeout v) s = record s { pool_timeout = v }
set_setting (set_idle_timeout v) s = record s { idle_timeout = v }
set_setting (set_idle_check_frequency v) s = record s { idle_check_frequency = v }
set_setting _ s = s
