-- ===== src/Config/Modes.antt =====
-- model.go: the two mode strings and the circuit breaker's settings.
use grab_redis.Base.{Bool, true, false, ◌&&◌, List, [], ◌∷◌, ◌==◌, if◌then◌else◌, ◌≡◌, arith}
use grab_redis.Base.Int.{ℤ, int_eq, int_beq_iff}
use grab_redis.Base.Text.{Str, str, str_eq}

abbrev pub ClientMode : Type 0
ClientMode = Str

abbrev pub ReadMode : Type 0
ReadMode = Str

abbrev pub mode_cluster : ClientMode
mode_cluster = str "cluster"

abbrev pub mode_master_slave_group : ClientMode
mode_master_slave_group = str "masterSlaveGroup"

abbrev pub mode_single_host : ClientMode
mode_single_host = str "singleHost"

abbrev pub mode_read_from_master : ReadMode
mode_read_from_master = str "readFromMaster"

abbrev pub mode_read_from_slaves : ReadMode
mode_read_from_slaves = str "readFromSlaves"

abbrev pub mode_read_randomly : ReadMode
mode_read_randomly = str "readRandomly"

abbrev pub mode_read_by_latency : ReadMode
mode_read_by_latency = str "readByLatency"

-- `In` of either mode type
unfoldable pub is_in : Str → List Str → Bool
is_in m [] = false
is_in m (mode ∷ modes) = if m == mode then true else is_in m modes

unfoldable pub client_mode_is_valid : ClientMode → Bool
unfolding is_in
client_mode_is_valid m = is_in m (mode_cluster ∷ mode_master_slave_group ∷ mode_single_host ∷ [])

unfoldable pub read_mode_is_valid : ReadMode → Bool
unfolding is_in
read_mode_is_valid m =
    is_in m (
      mode_read_from_master ∷ mode_read_from_slaves ∷ mode_read_randomly ∷ mode_read_by_latency
      ∷ [])

pub record Hystrix : Type 0 where
  pub timeout_in_ms : ℤ
  pub max_concurrent_requests : ℤ
  pub request_volume_threshold : ℤ
  pub error_percent_threshold : ℤ
  pub sleep_window_in_ms : ℤ
  pub queue_size_rejection_threshold : ℤ

-- `Hystrix.Equals`
unfoldable pub equals : Hystrix → Hystrix → Bool
equals h hystrix =
    h.timeout_in_ms == hystrix.timeout_in_ms
    && (h.max_concurrent_requests == hystrix.max_concurrent_requests
        && (h.request_volume_threshold == hystrix.request_volume_threshold
            && (h.error_percent_threshold == hystrix.error_percent_threshold
                && (h.sleep_window_in_ms == hystrix.sleep_window_in_ms
                    && h.queue_size_rejection_threshold
                      == hystrix.queue_size_rejection_threshold))))

-- `Equals` compares every field.
pub equals-eq : (h k : Hystrix) → equals h k ≡ true → h ≡ k
unfolding equals
equals-eq h k e = ground (
  arith,
  int_beq_iff h.timeout_in_ms k.timeout_in_ms,
  int_beq_iff h.max_concurrent_requests k.max_concurrent_requests,
  int_beq_iff h.request_volume_threshold k.request_volume_threshold,
  int_beq_iff h.error_percent_threshold k.error_percent_threshold,
  int_beq_iff h.sleep_window_in_ms k.sleep_window_in_ms,
  int_beq_iff h.queue_size_rejection_threshold k.queue_size_rejection_threshold,
)
