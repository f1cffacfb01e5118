-- ===== src/Breaker/Builder.antt =====
-- circuitbreaker/command_builder.go. The defaults of hystrix are a parameter.
use grab_redis.Base.{ℕ, ◌≡◌, Option, none, some, ◌==◌, if◌then◌else◌, arith, [], ◌%◌, ◌^◌, ◌-◌, suc}
use grab_redis.Base.Int.{ℤ, pos, negsuc, int_eq, is_positive, wrap64, scale}
use grab_redis.Base.Text.{Str, str_eq}

pub record Defaults : Type 0 where
  pub timeout : ℤ
  pub max_concurrent : ℤ
  pub volume_threshold : ℤ
  pub sleep_window : ℤ
  pub error_percent_threshold : ℤ

pub record CommandBuilder : Type 0 where
  pub command_name : Str
  pub timeout : ℤ
  pub max_concurrent_requests : ℤ
  pub request_volume_threshold : ℤ
  pub sleep_window : ℤ
  pub error_percent_threshold : ℤ
  pub queue_size_rejection_threshold : Option ℤ
  pub command_group : Str

-- hystrix.Settings
pub record CircuitSettings : Type 0 where
  pub command_name : Str
  pub command_group : Str
  pub timeout : ℤ
  pub max_concurrent_requests : ℤ
  pub error_percent_threshold : ℤ
  pub request_volume_threshold : ℕ
  pub sleep_window : ℤ
  pub queue_size_rejection_threshold : ℤ

-- `New`
unfoldable pub new_builder : Defaults → Str → CommandBuilder
new_builder d command_name = record {
  command_name = command_name;
  timeout = d.timeout;
  max_concurrent_requests = d.max_concurrent;
  request_volume_threshold = d.volume_threshold;
  sleep_window = d.sleep_window;
  error_percent_threshold = d.error_percent_threshold;
  queue_size_rejection_threshold = none;
  command_group = [];
}

unfoldable pub with_command_group : Str → CommandBuilder → CommandBuilder
with_command_group g cb = if g == [] then cb else record cb { command_group = g }

unfoldable pub with_timeout : ℤ → CommandBuilder → CommandBuilder
with_timeout v cb = if is_positive v then record cb { timeout = v } else cb

unfoldable pub with_max_concurrent_requests : ℤ → CommandBuilder → CommandBuilder
with_max_concurrent_requests v cb =
    if is_positive v then record cb { max_concurrent_requests = v } else cb

unfoldable pub with_error_percentage_threshold : ℤ → CommandBuilder → CommandBuilder
with_error_percentage_threshold v cb =
    if is_positive v then record cb { error_percent_threshold = v } else cb

unfoldable pub with_request_volume_threshold : ℤ → CommandBuilder → CommandBuilder
with_request_volume_threshold v cb =
    if is_positive v then record cb { request_volume_threshold = v } else cb

unfoldable pub with_sleep_window : ℤ → CommandBuilder → CommandBuilder
with_sleep_window v cb = if is_positive v then record cb { sleep_window = v } else cb

unfoldable pub with_queue_size : ℤ → CommandBuilder → CommandBuilder
with_queue_size v cb =
    if v == pos 0
    then record cb { queue_size_rejection_threshold = some (pos 0) }
    else if is_positive v
    then record cb { queue_size_rejection_threshold = some v }
    else cb

-- `uint64(n)`
abbrev pub to_uint64 : ℤ → ℕ
to_uint64 (pos n) = n % 2 ^ 64
to_uint64 (negsuc n) = 2 ^ 64 - suc (n % 2 ^ 64)

-- `Build`; the builder keeps the queue size that it has filled in.
unfoldable pub build : CommandBuilder → CircuitSettings × CommandBuilder
build cb =
    let queue_size : ℤ = elim cb.queue_size_rejection_threshold [
      | none ↦ wrap64 (scale cb.max_concurrent_requests 5)
      | some q ↦ q
    ] in
    (
      record {
        command_name = cb.command_name;
        command_group = cb.command_group;
        timeout = wrap64 (scale cb.timeout 1000000);
        max_concurrent_requests = cb.max_concurrent_requests;
        error_percent_threshold = cb.error_percent_threshold;
        request_volume_threshold = to_uint64 cb.request_volume_threshold;
        sleep_window = wrap64 (scale cb.sleep_window 1000000);
        queue_size_rejection_threshold = queue_size;
      },
      record cb { queue_size_rejection_threshold = some queue_size },
    )

-- The value that takes effect: the one given, if it is positive.
abbrev pub effective : ℤ → ℤ → ℤ
effective v d = if is_positive v then v else d

-- A second `build` answers the same, although the first has filled in the queue size.
pub build_twice : (cb : CommandBuilder) → (build (build cb).1).0 ≡ (build cb).0
unfolding build
build_twice cb = ground arith

-- On a new builder with the two setters, the queue holds five times the requests that run at once exactly
-- when no size was set: a negative size sets none, zero and any other size is taken; a number of
-- requests that is not positive leaves the default.
pub queue_size-build :
    (d : Defaults) (command_name : Str) (m q : ℤ)
    → let cb = with_queue_size q (with_max_concurrent_requests m (new_builder d command_name)) in
      (build cb).0.queue_size_rejection_threshold
      ≡ elim q [ pos n ↦ pos n | negsuc n ↦ wrap64 (scale (effective m d.max_concurrent) 5) ]
unfolding build with_queue_size with_max_concurrent_requests new_builder
queue_size-build d command_name m q = ground arith
