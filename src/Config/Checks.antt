-- ===== src/Config/Checks.antt =====
-- config.go: defaults (`init`), `validate`, `validateReload` and `initAndValidate`. A method that
-- writes through its receiver returns what the receiver is afterwards.
pub mod Defaults
pub mod Accepts
use mathlib.Core.List.{Perm}
use grab_redis.Base.{
  ℕ, Bool, true, false, ◌≡◌, ◌↔◌, ◌≢◌, ◌⊎◌, refl, sym, List, [], ◌∷◌, map, Option, none, some,
  arith, ◌==◌, ◌||◌, ◌&&◌, if◌then◌else◌, Bool-cases, ==-cases, inl, inr, All,
}
use grab_redis.Base.Int.{ℤ, pos, int_eq}
use grab_redis.Base.Text.{Str, str, str_eq, str_beq, str_beq_iff}
use grab_redis.Errors.{
  Error, config, no_addrs, bad_client_mode, bad_read_mode, client_mode_change, db_change,
  addrs_change,
}
use grab_redis.Config.Modes.{ReadMode, client_mode_is_valid, read_mode_is_valid, is_in}
use grab_redis.Config.Records
use grab_redis.Config.Records.{
  ClientConfig, ConnectorConfig, ucm_empty_string, default_host_and_port, default_read_mode,
  default_dial_timeout_in_ms, default_cb_timeout_in_ms, default_cb_max_concurrent,
  default_cb_err_percent, default_max_chan_size, default_max_worker, default_worker_idle_timeout,
}
use grab_redis.Config.Address.{is_addrs_equals, is_addrs_equals_iff_perm}

-- `if x == 0 { x = d }`
unfoldable pub or_default : ℤ → ℤ → ℤ
or_default x d = if x == pos 0 then d else x

-- `if x == ucmEmptyString { x = "" }`
unfoldable pub or_empty : Str → Str
or_empty s = if s == ucm_empty_string then [] else s

unfoldable pub default_addrs : List Str → List Str
default_addrs [] = default_host_and_port ∷ []
default_addrs (a ∷ as') = a ∷ as'

unfoldable pub or_default_read_mode : ReadMode → ReadMode
or_default_read_mode m = if m == [] || m == ucm_empty_string then default_read_mode else m

-- `ClientConfig.init`
unfoldable pub init : ClientConfig → ClientConfig
init c = record c {
  addrs = default_addrs c.addrs;
  read_mode = or_default_read_mode c.read_mode;
  username = or_empty c.username;
  password = or_empty c.password;
  dial_timeout_in_ms = or_default c.dial_timeout_in_ms default_dial_timeout_in_ms;
  hystrix = record h {
    timeout_in_ms = or_default h.timeout_in_ms default_cb_timeout_in_ms;
    max_concurrent_requests = or_default h.max_concurrent_requests default_cb_max_concurrent;
    error_percent_threshold = or_default h.error_percent_threshold default_cb_err_percent;
  };
}
  where
    open c use {hystrix as h}

-- `ClientConfig.validate`. The text about the read mode prints the client mode, as the source does.
unfoldable pub validate : ClientConfig → Option Error
validate c = elim c.addrs [
  | [] ↦ some (config no_addrs)
  | _ ∷ _ ↦
      if client_mode_is_valid c.client_mode
      then (if read_mode_is_valid c.read_mode
          then none
          else some (config (bad_read_mode c.client_mode)))
      else some (config (bad_client_mode c.client_mode))
]

-- `c.validateReload(new)`: the error, and the two configurations with their addresses as the
-- comparison leaves them.
unfoldable pub validate_reload :
    ClientConfig → ClientConfig → Option Error × ClientConfig × ClientConfig
validate_reload c new = elim (validate new) [
  | some e ↦ (some e, c, new)
  | none ↦
      if c.client_mode == new.client_mode
      then (if c.db == new.db
          then (let (same, addrs1, addrs2) = is_addrs_equals c.addrs new.addrs in
              (
                if same then none else some (config addrs_change),
                record c { addrs = addrs1 },
                record new { addrs = addrs2 },
              ))
          else (some (config db_change), c, new))
      else (some (config client_mode_change), c, new)
]

unfoldable pub validate_all : List ClientConfig → Option Error
validate_all [] = none
validate_all (c ∷ cs) = elim (validate c) [ some e ↦ some e | none ↦ validate_all cs ]

-- `ConnectorConfig.initAndValidate`
unfoldable pub init_and_validate : ConnectorConfig → Option Error × ConnectorConfig
init_and_validate c =
    let c1 = record c { main = init c.main } in
    elim (validate c1.main) [
      | some e ↦ (some e, c1)
      | none ↦
          let c2 = record c1 { load_tests = map init c1.load_tests } in
          elim (validate_all c2.load_tests) [
            | some e ↦ (some e, c2)
            | none ↦ (
              none,
              record c2 {
                scheduler_worker_number = or_default c2.scheduler_worker_number default_max_worker;
                scheduler_channel_size = or_default c2.scheduler_channel_size default_max_chan_size;
                scheduler_worker_idle_timeout_in_ms =
                    or_default c2.scheduler_worker_idle_timeout_in_ms default_worker_idle_timeout;
              },
            )
          ]
    ]
