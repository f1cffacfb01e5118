-- ===== src/Config/Checks/Accepts.antt =====
-- `validateReload` of config.go: which changes of a client's configuration a reload accepts.
use mathlib.Core.List.{Perm}
use grab_redis.Base.{◌≡◌, ◌↔◌, ◌⊎◌, none, arith}
use grab_redis.Base.Sort.{sort}
use grab_redis.Base.Int.{int_eq, int_beq_iff}
use grab_redis.Base.Text.{str_eq, str_beq_iff, str_order}
use grab_redis.Config.Records.{ClientConfig}
use grab_redis.Config.Address.{is_addrs_equals, is_addrs_equals_iff_perm}
use grab_redis.Config.Checks.{validate, validate_reload}

-- A reload is accepted exactly when the new configuration is valid and keeps the client mode, the
-- database and, in any order, the addresses.
pub validate_reload_iff :
    (c new : ClientConfig)
    → ((validate_reload c new).0 ≡ none) ↔ (
        (validate new ≡ none)
        × (c.client_mode ≡ new.client_mode)
        × (c.db ≡ new.db)
        × Perm c.addrs new.addrs)
unfolding validate_reload
validate_reload_iff c new = (accepted, accepts)
  where
    accepted :
        (validate_reload c new).0 ≡ none
        → (validate new ≡ none)
          × (c.client_mode ≡ new.client_mode)
          × (c.db ≡ new.db)
          × Perm c.addrs new.addrs
    accepted h = ground (
      arith,
      str_beq_iff c.client_mode new.client_mode,
      int_beq_iff c.db new.db,
      (is_addrs_equals_iff_perm c.addrs new.addrs).0,
    )

    accepts :
        (validate new ≡ none)
          × (c.client_mode ≡ new.client_mode)
          × (c.db ≡ new.db)
          × Perm c.addrs new.addrs
        → (validate_reload c new).0 ≡ none
    accepts h = ground (
      arith,
      str_beq_iff c.client_mode new.client_mode,
      int_beq_iff c.db new.db,
      (is_addrs_equals_iff_perm c.addrs new.addrs).1,
    )

-- An accepted reload has sorted the addresses of both configurations, and changed nothing else.
pub validate_reload-eq_none :
    (c new : ClientConfig)
    → (validate_reload c new).0 ≡ none
    → ((validate_reload c new).1 ≡ record c { addrs = sort c.addrs })
      × ((validate_reload c new).2 ≡ record new { addrs = sort new.addrs })
unfolding validate_reload is_addrs_equals
validate_reload-eq_none c new h = ground arith

-- Accepted or not, the running configuration keeps all but the order of its addresses.
pub validate_reload_keeps :
    (c new : ClientConfig)
    → ((validate_reload c new).1 ≡ c)
      ⊎ ((validate_reload c new).1 ≡ record c { addrs = sort c.addrs })
unfolding validate_reload is_addrs_equals
validate_reload_keeps c new = ground arith
