-- ===== src/Tests/ConfigRuns.antt =====
-- config.go at concrete inputs.
use mathlib.Core.List.{Perm}
use grab_redis.Base.{true, ◌≡◌, ◌↔◌, refl, none}
use grab_redis.Base.Sort.{sort}
use grab_redis.Base.Text.{str, str_order, str_leb, str_beq, join}
use grab_redis.Config.Address.{name, is_addrs_equals, is_addrs_equals_iff_perm}
use grab_redis.Config.Checks.{
  init, validate, validate_reload, init_and_validate, or_default, or_empty, default_addrs,
  or_default_read_mode, validate_all,
}
use grab_redis.Config.Checks.Accepts.{validate_reload_iff}
use grab_redis.Config.Modes.{client_mode_is_valid, read_mode_is_valid}
use grab_redis.Tests.Samples.{cluster, cluster_new, connector}

name_sorts : (name cluster).0 ≡ str "a:1,b:1"
unfolding name str_beq join sort str_leb
name_sorts = refl

is_addrs_equals_iff_perm_example :
    ((is_addrs_equals cluster.addrs cluster_new.addrs).0 ≡ true)
    ↔ Perm cluster.addrs cluster_new.addrs
is_addrs_equals_iff_perm_example = is_addrs_equals_iff_perm cluster.addrs cluster_new.addrs

validate_reload_iff_example : ((validate_reload cluster cluster_new).0 ≡ none) ↔ (
    (validate cluster_new ≡ none)
    × (cluster.client_mode ≡ cluster_new.client_mode)
    × (cluster.db ≡ cluster_new.db)
    × Perm cluster.addrs cluster_new.addrs)
validate_reload_iff_example = validate_reload_iff cluster cluster_new

connector_accepted : (init_and_validate connector).0 ≡ none
unfolding init_and_validate init validate str_beq or_default or_empty default_addrs
    or_default_read_mode client_mode_is_valid read_mode_is_valid validate_all
connector_accepted = refl
