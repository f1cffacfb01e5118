-- ===== src/Wrapper/Cluster.antt =====
-- cluster_wrapper.go: `reload` of the client of a cluster or of a master and its slaves.
pub mod Sync
pub mod Limiters
pub mod Reload
use grab_redis.Base.{
  ℕ, Bool, true, false, not, Option, none, some, ◌≡◌, List, [], ◌∷◌, ◌++◌, map, ◌||◌, ◌==◌,
  if◌then◌else◌,
}
use grab_redis.Base.Int.{ℤ, int_eq}
use grab_redis.Base.Text.{Str, str_eq}
use grab_redis.Breaker.Options.{CbSetter}
use grab_redis.Config.Checks.{init, validate_reload}
use grab_redis.Config.Modes.{
  equals, Hystrix, ReadMode, mode_read_from_master, mode_read_from_slaves, mode_read_by_latency,
  mode_read_randomly,
}
use grab_redis.Config.Records.{ClientConfig}
use grab_redis.Errors.{Error}
use grab_redis.Limiter.{Limiter, new_limiter, generate_cb_key, reconfigure_hystrix}
use grab_redis.Wrapper.Calls.{
  Call, set_shard_limiter, hystrix, set_max_redirects, set_read_only, set_route_by_latency,
  set_route_randomly,
}
use grab_redis.Wrapper.Settings.{Wrapper, reload_settings}

-- `ForEachShard` with the function that installs a limiter; `shards` are the addresses that goredis
-- knows at the time, in the order in which it comes to them.
pub install_limiters : List CbSetter → Hystrix → List Str → List Call
install_limiters cb_options h [] = []
install_limiters cb_options h (addr ∷ shards) =
    let cb_key = generate_cb_key addr in
    map hystrix (reconfigure_hystrix cb_key h)
    ++ (set_shard_limiter addr (some (new_limiter cb_key cb_options))
        ∷ install_limiters cb_options h shards)

-- `ForEachShard` with the function that takes the limiter away.
pub remove_limiters : List Str → List Call
remove_limiters [] = []
remove_limiters (addr ∷ shards) = set_shard_limiter addr none ∷ remove_limiters shards

-- The block on `HystrixEnabled`, with the assignment behind it.
pub reload_limiters : List CbSetter → List Str → ClientConfig → Wrapper → Wrapper
reload_limiters cb_options shards new w =
    if new.hystrix_enabled
    then (if not (equals c.hystrix new.hystrix) || not c.hystrix_enabled
        then record w {
          config = record c { hystrix = new.hystrix; hystrix_enabled = new.hystrix_enabled };
          calls = w.calls ++ install_limiters cb_options new.hystrix shards;
        }
        else record w { config = record c { hystrix_enabled = new.hystrix_enabled } })
    else record w {
      config = record c { hystrix_enabled = new.hystrix_enabled };
      calls = w.calls ++ remove_limiters shards;
    }
  where
    open w use {config as c}

-- `IgnoreReadOnly` is taken here too: the statements beside it do not read it.
pub reload_redirects : ClientConfig → Wrapper → Wrapper
reload_redirects new w =
    let c' = record c { ignore_read_only = new.ignore_read_only } in
    if c.max_redirects == new.max_redirects then record w { config = c' } else record w {
      config = record c' { max_redirects = new.max_redirects };
      calls = w.calls ++ (set_max_redirects new.max_redirects ∷ []);
    }
  where
    open w use {config as c}

-- The switch on the new read mode: readOnly, routeByLatency, routeRandomly.
pub read_flags : ReadMode → Bool × Bool × Bool
read_flags mode =
    if mode == mode_read_from_master
    then (false, false, false)
    else if mode == mode_read_from_slaves
    then (true, false, false)
    else if mode == mode_read_by_latency
    then (false, true, false)
    else if mode == mode_read_randomly
    then (false, false, true)
    else (false, false, false)

pub reload_read_mode : ClientConfig → Wrapper → Wrapper
reload_read_mode new w =
    if c.read_mode == new.read_mode
    then w
    else (let (read_only, route_by_latency, route_randomly) = read_flags new.read_mode in
        record w {
          config = record c { read_mode = new.read_mode };
          calls =
              w.calls
              ++ (set_read_only read_only
                  ∷ set_route_by_latency route_by_latency
                  ∷ set_route_randomly route_randomly
                  ∷ []);
        })
  where
    open w use {config as c}

unfoldable pub reload :
    List CbSetter → List Str → ClientConfig → ClientConfig → Option Error × Wrapper
unfolding reload_limiters reload_redirects reload_read_mode install_limiters remove_limiters
    read_flags
reload cb_options shards c config =
    let (err, c', new) = validate_reload c (init config) in
    elim err [
      | some e ↦ (some e, record { config = c'; calls = [] })
      | none ↦ (
        none,
        reload_read_mode new (
            reload_redirects new (
              reload_limiters cb_options shards new
                (reload_settings new (record { config = c'; calls = [] })))),
      )
    ]

abbrev pub reload_blocks : List CbSetter → List Str → ClientConfig → ClientConfig → Wrapper
reload_blocks cb_options shards c new = reload_read_mode new (
    reload_redirects new (
      reload_limiters cb_options shards new
        (reload_settings new (record { config = c; calls = [] }))))

pub reload_accepted :
    (cb_options : List CbSetter) (shards : List Str) (c config : ClientConfig)
    → let (err, c', new) = validate_reload c (init config) in
      err ≡ none
      → reload cb_options shards c config ≡ (none, reload_blocks cb_options shards c' new)
unfolding reload
reload_accepted cb_options shards c config e = rw (e, reload)

pub reload_refused :
    (cb_options : List CbSetter) (shards : List Str) (c config : ClientConfig) {x : Error}
    → let (err, c', new) = validate_reload c (init config) in
      err ≡ some x
      → reload cb_options shards c config ≡ (some x, record { config = c'; calls = [] })
unfolding reload
reload_refused cb_options shards c config e = rw (e, reload)
