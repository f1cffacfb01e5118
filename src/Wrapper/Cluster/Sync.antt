-- ===== src/Wrapper/Cluster/Sync.antt =====
-- The client of a cluster stays in step with its configuration: settings, redirects, the routing
-- flags and the limiter of every shard.
use grab_redis.Base.{◌≡◌, refl, Option, none, List, [], ◌==◌, if◌then◌else◌, arith, All}
use grab_redis.Base.Int.{int_eq}
use grab_redis.Base.Text.{Str, str_eq, str_beq_iff}
use grab_redis.Breaker.Options.{CbSetter}
use grab_redis.Config.Modes.{mode_read_randomly, mode_read_by_latency}
use grab_redis.Config.Records.{ClientConfig}
use grab_redis.Limiter.{Limiter}
use grab_redis.Wrapper.Options.{Settings, ClusterOptions, settings_of, cluster_options, route}
use grab_redis.Wrapper.Calls.{
  Call, set_max_redirects, set_shard_limiter, set_read_only, set_route_by_latency,
  set_route_randomly,
}
use grab_redis.Wrapper.Settings.{reloadable}
use grab_redis.Wrapper.Settings.Setters.{set_setting}
use grab_redis.Wrapper.Settings.Track.{IsLawful}
use grab_redis.Wrapper.Single.Sync.{expected_limiter}
use grab_redis.Wrapper.Cluster.{read_flags}

-- What a cluster client shows: its options, and the limiter of the client of each shard.
pub record Cluster : Type 0 where
  pub options : ClusterOptions
  pub limiters : Str → Option Limiter

-- What goredis documents of the setters of a cluster client.
unfoldable pub set_cluster : Call → Cluster → Cluster
unfolding set_setting
set_cluster (set_max_redirects v) o = record o { options = record k { max_redirects = v } }
  where
    open o use {options as k}
set_cluster (set_read_only v) o = record o { options = record k { read_only = v } }
  where
    open o use {options as k}
set_cluster (set_route_by_latency v) o = record o { options = record k { route_by_latency = v } }
  where
    open o use {options as k}
set_cluster (set_route_randomly v) o = record o { options = record k { route_randomly = v } }
  where
    open o use {options as k}
set_cluster (set_shard_limiter addr l) o = record o {
  limiters = λ a. if a == addr then l else o.limiters a;
}
set_cluster call o = record o { options = record k { settings = set_setting call k.settings } }
  where
    open o use {options as k}

unfoldable pub with_settings : Settings → Cluster → Cluster
with_settings s o = record o { options = record k { settings = s } }
  where
    open o use {options as k}

pub reloadable-IsLawful : All (IsLawful set_cluster with_settings) reloadable
unfolding set_cluster with_settings reloadable settings_of
reloadable-IsLawful = (
  ((λ c. refl), (λ v c o. refl)),
  (
    ((λ c. refl), (λ v c o. refl)),
    (
      ((λ c. refl), (λ v c o. refl)),
      (
        ((λ c. refl), (λ v c o. refl)),
        (
          ((λ c. refl), (λ v c o. refl)),
          (
            ((λ c. refl), (λ v c o. refl)),
            (
              ((λ c. refl), (λ v c o. refl)),
              (
                ((λ c. refl), (λ v c o. refl)),
                (
                  ((λ c. refl), (λ v c o. refl)),
                  (
                    ((λ c. refl), (λ v c o. refl)),
                    (
                      ((λ c. refl), (λ v c o. refl)),
                      (
                        ((λ c. refl), (λ v c o. refl)),
                        (
                          ((λ c. refl), (λ v c o. refl)),
                          (((λ c. refl), (λ v c o. refl)), (((λ c. refl), (λ v c o. refl)), tt)),
                        ),
                      ),
                    ),
                  ),
                ),
              ),
            ),
          ),
        ),
      ),
    ),
  ),
)

-- The options that the cluster runs with are those that the configuration asks for, and every shard
-- has a limiter for its address exactly while the circuit breaker is enabled.
pub record IsSynced (cb_options : List CbSetter) (shards : List Str) (c : ClientConfig)
    (o : Cluster) : Type 0 where
  pub same_settings : o.options.settings ≡ settings_of c
  pub same_redirects : o.options.max_redirects ≡ c.max_redirects
  pub same_routing :
      (o.options.read_only, o.options.route_by_latency, o.options.route_randomly)
      ≡ read_flags c.read_mode
  pub same_tls : o.options.insecure_tls ≡ c.tls_enabled
  pub same_limiters :
      All (λ a. o.limiters a ≡ expected_limiter cb_options c.hystrix_enabled a) shards

-- A new cluster client, which knows no shard, is in step: the switch of `clusterOptions` sets the flags that the switch of
-- a reload would set.
pub cluster_options-IsSynced :
    (cb_options : List CbSetter) (c : ClientConfig)
    → IsSynced cb_options [] c
        (record { options = cluster_options cb_options c; limiters = λ a. none })
unfolding cluster_options route read_flags
cluster_options-IsSynced cb_options c = record {
  same_settings = ground arith;
  same_redirects = ground arith;
  same_routing = ground (
    arith,
    str_beq_iff c.read_mode mode_read_randomly,
    str_beq_iff c.read_mode mode_read_by_latency,
  );
  same_tls = ground arith;
  same_limiters = tt;
}
