-- ===== src/Tests/WrapperRuns.antt =====
-- client_wrapper.go and cluster_wrapper.go at concrete inputs, over a goredis client that only
-- keeps its options.
use grab_redis.Base.{◌≡◌, refl, none, []}
use grab_redis.Base.Sort.{sort}
use grab_redis.Base.Text.{str, str_order, str_leb, str_beq}
use grab_redis.Config.Checks.{
  init, validate, validate_reload, or_default, or_empty, default_addrs, or_default_read_mode,
}
use grab_redis.Config.Address.{is_addrs_equals, same_elements}
use grab_redis.Config.Modes.{client_mode_is_valid, read_mode_is_valid}
use grab_redis.Wrapper.Calls.{Goredis, run_calls}
use grab_redis.Wrapper.Options.{Options, single_host_options, first_addr, cluster_options}
use grab_redis.Wrapper.Settings.Track.{take_settings}
use grab_redis.Wrapper.Single
use grab_redis.Wrapper.Single.Sync as HostSync
use grab_redis.Wrapper.Single.Takes.{take_hystrix, config-reload}
use grab_redis.Wrapper.Cluster as ClusterWrapper
use grab_redis.Wrapper.Cluster.Sync as ClusterSync
use grab_redis.Wrapper.Cluster.Sync.{Cluster, cluster_options-IsSynced}
use grab_redis.Wrapper.Cluster.Reload.{reload_cluster-IsSynced}
use grab_redis.Tests.Samples.{single, single_new, cluster, cluster_new}

abbrev host_client : Goredis Options HostSync.set_option
host_client = record {
  State = Options;
  call = HostSync.set_option;
  view = λ o. o;
  view-call = λ k s. refl;
}

abbrev cluster_client : Goredis Cluster ClusterSync.set_cluster
cluster_client = record {
  State = Cluster;
  call = ClusterSync.set_cluster;
  view = λ o. o;
  view-call = λ k s. refl;
}

-- What the two clients start with.
abbrev host_options : Options
host_options = (single_host_options [] single).0

abbrev cluster_start : Cluster
cluster_start = record { options = cluster_options [] cluster; limiters = λ a. none }

reload-options_at_example :
    let (_, w) = Single.reload [] (first_addr single.addrs) single single_new in
    run_calls host_client host_options w.calls
    ≡ HostSync.options_at [] w.config (first_addr single.addrs)
reload-options_at_example =
    HostSync.reload-options_at host_client [] host_options single single_new
      (first_addr single.addrs) (HostSync.single_host_options_lem [] single)

reload_cluster-IsSynced_example :
    let (_, w) = ClusterWrapper.reload [] [] cluster cluster_new in
    ClusterSync.IsSynced [] [] w.config (run_calls cluster_client cluster_start w.calls)
reload_cluster-IsSynced_example =
    reload_cluster-IsSynced cluster_client [] [] cluster_start cluster cluster_new
      (cluster_options-IsSynced [] cluster)

single_accepted : (Single.reload [] (str "b:1") single single_new).0 ≡ none
unfolding Single.reload validate_reload validate init is_addrs_equals sort str_leb str_beq
    same_elements or_default or_empty default_addrs or_default_read_mode client_mode_is_valid
    read_mode_is_valid
single_accepted = refl

config-reload_example :
    (Single.reload [] (str "b:1") single single_new).1.config
    ≡ record (take_hystrix (init single_new) (take_settings (init single_new) single)) {
      addrs = sort single.addrs;
    }
config-reload_example = config-reload [] (str "b:1") single single_new single_accepted
