-- ===== src/Client/Metrics.antt =====
-- client.go: the metrics of a client, with the tags of each, and `monitorPool`. `getTags` takes the name
-- of the configuration, which sorts its addresses, so each function returns the configuration as well.
use grab_redis.Base.{
  ℕ, ◌+◌, ◌-◌, ◌%◌, ◌^◌, ◌≡◌, ap, Bool, none, some, List, [], ◌∷◌, ◌++◌, if◌then◌else◌,
}
use grab_redis.Base.Text.{Str, str, str_eq}
use grab_redis.Client.{Server, do_args, is_no_script}
use grab_redis.Config.Address.{name, name_idem}
use grab_redis.Config.Records.{ClientConfig}
use grab_redis.Redisapi.Script.{Script, get_hash_and_args, get_script_and_args}
use grab_redis.Redisapi.Value.{Value, simple}

-- `elapsed tags` is the duration of a call.
pub data Metric : Type 0 where
  elapsed : List Str → Metric
  count1 : Str → List Str → Metric
  gauge : Str → ℕ → List Str → Metric

abbrev pub tag_function_do : Str
tag_function_do = str "grab_redis_func:do"

abbrev pub tag_function_pipeline : Str
tag_function_pipeline = str "grab_redis_func:pipeline"

abbrev pub tag_function_run : Str
tag_function_run = str "grab_redis_func:run"

unfoldable pub get_tags : ClientConfig → List Str → List Str × ClientConfig
get_tags config tags =
    let (n, config') = name config in ((str "grab_redis_host:" ++ n) ∷ tags, config')

-- The metric of `Do`, which is of its duration.
unfoldable pub do_metrics : ClientConfig → Str → List Metric × ClientConfig
do_metrics config cmd_name =
    let (tags, config') =
      get_tags config (tag_function_do ∷ (str "grab_redis_cmd:" ++ cmd_name) ∷ []) in
    (elapsed tags ∷ [], config')

unfoldable pub pipeline_metrics : ClientConfig → List Metric × ClientConfig
pipeline_metrics config =
    let (tags, config') = get_tags config (tag_function_pipeline ∷ []) in
    (elapsed tags ∷ [], config')

module _ (srv : Server) where
  -- What `Run` counts: its duration last, since it is deferred, with the tags that were read first.
  unfoldable pub run_metrics :
      ClientConfig → Script → List Value → srv.State → List Metric × ClientConfig
  run_metrics config script keys_and_args s =
      let (tags, config1) = get_tags config (tag_function_run ∷ []) in
      let (answer, s') =
        do_args srv (simple (str "EVALSHA") ∷ get_hash_and_args script keys_and_args) s in
      if is_no_script answer.1
      then elim (do_args srv (simple (str "EVAL") ∷ get_script_and_args script keys_and_args)
          s').0.1 [
            | none ↦ (elapsed tags ∷ [], config1)
            | some e ↦
                let (tags2, config2) = get_tags config1 (tag_function_run ∷ []) in
                (count1 (str "error") tags2 ∷ elapsed tags ∷ [], config2)
          ]
      else (elapsed tags ∷ [], config1)

-- The end of `ShutDown`, with or without the time running out.
unfoldable pub shut_down_metrics : ClientConfig → Bool → List Metric × ClientConfig
shut_down_metrics config done =
    let (tags, config') =
      get_tags config ((if done then str "timeout:true" else str "timeout:false") ∷ []) in
    (count1 (str "shutdown") tags ∷ [], config')

-- One tick of `monitorPool`: the counts of goredis are of 32 bits, and so is their difference.
unfoldable pub monitor_pool : ClientConfig → ℕ → ℕ → List Metric × ClientConfig
monitor_pool config total_conns idle_conns =
    let active = (total_conns + 2 ^ 32 - idle_conns) % 2 ^ 32 in
    let (tags1, config1) = get_tags config [] in
    let (tags2, config2) = get_tags config1 [] in
    (gauge (str "active") active tags1 ∷ gauge (str "total") total_conns tags2 ∷ [], config2)

-- Every metric of a client carries the same host tag: what an earlier one did to the configuration
-- does not show in the next, and is not done again.
pub get_tags_stable :
    (config : ClientConfig) (tags tags' : List Str)
    → get_tags (get_tags config tags).1 tags' ≡ get_tags config tags'
unfolding get_tags
get_tags_stable config tags tags' =
    ap (λ r. ((str "grab_redis_host:" ++ r.0) ∷ tags', r.1)) (name_idem config)
