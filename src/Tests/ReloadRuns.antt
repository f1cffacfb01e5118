-- ===== src/Tests/ReloadRuns.antt =====
-- `reload` of connector.go at concrete inputs: one load test client is kept and one is shut down, and a
-- reload that is refused.
use grab_redis.Base.{◌++◌, ◌&&◌, ℕ, arith, ◌≤◌, true, false, ◌≡◌, refl, none, some, List, [], ◌∷◌}
use grab_redis.Base.Sort.{sort}
use grab_redis.Base.Int.{is_positive, pos, scale, wrap64}
use grab_redis.Base.Text.{str, str_leb, str_beq, join}
use grab_redis.Config.Address.{is_addrs_equals, same_elements, name}
use grab_redis.Config.Checks.{
  init, validate, validate_reload, or_default, or_empty, default_addrs, or_default_read_mode,
}
use grab_redis.Config.Modes.{client_mode_is_valid, read_mode_is_valid}
use grab_redis.Config.Records.{ConnectorConfig}
use grab_redis.Connector.Reload.{
  Env, host, shards, Connector, reload_connector, reload_client, reload_load_tests, reload_each,
  reload_one, reuse, create, index_clients, put,
}
use grab_redis.Connector.Mirror.Counts.{times}
use grab_redis.Connector.Reload.Clients.{Kept}
use grab_redis.Connector.Reload.Tied.{Tied, named}
use grab_redis.Connector.Reload.Tied.Accepted.{reload_connector-Tied}
use grab_redis.Connector.Reload.Stops.{Refusal}
use grab_redis.Connector.Reload.Refused.{SameClients, reload_connector_refused}
use grab_redis.Connector.Reload.Pool.{add_to, take_from, pop_last, members}
use grab_redis.Config.Checks.{init_and_validate, validate_all}
use grab_redis.Connector.Create.{
  failed_with, connected, new_dynamic_connector, create_clients, create_each,
}
use grab_redis.Connector.Create.Fresh.{Fresh, new_dynamic_connector-Fresh}
use grab_redis.Connector.Reload.{new_client}
use grab_redis.Connector.Setup.{nil, given, handed_on}
use grab_redis.Connector.Setup.Handed.{Choice, choose_logger, setters, handed_on_lem}
use grab_redis.Errors.{shared_address, scheduler_change}
use grab_redis.Wrapper.Options.{create_client}
use grab_redis.Wrapper.Options.{parse_duration_in_ms}
use grab_redis.Wrapper.Single
use grab_redis.Wrapper.Cluster
use grab_redis.Tests.Samples.{single, single_new, cluster}

abbrev env : Env
env = record {
  new_string = λ i. str "id";
  discover = λ c. c.addrs;
  ctx_err = none;
  cb_options = [];
}

abbrev running : Connector
running = record {
  client = record { node = host (str "b:1"); config = single; calls = [] };
  clients =
      λ i. record { node = shards (str "a:1" ∷ str "b:1" ∷ []); config = cluster; calls = [] };
  next = 2;
  load_tests = 0 ∷ 1 ∷ [];
  process_all = true;
  max_worker = pos 10;
  max_chan_size = pos 5;
  worker_idle_timeout = pos 1000000000;
  shut = [];
}

abbrev wanted : ConnectorConfig
wanted = record {
  main = single_new;
  load_tests = cluster ∷ [];
  hot_reload = true;
  process_all_load_test_packets = false;
  scheduler_worker_number = pos 10;
  scheduler_channel_size = pos 5;
  scheduler_worker_idle_timeout_in_ms = pos 1000;
}

reload_connector_accepted : (reload_connector env wanted running).0 ≡ none
unfolding reload_connector reload_client reload_load_tests reload_each reload_one reuse create
    index_clients put add_to take_from pop_last members parse_duration_in_ms scale wrap64
    Single.reload Cluster.reload name validate_reload validate init is_addrs_equals same_elements
    sort str_leb str_beq join or_default or_empty default_addrs or_default_read_mode
    client_mode_is_valid read_mode_is_valid grab_redis.Wrapper.Settings.reload_settings
reload_connector_accepted = refl

running-once : (j : ℕ) → times j running.load_tests ≤ 1
unfolding times
running-once j = ground arith

running-older : (j : ℕ) → running.next ≤ j → times j running.load_tests ≡ 0
unfolding times
running-older j le = ground arith

reload_connector-Tied_example :
    let (_, k') = reload_connector env wanted running in
    Kept running wanted.load_tests k'
    × (gone : List ℕ) × (k'.shut ≡ running.shut ++ gone)
    × Tied env (λ j. named (running.clients j)) gone wanted.load_tests k'.load_tests k'.clients
reload_connector-Tied_example =
    reload_connector-Tied env wanted running running-once running-older refl
      reload_connector_accepted

-- An old load test client has the address of the main client, and the new configuration keeps it.
abbrev sharing : Connector
sharing = record running {
  clients = λ i. record { node = host (str "b:1"); config = single; calls = [] };
}

abbrev wanted_shared : ConnectorConfig
wanted_shared = record wanted { load_tests = single ∷ [] }

reload_connector_shared : (reload_connector env wanted_shared sharing).0 ≡ some shared_address
unfolding reload_connector reload_client reload_load_tests reload_each reload_one reuse create
    index_clients put add_to take_from pop_last members parse_duration_in_ms scale wrap64
    Single.reload Cluster.reload name validate_reload validate init is_addrs_equals same_elements
    sort str_leb str_beq join or_default or_empty default_addrs or_default_read_mode
    client_mode_is_valid read_mode_is_valid grab_redis.Wrapper.Settings.reload_settings
reload_connector_shared = refl

reload_connector_refused_example :
    SameClients sharing (reload_connector env wanted_shared sharing).1
    × Refusal env wanted_shared sharing shared_address
        (reload_connector env wanted_shared sharing).1
reload_connector_refused_example =
    reload_connector_refused env wanted_shared sharing shared_address refl reload_connector_shared

-- The connector that the configuration gives.
abbrev created : Connector
created = elim (new_dynamic_connector env none wanted) [ failed_with e ↦ running | connected k ↦ k ]

created_connected : new_dynamic_connector env none wanted ≡ connected created
unfolding new_dynamic_connector init_and_validate validate_all create_clients create_each new_client
    create_client init validate or_default or_empty default_addrs or_default_read_mode
    client_mode_is_valid read_mode_is_valid str_beq
created_connected = refl

new_dynamic_connector-Fresh_example :
    let c = (init_and_validate wanted).1 in
    Fresh c created
    × (c.hot_reload ≡ true
        → (is_positive c.scheduler_worker_number
            && (is_positive c.scheduler_channel_size
                && is_positive (parse_duration_in_ms c.scheduler_worker_idle_timeout_in_ms)))
          ≡ false
        → (env' : Env) → (reload_connector env' c created).0 ≡ some scheduler_change)
new_dynamic_connector-Fresh_example =
    new_dynamic_connector-Fresh env wanted created created_connected

-- A caller chooses a logger and no stats client.
abbrev choices : List Choice
choices = choose_logger (given 3) ∷ []

handed_on_lem_example :
    handed_on [] (setters choices) ≡ record { stats = nil; logger = given 3; cb_options = [] }
handed_on_lem_example = handed_on_lem [] choices
