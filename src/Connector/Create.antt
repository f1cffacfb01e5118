-- ===== src/Connector/Create.antt =====
-- connector.go: `NewDynamicConnector`, and the callback through which it reloads. What the configurer
-- unmarshals is an argument; the connector options are those of `Env`.
pub mod Fresh
use grab_redis.Base.{ℕ, suc, Bool, Option, none, some, List, [], ◌∷◌}
use grab_redis.Base.Int.{ℤ}
use grab_redis.Config.Checks.{init_and_validate}
use grab_redis.Config.Records.{ClientConfig, ConnectorConfig}
use grab_redis.Connector.Reload.{
  Env, ClientImpl, Connector, built, rejected, new_client, put, reload_connector,
}
use grab_redis.Errors.{Error}
use grab_redis.Scheduler.{SchedulerOptions, normalise}
use grab_redis.Wrapper.Options.{parse_duration_in_ms}

-- The options of the scheduler, as `newScheduler` leaves them.
unfoldable pub scheduler_of : ConnectorConfig → SchedulerOptions
scheduler_of config = normalise (record {
  max_chan_size = config.scheduler_channel_size;
  max_worker = config.scheduler_worker_number;
  worker_idle_timeout = parse_duration_in_ms config.scheduler_worker_idle_timeout_in_ms;
})

-- The loop over the load test configurations, up to the first error.
unfoldable pub create_each : Env → List ClientConfig → Connector → Option Error × List ℕ × Connector
create_each env [] k = (none, [], k)
create_each env (config ∷ configs) k = elim (new_client env config) [
  | rejected e ↦ (some e, [], k)
  | built c ↦
      let (err, ids, k') =
        create_each env configs (record (put k.next c k) { next = suc k.next }) in
      (err, k.next ∷ ids, k')
]

-- A connector without load test clients.
unfoldable pub start_with : ClientImpl → ConnectorConfig → Connector
start_with main config =
    let options = scheduler_of config in
    record {
      client = main;
      clients = λ id. main;
      next = 0;
      load_tests = [];
      process_all = config.process_all_load_test_packets;
      max_worker = options.max_worker;
      max_chan_size = options.max_chan_size;
      worker_idle_timeout = options.worker_idle_timeout;
      shut = [];
    }

pub data NewConnector : Type 0 where
  failed_with : Error → NewConnector
  connected : Connector → NewConnector

-- The clients of a configuration that was accepted.
unfoldable pub create_clients : Env → ConnectorConfig → NewConnector
create_clients env config = elim (new_client env config.main) [
  | rejected e ↦ failed_with e
  | built main ↦
      let (err, ids, k) = create_each env config.load_tests (start_with main config) in
      elim err [ some e ↦ failed_with e | none ↦ connected (record k { load_tests = ids }) ]
]

-- `NewDynamicConnector`, on the error and the configuration of `Unmarshal`
unfoldable pub new_dynamic_connector : Env → Option Error → ConnectorConfig → NewConnector
new_dynamic_connector env (some e) config = failed_with e
new_dynamic_connector env none config =
    let (err, config') = init_and_validate config in
    elim err [ some e ↦ failed_with e | none ↦ create_clients env config' ]

-- The function that `NewDynamicConnector` gives to `OnChange`.
unfoldable pub on_change :
    Env → Option Error → ConnectorConfig → Connector → Option Error × Connector
on_change env (some e) config k = (some e, k)
on_change env none config k =
    let (err, config') = init_and_validate config in
    elim err [ some e ↦ (some e, k) | none ↦ reload_connector env config' k ]
