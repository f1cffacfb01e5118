-- ===== src/Connector/Reload.antt =====
-- connector.go: `reload`, with `newClient` and `reload` of client.go. The load test clients are
-- shared objects, so they have numbers, and `clients` is the store.
pub mod Pool
pub mod Clients
pub mod Stops
pub mod Refused
pub mod Tied
use grab_redis.Base.{
  ℕ, suc, ◌+◌, Bool, true, false, Option, none, some, List, [], ◌∷◌, ◌++◌, nat_eq, ◌==◌, ◌&&◌,
  if◌then◌else◌,
}
use grab_redis.Base.Int.{ℤ, int_eq}
use grab_redis.Base.Text.{Str}
use grab_redis.Breaker.Options.{CbSetter}
use grab_redis.Config.Address.{is_addrs_equals, name}
use grab_redis.Config.Records.{ClientConfig, ConnectorConfig}
use grab_redis.Connector.Reload.Pool.{ByName, add_to, take_from, members}
use grab_redis.Errors.{Error, scheduler_change, shared_address}
use grab_redis.Wrapper.Calls.{Call}
use grab_redis.Wrapper.Options.{
  create_client, cluster_wrapper, client_wrapper, refused, parse_duration_in_ms,
}
use grab_redis.Wrapper.Single
use grab_redis.Wrapper.Cluster

-- What a client is connected to: one address, or the shards that goredis knows.
pub data Node : Type 0 where
  host : Str → Node
  shards : List Str → Node

-- A clientImpl, with the setter calls that were made on its goredis client.
pub record ClientImpl : Type 0 where
  pub node : Node
  pub config : ClientConfig
  pub calls : List Call

-- What `reload` needs from outside: uuid, the shards that goredis finds, and whether the context
-- is done.
pub record Env : Type 0 where
  pub new_string : ℕ → Str
  pub discover : ClientConfig → List Str
  pub ctx_err : Option Error
  pub cb_options : List CbSetter

-- `newClient`, up to the command table
pub data NewClient : Type 0 where
  built : ClientImpl → NewClient
  rejected : Error → NewClient

unfoldable pub new_client : Env → ClientConfig → NewClient
new_client env c = elim (create_client env.new_string env.cb_options c) [
  | refused e ↦ rejected e
  | cluster_wrapper opt ↦ elim env.ctx_err [
    | some e ↦ rejected e
    | none ↦ built (record { node = shards (env.discover c); config = c; calls = [] })
  ]
  | client_wrapper opt effects ↦ elim env.ctx_err [
    | some e ↦ rejected e
    | none ↦ built (record { node = host opt.addr; config = c; calls = [] })
  ]
]

-- `clientImpl.reload`
unfoldable pub reload_client : Env → ClientImpl → ClientConfig → Option Error × ClientImpl
reload_client env c config = elim c.node [
  | host addr ↦
      let (err, w) = Single.reload env.cb_options addr c.config config in
      (err, record c { config = w.config; calls = c.calls ++ w.calls })
  | shards addrs ↦
      let (err, w) = Cluster.reload env.cb_options addrs c.config config in
      (err, record c { config = w.config; calls = c.calls ++ w.calls })
]

pub record Connector : Type 0 where
  pub client : ClientImpl
  pub clients : ℕ → ClientImpl
  -- the number of the next client
  pub next : ℕ
  pub load_tests : List ℕ
  pub process_all : Bool
  pub max_worker : ℤ
  pub max_chan_size : ℤ
  pub worker_idle_timeout : ℤ
  -- the clients that were shut down
  pub shut : List ℕ

unfoldable pub put : ℕ → ClientImpl → Connector → Connector
put id c k = record k { clients = λ i. if i == id then c else k.clients i }

-- The loop over the old clients; `name` sorts the addresses of each.
unfoldable pub index_clients : List ℕ → ByName → Connector → ByName × Connector
index_clients [] pool k = (pool, k)
index_clients (id ∷ ids) pool k =
    let (n, c) = name (k.clients id).config in
    index_clients ids (add_to n id pool) (put id (record (k.clients id) { config = c }) k)

-- One round of the loop over the new configurations.
pub data Round : Type 0 where
  failed : Error → Connector → Round
  reused : ℕ → ByName → Connector → Round
  created : ℕ → Connector → Round

-- The round for an old client.
unfoldable pub reuse : Env → ClientConfig → ℕ → ByName → Connector → Round
reuse env config id pool k =
    let (same, addrs1, addrs2) = is_addrs_equals k.client.config.addrs config.addrs in
    let k' = record k { client = record m { config = record mc { addrs = addrs1 } } } in
    if same
    then failed shared_address k'
    else (let (err, c) = reload_client env (k'.clients id) (record config { addrs = addrs2 }) in
        elim err [ some e ↦ failed e (put id c k') | none ↦ reused id pool (put id c k') ])
  where
    open k use {client as m}
    open m use {config as mc}

unfoldable pub create : Env → ClientConfig → Connector → Round
create env config k = elim (new_client env config) [
  | built c ↦ created k.next (record (put k.next c k) { next = suc k.next })
  | rejected e ↦ failed e k
]

unfoldable pub reload_one : Env → ClientConfig → ByName → Connector → Round
unfolding reuse create
reload_one env config pool k =
    let (n, config') = name config in
    elim (take_from n pool) [
      | some (id, pool') ↦ reuse env config' id pool' k
      | none ↦ create env config' k
    ]

-- How the loop ends: on the first error, or with the new list and the clients left in the map.
pub data Loop : Type 0 where
  stopped : Error → Connector → Loop
  finished : List ℕ → ByName → Connector → Loop

abbrev then_id : ℕ → Loop → Loop
then_id id (stopped e k) = stopped e k
then_id id (finished ids pool k) = finished (id ∷ ids) pool k

unfoldable pub reload_each : Env → List ClientConfig → ByName → Connector → Loop
reload_each env [] pool k = finished [] pool k
reload_each env (config ∷ configs) pool k = elim (reload_one env config pool k) [
  | failed e k' ↦ stopped e k'
  | reused id pool' k' ↦ then_id id (reload_each env configs pool' k')
  | created id k' ↦ then_id id (reload_each env configs pool k')
]

-- From the loop over the old clients to the end.
unfoldable pub reload_load_tests : Env → List ClientConfig → Connector → Option Error × Connector
unfolding reload_one index_clients
reload_load_tests env configs k =
    let (pool, k') = index_clients k.load_tests [] k in
    elim (reload_each env configs pool k') [
      | stopped e k'' ↦ (some e, k'')
      | finished ids rest k'' ↦
          (none, record k'' { load_tests = ids; shut = k''.shut ++ members rest })
    ]

abbrev pub same_scheduler : Connector → ConnectorConfig → Bool
same_scheduler k config =
    k.max_worker == config.scheduler_worker_number
    && (k.max_chan_size == config.scheduler_channel_size
        && k.worker_idle_timeout == parse_duration_in_ms config.scheduler_worker_idle_timeout_in_ms)

unfoldable pub reload_connector : Env → ConnectorConfig → Connector → Option Error × Connector
unfolding reload_load_tests reload_each
reload_connector env config k =
    if config.hot_reload
    then (let k1 = record k { process_all = config.process_all_load_test_packets } in
        if same_scheduler k1 config
        then (let (err, main) = reload_client env k1.client config.main in
            let k2 = record k1 { client = main } in
            elim err [ some e ↦ (some e, k2) | none ↦ reload_load_tests env config.load_tests k2 ])
        else (some scheduler_change, k1))
    else (none, k)
