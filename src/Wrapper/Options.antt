-- ===== src/Wrapper/Options.antt =====
-- config.go: the goredis options of a client. The records have the fields of goredis.Options and
-- goredis.ClusterOptions that the source writes; `Settings` holds those that both have.
use grab_redis.Base.{
  ℕ, ◌+◌, Bool, true, false, Option, none, some, List, [], ◌∷◌, ◌==◌, if◌then◌else◌,
}
use grab_redis.Base.Int.{ℤ, wrap64, scale}
use grab_redis.Base.Text.{Str, str_eq}
use grab_redis.Breaker.Options.{CbSetter}
use grab_redis.Config.Modes.{
  ReadMode, mode_cluster, mode_master_slave_group, mode_single_host, mode_read_from_master,
  mode_read_from_slaves, mode_read_randomly, mode_read_by_latency,
}
use grab_redis.Config.Records.{ClientConfig, default_host_and_port}
use grab_redis.Errors.{Error, config, bad_create_mode}
use grab_redis.Limiter.{Limiter, new_limiter, generate_cb_key, Effect, configure_hystrix}

-- `parseDurationInMs`: nanoseconds, as an int64
unfoldable pub parse_duration_in_ms : ℤ → ℤ
parse_duration_in_ms duration_in_ms = wrap64 (scale duration_in_ms 1000000)

pub record Settings : Type 0 where
  pub username : Str
  pub password : Str
  pub max_retries : ℤ
  pub min_retry_backoff : ℤ
  pub max_retry_backoff : ℤ
  pub dial_timeout : ℤ
  pub read_timeout : ℤ
  pub write_timeout : ℤ
  pub pool_size : ℤ
  pub min_idle_conns : ℤ
  pub max_idle_conns : ℤ
  pub max_conn_age : ℤ
  pub pool_timeout : ℤ
  pub idle_timeout : ℤ
  pub idle_check_frequency : ℤ

pub record Options : Type 0 where
  pub addr : Str
  pub settings : Settings
  pub db : ℤ
  pub insecure_tls : Bool
  pub limiter : Option Limiter

pub record ClusterNode : Type 0 where
  pub id : Str
  pub addr : Str

pub record ClusterSlot : Type 0 where
  pub start : ℕ
  pub end : ℕ
  pub nodes : List ClusterNode

-- What `NewClient` does for a node: the limiter that it sets and what it asks of hystrix. It reads
-- the configuration when goredis calls it, so that is an argument.
abbrev pub NodeHook : Type 0
NodeHook = ClientConfig → Str → Limiter × List Effect

pub record ClusterOptions : Type 0 where
  pub addrs : List Str
  pub settings : Settings
  pub max_redirects : ℤ
  pub read_only : Bool
  pub route_randomly : Bool
  pub route_by_latency : Bool
  pub insecure_tls : Bool
  pub new_client : Option NodeHook
  pub cluster_slots : Option (List ClusterSlot)

-- The fields that both literals of config.go spell out.
unfoldable pub settings_of : ClientConfig → Settings
settings_of c = record {
  username = c.username;
  password = c.password;
  max_retries = c.max_retries;
  min_retry_backoff = parse_duration_in_ms c.min_retry_backoff_in_ms;
  max_retry_backoff = parse_duration_in_ms c.max_retry_backoff_in_ms;
  dial_timeout = parse_duration_in_ms c.dial_timeout_in_ms;
  read_timeout = parse_duration_in_ms c.read_timeout_in_ms;
  write_timeout = parse_duration_in_ms c.write_timeout_in_ms;
  pool_size = c.pool_size;
  min_idle_conns = c.min_idle_conns;
  max_idle_conns = c.max_idle_conns;
  max_conn_age = parse_duration_in_ms c.max_conn_age_in_ms;
  pool_timeout = parse_duration_in_ms c.pool_timeout_in_ms;
  idle_timeout = parse_duration_in_ms c.idle_timeout_in_ms;
  idle_check_frequency = parse_duration_in_ms c.idle_check_frequency_in_ms;
}

unfoldable pub node_hook : List CbSetter → NodeHook
node_hook cb_options c addr =
    let cb_key = generate_cb_key addr in
    (new_limiter cb_key cb_options, configure_hystrix cb_key c.hystrix)

-- The switch on the read mode: the one flag that it sets.
unfoldable pub route : ReadMode → ClusterOptions → ClusterOptions
route mode opt =
    if mode == mode_read_from_master
    then record opt { read_only = false }
    else if mode == mode_read_from_slaves
    then record opt { read_only = true }
    else if mode == mode_read_randomly
    then record opt { route_randomly = true }
    else if mode == mode_read_by_latency
    then record opt { route_by_latency = true }
    else opt

unfoldable pub cluster_options : List CbSetter → ClientConfig → ClusterOptions
cluster_options cb_options c = route c.read_mode (record {
  addrs = c.addrs;
  settings = settings_of c;
  max_redirects = c.max_redirects;
  read_only = false;
  route_randomly = false;
  route_by_latency = false;
  insecure_tls = c.tls_enabled;
  new_client = if c.hystrix_enabled then some (node_hook cb_options) else none;
  cluster_slots = none;
})

-- The loop over the addresses; `new_string i` is the i-th call of uuid.NewString.
nodes_from : (ℕ → Str) → ℕ → List Str → List ClusterNode
nodes_from new_string i [] = []
nodes_from new_string i (a ∷ addrs) =
    record { id = new_string i; addr = a } ∷ nodes_from new_string (i + 1) addrs

unfoldable pub master_slave_group_options :
    (ℕ → Str) → List CbSetter → ClientConfig → ClusterOptions
unfolding nodes_from
master_slave_group_options new_string cb_options c =
    let opt = cluster_options cb_options c in
    let slot : ClusterSlot = record {
      start = 0;
      end = 16383;
      nodes = nodes_from new_string 0 opt.addrs;
    } in
    record opt { cluster_slots = some (slot ∷ []) }

unfoldable pub first_addr : List Str → Str
first_addr [] = default_host_and_port
first_addr (a ∷ addrs) = a

unfoldable pub single_host_options : List CbSetter → ClientConfig → Options × List Effect
unfolding first_addr
single_host_options cb_options c =
    let addr = first_addr c.addrs in
    let cb_key = generate_cb_key addr in
    (
      record {
        addr = addr;
        settings = settings_of c;
        db = c.db;
        insecure_tls = c.tls_enabled;
        limiter = if c.hystrix_enabled then some (new_limiter cb_key cb_options) else none;
      },
      if c.hystrix_enabled then configure_hystrix cb_key c.hystrix else [],
    )

-- What `createClient` returns: which wrapper, over a goredis client with which options.
pub data Created : Type 0 where
  cluster_wrapper : ClusterOptions → Created
  client_wrapper : Options → List Effect → Created
  refused : Error → Created

unfoldable pub create_client : (ℕ → Str) → List CbSetter → ClientConfig → Created
create_client new_string cb_options c =
    if c.client_mode == mode_cluster
    then cluster_wrapper (cluster_options cb_options c)
    else if c.client_mode == mode_master_slave_group
    then cluster_wrapper (master_slave_group_options new_string cb_options c)
    else if c.client_mode == mode_single_host
    then (let (opt, effects) = single_host_options cb_options c in client_wrapper opt effects)
    else refused (config bad_create_mode)
