-- ===== src/Connector/Setup.antt =====
-- option.go and telemetry.go, with the options that `NewDynamicConnector` of connector.go hands on to
-- `newClient` of client.go, and configurer.go.
pub mod Handed
use grab_redis.Base.{ℕ, Option, none, some, List, [], ◌∷◌, foldl}
use grab_redis.Breaker.Options.{CbSetter}
use grab_redis.Config.Records.{ConnectorConfig}
use grab_redis.Errors.{Error}

-- A StatsClient or a Logger: the nil interface, the one that does nothing, or one of the caller's.
pub data Handle : Type 0 where
  nil noop : Handle
  given : ℕ → Handle

-- The fields of connectorImpl and of clientImpl that options set.
pub record Fields : Type 0 where
  pub stats : Handle
  pub logger : Handle
  pub cb_options : List CbSetter

-- `ConnectorOption` and `ClientOption`
abbrev pub Setter : Type 0
Setter = Fields → Fields

-- `ConnectorStatsD` and `ClientStatsD`
unfoldable pub with_stats : Handle → Setter
with_stats h c = record c { stats = h }

-- `ConnectorLogger` and `ClientLogger`
unfoldable pub with_logger : Handle → Setter
with_logger h c = record c { logger = h }

-- `ConnectorCBOptions` and `ClientCBOptions`
unfoldable pub with_cb_options : List CbSetter → Setter
with_cb_options opts c = record c { cb_options = opts }

-- `for _, opt := range options { opt(c) }`
unfoldable pub apply_options : List Setter → Fields → Fields
apply_options opts c = foldl (λ c opt. opt c) c opts

-- `newClient`, its defaults and the options
unfoldable pub client_fields : List CbSetter → List Setter → Fields
client_fields defaults opts =
    apply_options opts (record { stats = noop; logger = noop; cb_options = defaults })

-- `NewDynamicConnector`, its defaults and the options
unfoldable pub connector_fields : List CbSetter → List Setter → Fields
connector_fields defaults opts =
    apply_options opts (record { stats = nil; logger = nil; cb_options = defaults })

-- A client of a connector with these options.
unfoldable pub handed_on : List CbSetter → List Setter → Fields
handed_on defaults opts =
    let c = connector_fields defaults opts in
    client_fields defaults
      (with_stats c.stats ∷ with_logger c.logger ∷ with_cb_options c.cb_options ∷ [])

-- `staticConfigurer.Unmarshal` into a ConnectorConfig
unfoldable pub static_unmarshal : ConnectorConfig → Option Error × ConnectorConfig
static_unmarshal config = (none, config)
