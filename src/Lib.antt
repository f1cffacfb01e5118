-- ===== src/Lib.antt =====
-- A verification library for grab-redis: a redis client with a circuit breaker for each node, hot
-- reload of its configuration, and a mirror of its commands to load test clients.
--
-- The parts of the program and the files that model them:
--   Config     config.go and model.go: the configuration records, `init`, `validate`,
--              `validateReload`, `initAndValidate`, `isAddrsEquals` and `name`. A method that writes
--              through its receiver returns the receiver, also where it sorts the addresses.
--   Wrapper    config.go (Options: `clusterOptions`, `masterSlaveGroupOptions`,
--              `singleHostOptions`, `createClient`), client_wrapper.go (Single) and
--              cluster_wrapper.go (Cluster): a `reload` is the calls that it makes on goredis and
--              the configuration that it leaves. Settings has the fifteen assignments they share.
--   Limiter    limiter.go: which errors count against a node's circuit, what hystrix is asked, and
--              `Allow` and `Execute` (Calls).
--   Breaker    circuitbreaker/: Options (circuit_breaker_options.go), Builder (command_builder.go),
--              and of circuit_breaker.go Circuits (`AllowRequest`, `IsCircuitOpen`) and Run (`Go`,
--              `Do` and `aggregateError`, as the messages on the two error channels; a command that
--              times out may send on both).
--   Client     client.go: `Do`, `Pipeline`, `Run`, `Publish` and the command table, `ShutDown` with
--              `monitorPool` as a step relation (Shutdown), `Subscribe` with its goroutine as
--              another (Subscribe), and the metrics with their tags (Metrics).
--   Redisapi   the package redisapi: scripter.go (Script), reply.go (Reply, with its arrays in Lists
--              and its maps in Maps), reply_geo.go (Geo), scan.go (Scan) and args.go (Args). Value
--              is an interface{} by its dynamic type, Failure the errors, Strconv the functions of
--              strconv that the package calls. In Scan a Go variable is a data type with a
--              constructor for each kind that reflection tells apart (Dest); Assign is
--              `convertAssign`, Variables `Scan`, Spec the field names of a struct with
--              the cache of them (Spec.Cache), Structs `ScanStruct` and Slices `ScanSlice`.
--              Where the code can panic, `none` is the panic.
--   Connector  connector.go: `queueLoadTest`, which hands commands to the scheduler (Queue),
--              `NewDynamicConnector` with its callback (Create) and the options of option.go
--              (Setup), the commands with the log of their errors (Commands), the loops of
--              `queueLoadTest` with the workers that run what they queue (Mirror), `ShutDown` beside
--              the goroutines of the scheduler (Shutdown), and `reload` (Reload), whose load test
--              clients are numbered objects in a store, with `newClient` of client.go.
--   Scheduler  scheduler.go: the options, and the worker pool as a step relation in which each
--              atomic action of a goroutine is a step.
--   Latencies  latencies.go: the ring that the scheduler averages, and calls of `Add` at the same
--              time (Concurrent).
--   Errors     the error values of all parts, with their texts.
--   Base       shared helpers: integers, text, sorting and lists. Tests has runs at fixed inputs.
--
-- A connector reads its configuration, makes a client for the main redis and for each load test
-- redis, and each client wraps a goredis client whose limiter is a circuit of the breaker. A command
-- is first offered to the load test queue and then sent by the main client.
--
-- An int is 64 bits: products and sums that can leave the range are wrapped by `wrap64`. Every
-- function is by structural recursion, so there is no fuel.
--
-- Parameters stand for what is not in the repository: goredis (Wrapper.Calls.Goredis, with the law
-- that a setter changes the option it names; Client.Server), the scripting of Redis
-- (Client.Run.Runs), hystrix (Breaker.Run.HystrixGo, what it sends on its error channel,
-- Breaker.Circuits.Circuits and Breaker.Builder.Defaults), SHA-1, uuid, and floating point (Float).
-- strconv is written out as it is documented, and `int` is `int64`.
--
-- Not modelled: the state of the load test servers; `Unsubscribe`, which calls goredis; what a
-- stats client or a logger does, so the panic of a nil one is not either. In Client.Shutdown
-- `Close` of goredis is taken to return. Time is not modelled: a ticker may fire whenever it is
-- allowed to, and may ask for any number of workers. The context that `NewDynamicConnector` is
-- given is not cancelled while `ShutDown` runs (Shutdown). `ForEachShard` of goredis visits its
-- shards one at a time. In Connector.Mirror the list of load test clients does not change, and
-- the channel stays open.
pub mod Base
pub mod Errors
pub mod Config
pub mod Breaker
pub mod Limiter
pub mod Wrapper
pub mod Float
pub mod Latencies
pub mod Scheduler
pub mod Redisapi
pub mod Client
pub mod Connector
pub mod Tests
