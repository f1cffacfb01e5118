-- ===== src/Connector/Commands.antt =====
-- connector.go: `Do`, `Pipeline` and `Run`, each with its read-only twin, `Publish`, `Subscribe` and
-- `logHystrixError`. A
-- command first goes to the queue of the load tests and then to the main client, whose server is a
-- parameter. What is counted and logged for an error is a list of events.
pub mod Mirrored
use grab_redis.Base.{ℕ, Bool, true, false, Option, none, some, List, [], ◌∷◌, if◌then◌else◌}
use grab_redis.Base.Int.{ℤ}
use grab_redis.Base.Text.{Str, str, contains}
use grab_redis.Client.{Server, Answer, CmdCache, do_cmd, pipeline, run, publish, subscribe_to}
use grab_redis.Client.Subscribe.{Subscription}
use grab_redis.Connector.Queue.{QueueState, Sent, sent, blocked, panicked, mirrors, queue_load_test}
use grab_redis.Errors.{
  Error, external, wrapped, config, routine_panic, scheduler_change, shared_address,
  no_command_cache, Kind, error_text, cause,
}
use grab_redis.Redisapi.Script.{Script}
use grab_redis.Redisapi.Value.{Value}

-- `counted tag` is the metric of errors with the tag; `warned format err` a warning.
pub data Event : Type 0 where
  counted : Str → Event
  warned : Str → Error → Event

-- The switch on the cause.
unfoldable pub log_cause : Error → Error → List Event
log_cause (external Kind.timeout s) err =
    counted (str "grab_redis_func:hystrix_timeout")
    ∷ warned (str "hystrix timeout error: %s") err
    ∷ []
log_cause (external Kind.circuit_open s) err =
    counted (str "grab_redis_func:hystrix_circuit_open")
    ∷ warned (str "hystrix circuit open error: %s") err
    ∷ []
log_cause (external Kind.max_concurrency s) err =
    counted (str "grab_redis_func:hystrix_max_concurrency")
    ∷ warned (str "hystrix max concurrency error: %s") err
    ∷ []
log_cause _ err = warned (str "hystrix error: %s") err ∷ []

-- `logHystrixError`
unfoldable pub log_hystrix_error : Option Error → List Event
log_hystrix_error none = []
log_hystrix_error (some err) =
    if contains (error_text err) (str "hystrix")
    then counted (str "grab_redis_func:hystrix_error") ∷ log_cause (cause err) err
    else []

-- What a command does: it returns, or waits for the queue, or panics there.
pub data Ran (A S : Type 0) : Type 0 where
  ran : A → QueueState → S → List Event → Ran A S
  waits panics : Ran A S

-- The part of a connector that its commands read.
pub record Settings : Type 0 where
  pub ignore_read_only : Bool
  pub cmd_cache : CmdCache
  pub process_all : Bool
  pub load_test_clients : List ℕ

-- A command of the main client without the mirror.
abbrev pub plainly : {A S : Type 0} → A × S → QueueState → Ran A S
plainly (a, s) q = ran a q s []

-- The command, and the log of its error, behind `queueLoadTest`.
unfoldable pub mirrored :
    {A S : Type 0} → Settings → (A → Option Error) → A × S → QueueState → Ran A S
mirrored c error_of r q = elim (queue_load_test c.process_all c.load_test_clients q) [
  | sent q' ↦ ran r.0 q' r.1 (log_hystrix_error (error_of r.0))
  | blocked ↦ waits
  | panicked ↦ panics
]

module _ (srv : Server) where
  -- `Do`, and `DoReadOnly`, whose clients do the same
  unfoldable pub connector_do :
      Settings → Str → List Value → QueueState → srv.State → Ran Answer srv.State
  connector_do c cmd_name args q s =
      if mirrors c.ignore_read_only c.cmd_cache cmd_name
      then mirrored c (λ a. a.1) (do_cmd srv cmd_name args s) q
      else plainly (do_cmd srv cmd_name args s) q

  -- `Pipeline` and `PipelineReadOnly`
  unfoldable pub connector_pipeline :
      Settings
      → List (List Value)
      → QueueState
      → srv.State
      → Ran (List Answer × Option Error) srv.State
  connector_pipeline c args_list q s = mirrored c (λ a. a.1) (pipeline srv args_list s) q

  -- `Run` and `RunReadOnly`
  unfoldable pub connector_run :
      Settings → Script → List Value → QueueState → srv.State → Ran Answer srv.State
  connector_run c script keys_and_args q s =
      mirrored c (λ a. a.1) (run srv script keys_and_args s) q

  -- `Publish`. It assigns the reply to its parameter `value`, so what a queued function publishes
  -- later is not always this message.
  unfoldable pub connector_publish :
      Settings → Str → Value → QueueState → srv.State → Ran Answer srv.State
  connector_publish c channel_name value q s =
      mirrored c (λ a. a.1) (publish srv channel_name value s) q

  -- `Subscribe`, whose main client returns no error
  unfoldable pub connector_subscribe :
      Settings → ℤ → List Str → QueueState → srv.State → Ran Subscription srv.State
  connector_subscribe c chan_buffer_size channels q s =
      elim (subscribe_to srv chan_buffer_size channels s) [
        | some r ↦ mirrored c (λ sub. none) r q
        | none ↦ elim (queue_load_test c.process_all c.load_test_clients q) [
          | blocked ↦ waits
          | _ ↦ panics
        ]
      ]
