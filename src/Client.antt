-- ===== src/Client.antt =====
-- client.go: commands, pipelines and scripts over a goredis client, which is a parameter. Log
-- lines are left out; what is counted is in Metrics.
pub mod Run
pub mod Pipeline
pub mod Shutdown
pub mod Subscribe
pub mod Metrics
use grab_redis.Base.{
  Bool, true, false, Option, none, some, List, [], ◌∷◌, ◌++◌, ◌==◌, if◌then◌else◌, length, ◌≡◌,
}
use grab_redis.Base.Text.{Str, str, str_eq, has_prefix}
use grab_redis.Base.Int.{ℤ}
use grab_redis.Client.Subscribe.{Subscription, subscribe}
use grab_redis.Errors.{Error, external, Kind, no_command_cache, error_text}
use grab_redis.Redisapi.Script.{Script, get_hash_and_args, get_script_and_args}
use grab_redis.Redisapi.Value.{Value, simple}

-- What goredis answers to a command: the reply and the error of `cmd.Result()`.
abbrev pub Answer : Type 0
Answer = Value × Option Error

pub record Server : Type 1 where
  pub State : Type 0
  pub do_command : List Value → State → Answer × State
  -- the commands of one pipeline, with one answer to each
  pub exec : List (List Value) → State → List Answer × State
  -- PUBLISH, and what SUBSCRIBE does to the server
  pub publish_command : Str → Value → State → Answer × State
  pub subscribe_command : List Str → State → State
  pub length-exec : (cmds : List (List Value)) (s : State) → length (exec cmds s).0 ≡ length cmds

-- `err == goredis.Nil`
unfoldable pub is_nil : Error → Bool
is_nil (external Kind.redis_nil s) = true
is_nil _ = false

unfoldable pub get_result_from_command : Answer → Answer
unfolding is_nil
get_result_from_command (reply, none) = (reply, none)
get_result_from_command (reply, some e) = if is_nil e then (reply, none) else (reply, some e)

-- The loop of `getResultFromCommands`, with the first error so far.
pub results_from : Option Error → List Answer → List Answer × Option Error
results_from err [] = ([], err)
results_from err (cmd ∷ cmds) =
    let r = get_result_from_command cmd in
    let (results, first) = results_from (elim err [ none ↦ r.1 | some e ↦ some e ]) cmds in
    (r ∷ results, first)

unfoldable pub get_result_from_commands : List Answer → List Answer × Option Error
unfolding results_from
get_result_from_commands cmds = results_from none cmds

abbrev pub redis_err_no_script : Str
redis_err_no_script = str "NOSCRIPT "

-- The command table of a client: ReadOnly by name, `none` for a nil entry.
abbrev pub CmdCache : Type 0
CmdCache = List (Str × Option Bool)

unfoldable pub if_command_readonly : CmdCache → Str → Bool × Option Error
if_command_readonly [] name = (false, some no_command_cache)
if_command_readonly ((n, info) ∷ cache) name =
    if n == name
    then elim info [ none ↦ (false, some no_command_cache) | some ro ↦ (ro, none) ]
    else if_command_readonly cache name

-- `err != nil && strings.HasPrefix(err.Error(), redisErrNoScript)`
unfoldable pub is_no_script : Option Error → Bool
is_no_script none = false
is_no_script (some e) = has_prefix (error_text e) redis_err_no_script

module _ (srv : Server) where
  -- `clientImpl.do`
  unfoldable pub do_args : List Value → srv.State → Answer × srv.State
  do_args args s = let (cmd, s') = srv.do_command args s in (get_result_from_command cmd, s')

  -- `Do`, and `DoReadOnly`, which calls it
  unfoldable pub do_cmd : Str → List Value → srv.State → Answer × srv.State
  unfolding do_args
  do_cmd cmd_name args s = do_args (simple cmd_name ∷ args) s

  -- `Pipeline`, and `PipelineReadOnly`, which calls it
  unfoldable pub pipeline : List (List Value) → srv.State → (List Answer × Option Error) × srv.State
  unfolding get_result_from_commands
  pipeline args_list s =
      let (cmds, s') = srv.exec args_list s in (get_result_from_commands cmds, s')

  -- `Run`, and `RunReadOnly`, which calls it
  unfoldable pub run : Script → List Value → srv.State → Answer × srv.State
  unfolding do_args
  run script keys_and_args s =
      let (answer, s') =
        do_args (simple (str "EVALSHA") ∷ get_hash_and_args script keys_and_args) s in
      if is_no_script answer.1
      then do_args (simple (str "EVAL") ∷ get_script_and_args script keys_and_args) s'
      else (answer, s')

  unfoldable pub publish : Str → Value → srv.State → Answer × srv.State
  publish channel_name value s = srv.publish_command channel_name value s

  -- `Subscribe`; `none` is a panic
  unfoldable pub subscribe_to : ℤ → List Str → srv.State → Option (Subscription × srv.State)
  subscribe_to chan_buffer_size channels s = elim (subscribe chan_buffer_size) [
    | none ↦ none
    | some sub ↦ some (sub, srv.subscribe_command channels s)
  ]
