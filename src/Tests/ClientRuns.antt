-- ===== src/Tests/ClientRuns.antt =====
-- client.go at concrete inputs, over a server whose whole state is whether it knows the script.
use grab_redis.Base.{
  Bool, true, false, ◌≡◌, refl, none, some, List, [], ◌∷◌, length, arith, ℕ, ◌≤◌, ◌==◌,
  if◌then◌else◌,
}
use grab_redis.Base.Int.{pos}
use grab_redis.Base.Text.{str, str_eq, str_beq, has_prefix}
use grab_redis.Client.{
  Server, Answer, do_cmd, run, pipeline, get_result_from_command, is_no_script, is_nil, publish,
  subscribe_to,
}
use grab_redis.Client.Subscribe.{Subscription}
use grab_redis.Client.Run.{Runs, run-eval}
use grab_redis.Client.Shutdown.{
  Life, new_life, shut_down, close_chan, return_closed, stop_monitor, Steps, none_left, one_more,
}
use grab_redis.Client.Shutdown.Ends.{IsOver, calls, shut_down-Ends, shut_down-crashes}
use grab_redis.Connector.Commands.{
  Settings, connector_do, connector_pipeline, connector_run, connector_publish, connector_subscribe,
}
use grab_redis.Connector.Commands.Mirrored.{Answers, connector-Answers}
use grab_redis.Connector.Queue.{QueueState}
use grab_redis.Errors.{external, Kind, error_text}
use grab_redis.Redisapi.Script.{Script}
use grab_redis.Redisapi.Value.{Value, integer, simple, bulk}

abbrev no_script : Answer
no_script = (Value.null, some (external Kind.redis (str "NOSCRIPT No matching script.")))

abbrev full_script : Answer
full_script = (integer (pos 7), none)

-- EVALSHA answers NOSCRIPT until an EVAL has run; any other command answers nil.
answer : List Value → Bool → Answer × Bool
answer [] known = ((Value.null, none), known)
answer (simple cmd ∷ args) known =
    if cmd == str "EVALSHA"
    then (if known then (full_script, true) else (no_script, false))
    else if cmd == str "EVAL"
    then (full_script, true)
    else ((Value.null, some (external Kind.redis_nil (str "redis: nil"))), known)
answer (arg ∷ args) known = ((Value.null, none), known)

exec_all : List (List Value) → Bool → List Answer × Bool
exec_all [] known = ([], known)
exec_all (cmd ∷ cmds) known =
    let (a, known') = answer cmd known in
    let (rest, last) = exec_all cmds known' in (a ∷ rest, last)

length-exec_all :
    (cmds : List (List Value)) (known : Bool) → length (exec_all cmds known).0 ≡ length cmds
unfolding exec_all
length-exec_all [] known = refl
length-exec_all (cmd ∷ cmds) known = rw (length-exec_all cmds (answer cmd known).1)

abbrev server : Server
server = record {
  State = Bool;
  do_command = answer;
  exec = exec_all;
  publish_command = λ channel message known. ((integer (pos 2), none), known);
  subscribe_command = λ channels known. known;
  length-exec = length-exec_all;
}

abbrev script : Script
script = record { key_count = pos 1; src = str "return 7"; hash = str "abc" }

abbrev server_runs : Runs server script
unfolding answer str_beq has_prefix error_text is_nil get_result_from_command is_no_script
server_runs = record {
  cached = λ known. known;
  eval = λ args known. (full_script, true);
  hit = λ args known e. rw e;
  miss = λ args known e. rw e (refl, refl);
  full = λ args known. refl;
  plain = λ args known. refl;
}

run-eval_example :
    run server script (bulk (str "k") ∷ []) false ≡ (get_result_from_command full_script, true)
unfolding server_runs
run-eval_example = run-eval server script server_runs (bulk (str "k") ∷ []) false

-- A full queue, with two load test clients.
abbrev full_queue : QueueState
full_queue = record {
  chan = record { items = 0 ∷ []; cap = 1; closed = false };
  cells = 4 ∷ [];
  dropped = [];
}

abbrev settings : Settings
settings = record {
  ignore_read_only = true;
  cmd_cache = (str "GET", some true) ∷ [];
  process_all = false;
  load_test_clients = 4 ∷ 5 ∷ [];
}

connector-Answers_example :
    Answers
      (do_cmd server (str "SET") [] false)
      (connector_do server settings (str "SET") [] full_queue false)
    × Answers
        (pipeline server ((simple (str "GET") ∷ []) ∷ []) false)
        (connector_pipeline server settings ((simple (str "GET") ∷ []) ∷ []) full_queue false)
    × Answers
        (run server script [] false)
        (connector_run server settings script [] full_queue false)
    × Answers
        (publish server (str "SET") (bulk (str "on")) false)
        (connector_publish server settings (str "SET") (bulk (str "on")) full_queue false)
    × ((r : Subscription × Bool) × (subscribe_to server (pos 5) (str "news" ∷ []) false ≡ some r)
        × Answers r
            (connector_subscribe server settings (pos 5) (str "news" ∷ []) full_queue false))
connector-Answers_example =
    connector-Answers server settings full_queue false (str "SET") []
      ((simple (str "GET") ∷ []) ∷ []) script (bulk (str "on")) 5 (str "news" ∷ []) refl
      (refl, omega arith)

-- The channel is closed, the call returns, the monitor returns.
abbrev shut_life : Life
shut_life = record { closers = 0; callers = 0; closed = true; monitored = false; crashed = false }

shut-Steps : Steps 3 (shut_down new_life) shut_life
unfolding new_life shut_down
shut-Steps =
    one_more (close_chan 0 1 true)
      (one_more (return_closed 0 0 true) (one_more (stop_monitor 0 0) none_left))

shut_down-Ends_example :
    (3 ≤ 3)
    × (shut_life.crashed ≡ false)
    × (IsOver shut_life
        → (shut_life.callers ≡ 0) × (shut_life.closed ≡ true) × (shut_life.monitored ≡ false))
shut_down-Ends_example = shut_down-Ends 3 shut_life shut-Steps

shut_down-crashes_example : (k : ℕ) × (s : Life) × Steps k (calls 2) s × (s.crashed ≡ true)
shut_down-crashes_example = shut_down-crashes 0
