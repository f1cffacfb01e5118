-- ===== src/Connector/Commands/Mirrored.antt =====
-- The load test queue of connector.go does not stand in the way of the main client.
use grab_redis.Base.{ℕ, ◌≤◌, ◌≡◌, refl, false, Bool-cases, Option, some, List, [], length, inl, inr}
use grab_redis.Base.Int.{pos}
use grab_redis.Base.Text.{Str}
use grab_redis.Client.{Server, do_cmd, pipeline, run, publish, subscribe_to}
use grab_redis.Client.Subscribe.{Subscription, subscribe}
use grab_redis.Connector.Commands.{
  Event, Ran, ran, Settings, mirrored, connector_do, connector_pipeline, connector_run,
  connector_publish, connector_subscribe,
}
use grab_redis.Connector.Queue.{QueueState, Sent, sent, blocked, panicked, mirrors}
use grab_redis.Connector.Queue.Account.{Accounts, queue_load_test-Accounts}
use grab_redis.Errors.{Error}
use grab_redis.Redisapi.Script.{Script}
use grab_redis.Redisapi.Value.{Value}

-- The channel is open and within its capacity.
abbrev pub IsReady : QueueState → Type 0
IsReady q = (q.chan.closed ≡ false) × (length q.chan.items ≤ q.chan.cap)

-- The command returned the answer of the main client, and left its server as it did.
abbrev pub Answers : {A S : Type 0} → A × S → Ran A S → Type 0
Answers {A} {S} r m = (q : QueueState) × (events : List Event) × (m ≡ ran r.0 q r.1 events)

sent_of_Accounts :
    (n : ℕ) (q : QueueState) (r : Sent) → Accounts n q r → (q' : QueueState) × (r ≡ sent q')
sent_of_Accounts n q (sent q') a = (q', refl)
sent_of_Accounts n q blocked a = absurd a
sent_of_Accounts n q panicked a = absurd a

mirrored-Answers :
    {A S : Type 0} (c : Settings) (error_of : A → Option Error) (r : A × S) (q : QueueState)
    → c.process_all ≡ false
    → IsReady q
    → Answers r (mirrored c error_of r q)
unfolding mirrored
mirrored-Answers c error_of r q off (open', room) =
    let a = queue_load_test-Accounts c.load_test_clients q open' room in
    let (q', h) = sent_of_Accounts (length c.load_test_clients) q _ a in
    rw (off, mirrored) (rw h (_, _, refl))

-- Without `ProcessAllLoadTestPackets`, with a stats client and a logger, on an open queue, however full
-- it is and whichever load test clients there are, `Do`, `Pipeline`, `Run`, `Publish` and `Subscribe` with a size that is not negative
-- return, with the reply and the error of the main client and the effect on the server that the main
-- client alone has.
pub connector-Answers :
    (srv : Server) (c : Settings) (q : QueueState) (s : srv.State) (cmd_name : Str)
    (args : List Value) (args_list : List (List Value)) (script : Script) (value : Value) (size : ℕ)
    (channels : List Str)
    → c.process_all ≡ false
    → IsReady q
    → Answers (do_cmd srv cmd_name args s) (connector_do srv c cmd_name args q s)
      × Answers (pipeline srv args_list s) (connector_pipeline srv c args_list q s)
      × Answers (run srv script args s) (connector_run srv c script args q s)
      × Answers (publish srv cmd_name value s) (connector_publish srv c cmd_name value q s)
      × ((r : Subscription × srv.State) × (subscribe_to srv (pos size) channels s ≡ some r)
          × Answers r (connector_subscribe srv c (pos size) channels q s))
unfolding connector_do connector_pipeline connector_run connector_publish connector_subscribe
    subscribe_to subscribe
connector-Answers srv c q s cmd_name args args_list script value size channels off ready = (
  elim (Bool-cases (mirrors c.ignore_read_only c.cmd_cache cmd_name)) [
    | inl e ↦ rw (e, connector_do) (mirrored-Answers c _ (do_cmd srv cmd_name args s) q off ready)
    | inr e ↦ rw (e, connector_do) (q, [], refl)
  ],
  mirrored-Answers c _ (pipeline srv args_list s) q off ready,
  mirrored-Answers c _ (run srv script args s) q off ready,
  mirrored-Answers c _ (publish srv cmd_name value s) q off ready,
  (_, refl, mirrored-Answers c _ _ q off ready),
)
