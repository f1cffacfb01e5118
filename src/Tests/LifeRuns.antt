-- ===== src/Tests/LifeRuns.antt =====
-- The end of a connector and the messages of a subscription at concrete inputs.
use grab_redis.Base.{◌≡◌, refl, true, false, none, List, [], ◌∷◌, ℕ, arith}
use grab_redis.Base.Text.{str}
use grab_redis.Client.Subscribe
use grab_redis.Client.Subscribe.{Message, Subscription, subscribe, arrive, read}
use grab_redis.Client.Subscribe.Order
use grab_redis.Client.Subscribe.Order.{Delivered, subscribe-Delivered}
use grab_redis.Connector.Shutdown.{Closing, not_closing, Reach, here, next, schedule, shut_main}
use grab_redis.Connector.Shutdown.Completes.{connector_shuts_down}
use grab_redis.Scheduler.Closes.{IsEmpty}
use grab_redis.Scheduler.{new_scheduler, enqueue}

-- Two load test clients; a function is queued, and the main client is shut down.
abbrev load_tests : List ℕ
load_tests = 1 ∷ 2 ∷ []

abbrev half_shut : Closing
half_shut = record (not_closing (record (new_scheduler 3 1) { queue = 8 ∷ [] })) {
  main_shut = true;
}

half_way : Reach load_tests (not_closing (new_scheduler 3 1)) half_shut
unfolding new_scheduler
half_way = next (next here (schedule (enqueue 8 refl (omega arith)) refl)) (shut_main refl)

connector_shuts_down_example :
    (t : Closing) × Reach load_tests half_shut t
    × (t.main_shut ≡ true)
    × (t.waited ≡ true)
    × (t.shut ≡ load_tests)
    × (t.load_test_scheduler.cancelled ≡ true)
    × (t.load_test_scheduler.closed ≡ true)
    × IsEmpty t.load_test_scheduler
connector_shuts_down_example = connector_shuts_down load_tests 3 1 half_shut half_way

abbrev hello : Message
hello = record { channel = str "news"; payload = str "hello" }

abbrev subscribed : Subscription
subscribed = record {
  arrived = [];
  source = [];
  source_closed = false;
  held = none;
  buffer = [];
  cap = 1;
  closed = false;
  received = [];
}

abbrev one_arrived : Subscription
one_arrived = record subscribed { arrived = hello ∷ []; source = hello ∷ [] }

subscribe-Delivered_example :
    Order.Inv 1 one_arrived × ((u : Subscription) × Delivered one_arrived u)
unfolding subscribe
subscribe-Delivered_example =
    subscribe-Delivered 1 subscribed one_arrived refl
      (Subscribe.next Subscribe.here (arrive hello refl))
