-- ===== src/Tests/MirrorRuns.antt =====
-- connector.go, scheduler.go and latencies.go at concrete inputs.
use grab_redis.Base.{◌≡◌, refl, false, some, [], ◌∷◌, arith}
use grab_redis.Base.Int.{pos}
use grab_redis.Connector.Queue.{QueueState, queue_load_test}
use grab_redis.Connector.Queue.Alias.{AllSee, queue_load_test-last}
use grab_redis.Latencies.{Latencies, new_latencies, inc}
use grab_redis.Latencies.Concurrent.{Adding, no_calls, take_index}
use grab_redis.Latencies.Concurrent
use grab_redis.Latencies.Concurrent.Settled.{Settled, latencies_concurrent}
use grab_redis.Latencies.Concurrent.Kept
use grab_redis.Latencies.Recent.{add_all, Holds, latencies_recent}
use grab_redis.Scheduler.{Scheduler, new_scheduler, Reach, here, next, enqueue, tick, spawn, begin}
use grab_redis.Scheduler.Counts.{Inv, scheduler-Inv}

-- One function is queued, and there is room for one more.
abbrev queue : QueueState
queue = record {
  chan = record { items = 0 ∷ []; cap = 2; closed = false };
  cells = 4 ∷ [];
  dropped = [];
}

queue_load_test-last_example : AllSee 1 6 queue (queue_load_test false (5 ∷ 6 ∷ []) queue)
queue_load_test-last_example = queue_load_test-last 5 (6 ∷ []) queue refl

latencies_recent_example :
    (l : Latencies) × (add_all (pos 3 ∷ pos 1 ∷ pos 2 ∷ []) (new_latencies 2) ≡ some l)
    × Holds 2 (pos 3 ∷ pos 1 ∷ pos 2 ∷ []) l
latencies_recent_example =
    latencies_recent 2 (pos 3 ∷ pos 1 ∷ pos 2 ∷ []) (omega arith) (omega arith)

-- The first of two calls of `Add` has its index.
abbrev one_adding : Adding
one_adding = record {
  ring = record { values = pos 0 ∷ pos 0 ∷ []; index = pos 0; added = pos 0 };
  given = pos 3 ∷ [];
  taken = (pos 0, pos 3) ∷ [];
  stored = 0;
}

one_added : Concurrent.Reach (no_calls 2) one_adding
unfolding new_latencies inc
one_added = Concurrent.next Concurrent.here (take_index (pos 3))

latencies_concurrent_example :
    Kept.Inv 2 one_adding × (one_adding.taken ≡ [] → one_adding.stored ≡ 0 → Settled 2 one_adding)
latencies_concurrent_example =
    latencies_concurrent 2 one_adding (omega arith) one_added (omega arith)

-- A function arrives, the ticker asks for one worker, and the worker signs on.
abbrev queued : Scheduler
queued = record (new_scheduler 3 1) { queue = 8 ∷ [] }

started : Reach (new_scheduler 3 1) (record queued { wg = 1; active = 1; num_worker = 1 })
unfolding new_scheduler
started =
    next
      (next (next (next here (enqueue 8 refl (omega arith))) (tick 1 refl refl (λ e. cc)))
        (spawn 0 refl (omega arith)))
      (begin 0 refl)

scheduler-Inv_example : Inv (record queued { wg = 1; active = 1; num_worker = 1 })
scheduler-Inv_example =
    scheduler-Inv 3 1 (record queued { wg = 1; active = 1; num_worker = 1 }) started
