-- ===== src/Connector/Shutdown/Late.antt =====
-- What the scheduler can still do after `wg.Wait()` in `ShutDown` of connector.go.
use grab_redis.Base.{ℕ, ◌<◌, ◌≡◌, ◌≢◌, refl, true, List, [], ◌∷◌, arith}
use grab_redis.Connector.Shutdown.{
  Closing, not_closing, schedule, shut_main, cancel, wait, shut_load_tests, Reach, here, next,
}
use grab_redis.Scheduler.{new_scheduler, enqueue, tick, spawn, begin}

one_left : (fn : ℕ) → fn ∷ [] ≢ []
one_left fn h = ground arith

-- However large the channel and however few the workers, a function that is in the channel when
-- `ShutDown` waits can still find a worker afterwards: `ShutDown` has returned from its wait and told
-- every load test client to shut down, and a worker then starts with the function still to be run.
pub late_worker :
    (load_tests : List ℕ) (chan_size max_worker fn : ℕ)
    → 0 < chan_size
    → 0 < max_worker
    → (t : Closing) × Reach load_tests (not_closing (new_scheduler chan_size max_worker)) t
      × (t.waited ≡ true)
      × (t.shut ≡ load_tests)
      × (t.load_test_scheduler.active ≡ 1)
      × (t.load_test_scheduler.queue ≡ fn ∷ [])
unfolding new_scheduler
late_worker load_tests c m fn pc pm =
    let new : Closing = not_closing (new_scheduler c m) in
    let busy : Closing = record new {
      load_test_scheduler = record (new_scheduler c m) { queue = fn ∷ [] };
    } in
    let queued : Reach load_tests new busy = next here (schedule (enqueue fn refl pc) refl) in
    let over : Closing = record {
      load_test_scheduler = record (new_scheduler c m) { queue = fn ∷ []; cancelled = true };
      main_shut = true;
      waited = true;
      shut = load_tests;
    } in
    let ended : Reach load_tests new over =
      next (next (next (next queued (shut_main refl)) (cancel refl)) (wait refl refl refl))
        (shut_load_tests refl) in
    (
      _,
      next
          (next (next ended (schedule (tick 1 refl refl (one_left fn)) refl))
            (schedule (spawn 0 refl pm) refl))
          (schedule (begin 0 refl) refl),
      refl,
      refl,
      refl,
      refl,
    )
