-- ===== src/Connector/Shutdown/Completes.antt =====
-- `ShutDown` of connector.go can come to its end.
use grab_redis.Base.{ℕ, ◌≡◌, ◌∙◌, sym, refl, subst, true, List, Bool-cases, inl, inr}
use grab_redis.Connector.Shutdown.{
  Closing, not_closing, schedule, shut_main, cancel, wait, shut_load_tests, Reach, here, next,
}
use grab_redis.Scheduler.{Scheduler, new_scheduler}
use grab_redis.Scheduler
use grab_redis.Scheduler.Closes.{scheduler_closes, IsEmpty}

-- A scheduler that is cancelled stays so.
Step-cancelled : {s t : Scheduler} → Scheduler.Step s t → s.cancelled ≡ true → t.cancelled ≡ true
Step-cancelled (Scheduler.enqueue fn o room) c = c
Step-cancelled (Scheduler.tick need o b q) c = c
Step-cancelled (Scheduler.spawn b e m) c = c
Step-cancelled (Scheduler.stop m) c = c
Step-cancelled (Scheduler.begin k e) c = c
Step-cancelled (Scheduler.take fn rest k e q) c = c
Step-cancelled (Scheduler.leave k w e f) c = c
Step-cancelled (Scheduler.gone k n e f) c = c
Step-cancelled Scheduler.cancel c = refl
Step-cancelled (Scheduler.close o e b w) c = c

Reach-cancelled : {s t : Scheduler} → Scheduler.Reach s t → s.cancelled ≡ true → t.cancelled ≡ true
Reach-cancelled Scheduler.here c = c
Reach-cancelled (Scheduler.next r st) c = Step-cancelled st (Reach-cancelled r c)

module _ (load_tests : List ℕ) where
  Reach-trans :
      {s t u : Closing} → Reach load_tests s t → Reach load_tests t u → Reach load_tests s u
  Reach-trans r here = r
  Reach-trans r (next q st) = next (Reach-trans r q) st

  -- A run of a cancelled scheduler is one of the whole.
  lift_run :
      (s : Closing) {t : Scheduler}
      → Scheduler.Reach s.load_test_scheduler t
      → s.load_test_scheduler.cancelled ≡ true
      → Reach load_tests s (record s { load_test_scheduler = t })
  lift_run s Scheduler.here c = here
  lift_run s (Scheduler.next r st) c =
      let before = Reach-cancelled r c in
      next (lift_run s r c) (schedule st (Step-cancelled st before ∙ sym before))

  -- The scheduler of a state that can be reached, on its own.
  scheduler_run :
      {s t : Closing}
      → Reach load_tests s t
      → Scheduler.Reach s.load_test_scheduler t.load_test_scheduler
  scheduler_run here = Scheduler.here
  scheduler_run (next r (schedule st e)) = Scheduler.next (scheduler_run r) st
  scheduler_run (next r (shut_main e)) = scheduler_run r
  scheduler_run (next r (cancel e)) = Scheduler.next (scheduler_run r) Scheduler.cancel
  scheduler_run (next r (wait e c w)) = scheduler_run r
  scheduler_run (next r (shut_load_tests e)) = scheduler_run r

  -- The main client is shut down, if it was not before.
  main_first : (s : Closing) → Reach load_tests s (record s { main_shut = true })
  main_first s = elim (Bool-cases s.main_shut) [
    | inl e ↦ subst (λ b. Reach load_tests s (record s { main_shut = b })) e here
    | inr e ↦ next here (shut_main e)
  ]

  -- From every state of a connector whose scheduler is new at first, with a call of `ShutDown` at any
  -- point or none so far, the goroutines can run so that `ShutDown` ends, where the context of the
  -- scheduler is cancelled by `ShutDown` alone: it is cancelled, the scheduler has closed its channel
  -- and has no worker, and every load test client is told to shut down.
  pub connector_shuts_down :
      (chan_size max_worker : ℕ) (s : Closing)
      → Reach load_tests (not_closing (new_scheduler chan_size max_worker)) s
      → (t : Closing) × Reach load_tests s t
        × (t.main_shut ≡ true)
        × (t.waited ≡ true)
        × (t.shut ≡ load_tests)
        × (t.load_test_scheduler.cancelled ≡ true)
        × (t.load_test_scheduler.closed ≡ true)
        × IsEmpty t.load_test_scheduler
  connector_shuts_down chan_size max_worker s r =
      let s1 : Closing = record s { main_shut = true } in
      let s2 : Closing = record s1 {
        load_test_scheduler = record (s.load_test_scheduler) { cancelled = true };
      } in
      let (u, q, shut, empty, w, n) =
        scheduler_closes chan_size max_worker s2.load_test_scheduler
          (Scheduler.next (scheduler_run r) Scheduler.cancel) in
      let stays : u.cancelled ≡ true = Reach-cancelled q refl in
      let to_cancelled : Reach load_tests s s2 = next (main_first s) (cancel refl) in
      let to_empty : Reach load_tests s (record s2 { load_test_scheduler = u }) =
        Reach-trans to_cancelled (lift_run s2 q refl) in
      (
        record s2 { load_test_scheduler = u; waited = true; shut = load_tests },
        next (next to_empty (wait refl stays w)) (shut_load_tests refl),
        refl,
        refl,
        refl,
        stays,
        shut,
        empty,
      )
