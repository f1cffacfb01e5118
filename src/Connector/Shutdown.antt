-- ===== src/Connector/Shutdown.antt =====
-- connector.go: `ShutDown`, as one action after the other, while the goroutines of the scheduler go
-- on. The clients are numbers; what a client does to shut down is in Client.Shutdown.
pub mod Completes
pub mod Late
use grab_redis.Base.{ℕ, ◌≡◌, Bool, true, false, List, []}
use grab_redis.Scheduler.{Scheduler, new_scheduler}
use grab_redis.Scheduler

-- `main_shut` and `waited` say how far `ShutDown` is, and `shut` the load test clients for which it has
-- started a goroutine.
pub record Closing : Type 0 where
  pub load_test_scheduler : Scheduler
  pub main_shut : Bool
  pub waited : Bool
  pub shut : List ℕ

abbrev pub not_closing : Scheduler → Closing
not_closing s = record { load_test_scheduler = s; main_shut = false; waited = false; shut = [] }

pub data Step (load_tests : List ℕ) (s : Closing) : Closing → Type 0 where
  -- the scheduler goes on; what cancels its context is `ShutDown` alone
  schedule :
      {t : Scheduler}
      → Scheduler.Step s.load_test_scheduler t
      → t.cancelled ≡ s.load_test_scheduler.cancelled
      → Step load_tests s (record s { load_test_scheduler = t })
  -- `c.client.ShutDown(ctx)`
  shut_main : s.main_shut ≡ false → Step load_tests s (record s { main_shut = true })
  -- `c.schedulerCancel()`
  cancel :
      s.main_shut ≡ true
      → Step load_tests s
          (record s { load_test_scheduler = record (s.load_test_scheduler) { cancelled = true } })
  -- `c.loadTestScheduler.wg.Wait()` returns
  wait :
      s.main_shut ≡ true
      → s.load_test_scheduler.cancelled ≡ true
      → s.load_test_scheduler.wg ≡ 0
      → Step load_tests s (record s { waited = true })
  -- the loop over the load test clients
  shut_load_tests : s.waited ≡ true → Step load_tests s (record s { shut = load_tests })

pub data Reach (load_tests : List ℕ) (s : Closing) : Closing → Type 0 where
  here : Reach load_tests s s
  next : {t u : Closing} → Reach load_tests s t → Step load_tests t u → Reach load_tests s u
