-- ===== src/Scheduler.antt =====
-- scheduler.go: options, the number of workers to start, and the scheduler as a step relation over
-- the interleavings of the starting loop and the workers.
pub mod Counts
pub mod Closes
use grab_redis.Base.{
  ℕ, zero, suc, ◌+◌, ◌<◌, ◌≤◌, ◌≡◌, ◌≢◌, Bool, true, false, List, [], ◌∷◌, ◌++◌, length, ◌==◌,
  nat_eq, if◌then◌else◌,
}
use grab_redis.Base.Int.{ℤ, pos, negsuc, is_positive}
use grab_redis.Config.Records.{
  default_max_chan_size, default_max_worker, default_worker_idle_timeout,
}
use grab_redis.Float.{Float64}

pub record SchedulerOptions : Type 0 where
  pub max_chan_size : ℤ
  pub max_worker : ℤ
  -- nanoseconds
  pub worker_idle_timeout : ℤ

-- `normalise`
unfoldable pub normalise : SchedulerOptions → SchedulerOptions
normalise s = record {
  max_chan_size = if is_positive s.max_chan_size then s.max_chan_size else default_max_chan_size;
  max_worker = if is_positive s.max_worker then s.max_worker else default_max_worker;
  worker_idle_timeout =
      if is_positive s.worker_idle_timeout
      then s.worker_idle_timeout
      else default_worker_idle_timeout;
}

-- How many workers one tick asks for; `avg_latency` is in nanoseconds.
module _ (f : Float64) where
  open f use {Float, of_int, mul, div, ceil}

  unfoldable pub workers_needed : ℕ → Float → ℤ
  workers_needed backlog avg_latency =
      if f.is_positive avg_latency
      then ceil (mul (of_int (pos backlog)) (div avg_latency (of_int (pos 1000000000))))
      else pos 1

-- The scheduler between two atomic actions. A function in the channel is a number. A worker is
-- first `spawned` (its goroutine has not yet run `numWorker.Inc`), then `active`, then `leaving`
-- (after `wg.Done`, before `numWorker.Dec`). `budget` is what is left of `need` in the loop of
-- `start`.
pub record Scheduler : Type 0 where
  pub queue : List ℕ
  pub chan_size : ℕ
  pub max_worker : ℕ
  pub budget : ℕ
  pub spawned : ℕ
  pub active : ℕ
  pub leaving : ℕ
  pub num_worker : ℕ
  pub wg : ℕ
  pub cancelled : Bool
  pub closed : Bool

unfoldable pub new_scheduler : ℕ → ℕ → Scheduler
new_scheduler chan_size max_worker = record {
  queue = [];
  chan_size = chan_size;
  max_worker = max_worker;
  budget = 0;
  spawned = 0;
  active = 0;
  leaving = 0;
  num_worker = 0;
  wg = 0;
  cancelled = false;
  closed = false;
}

pub data Step (s : Scheduler) : Scheduler → Type 0 where
  -- a sender, while there is room
  enqueue :
      (fn : ℕ)
      → s.closed ≡ false
      → length s.queue < s.chan_size
      → Step s (record s { queue = s.queue ++ (fn ∷ []) })
  -- the ticker of `start` fires on a backlog; `need` stands for what the averages ask for, and is any
  -- number here, so there are more steps than the averages allow
  tick :
      (need : ℕ)
      → s.closed ≡ false
      → s.budget ≡ 0
      → s.queue ≢ []
      → Step s (record s { budget = need })
  -- one round of the inner loop: the test on `numWorker`, `wg.Add(1)` and the `go` statement
  spawn :
      (b : ℕ)
      → s.budget ≡ suc b
      → s.num_worker < s.max_worker
      → Step s (record s { budget = b; wg = s.wg + 1; spawned = s.spawned + 1 })
  -- the inner loop ends on its test
  stop : s.max_worker ≤ s.num_worker → Step s (record s { budget = 0 })
  -- a worker's `numWorker.Inc`
  begin :
      (k : ℕ)
      → s.spawned ≡ suc k
      → Step s (record s { spawned = k; active = s.active + 1; num_worker = s.num_worker + 1 })
  -- an active worker takes the oldest function and runs it
  take :
      (fn : ℕ) (rest : List ℕ) (k : ℕ)
      → s.active ≡ suc k
      → s.queue ≡ fn ∷ rest
      → Step s (record s { queue = rest })
  -- idle timeout or cancellation: the deferred `wg.Done`, then the deferred `numWorker.Dec`
  leave :
      (k w : ℕ)
      → s.active ≡ suc k
      → s.wg ≡ suc w
      → Step s (record s { active = k; leaving = s.leaving + 1; wg = w })
  gone :
      (k n : ℕ)
      → s.leaving ≡ suc k
      → s.num_worker ≡ suc n
      → Step s (record s { leaving = k; num_worker = n })
  cancel : Step s (record s { cancelled = true })
  -- `start` after the cancellation: `wg.Wait()`, then `close(fnChan)`
  close :
      s.closed ≡ false
      → s.cancelled ≡ true
      → s.budget ≡ 0
      → s.wg ≡ 0
      → Step s (record s { closed = true })

pub data Reach (s : Scheduler) : Scheduler → Type 0 where
  here : Reach s s
  next : {t u : Scheduler} → Reach s t → Step t u → Reach s u
