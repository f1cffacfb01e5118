-- ===== src/Scheduler/Counts.antt =====
-- The counters of scheduler.go in every interleaving.
use grab_redis.Base.{ℕ, ◌+◌, ◌≤◌, ◌≡◌, true, [], ◌∷◌, length, length-append, arith}
use grab_redis.Scheduler.{
  Scheduler, new_scheduler, Step, enqueue, tick, spawn, stop, begin, take, leave, gone, cancel,
  close, Reach, here, next,
}

-- The wait group counts the workers that have not signed off, `numWorker` those that have signed on
-- and not yet off, and the channel holds at most its capacity. A closed channel has no worker.
pub record Inv (s : Scheduler) : Type 0 where
  pub waits : s.wg ≡ s.spawned + s.active
  pub counted : s.num_worker ≡ s.active + s.leaving
  pub fits : length s.queue ≤ s.chan_size
  pub quiet : s.closed ≡ true → (s.wg ≡ 0) × (s.budget ≡ 0)

new_scheduler-Inv : (chan_size max_worker : ℕ) → Inv (new_scheduler chan_size max_worker)
unfolding new_scheduler
new_scheduler-Inv c m = ground arith

pub Step-Inv : {s t : Scheduler} → Step s t → Inv s → Inv t
Step-Inv {s} (enqueue fn o r) i = ground (arith, length-append s.queue (fn ∷ []))
Step-Inv (tick need o b q) i = ground arith
Step-Inv (spawn b e l) i = ground arith
Step-Inv (stop l) i = ground arith
Step-Inv (begin k e) i = ground arith
Step-Inv (take fn rest k a q) i = ground arith
Step-Inv (leave k w a e) i = ground arith
Step-Inv (gone k n l e) i = ground arith
Step-Inv cancel i = ground arith
Step-Inv (close o c b w) i = ground arith

Reach-Inv : {s t : Scheduler} → Inv s → Reach s t → Inv t
Reach-Inv i here = i
Reach-Inv i (next r st) = Step-Inv st (Reach-Inv i r)

-- After any steps of a new scheduler: the wait group counts the workers that have not signed off,
-- `numWorker` those that have signed on and not yet off, the channel holds at most its capacity, and
-- once it is closed there is no worker and none is being started.
pub scheduler-Inv :
    (chan_size max_worker : ℕ) (t : Scheduler)
    → Reach (new_scheduler chan_size max_worker) t
    → Inv t
scheduler-Inv chan_size max_worker t r = Reach-Inv (new_scheduler-Inv chan_size max_worker) r
