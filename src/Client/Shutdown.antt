-- ===== src/Client/Shutdown.antt =====
-- client.go: `ShutDown` and `monitorPool`, as the atomic actions of their goroutines. `Close` of
-- goredis returns, and the context of a call may be done at any time.
pub mod Ends
use grab_redis.Base.{ℕ, suc, Bool, true, false}

-- `closers` are the goroutines that `ShutDown` has started and that have not closed `closeChan`,
-- `callers` the calls of `ShutDown` that wait in its select.
pub record Life : Type 0 where
  pub closers : ℕ
  pub callers : ℕ
  pub closed : Bool
  pub monitored : Bool
  pub crashed : Bool

-- A client after `newClient`.
unfoldable pub new_life : Life
new_life = record { closers = 0; callers = 0; closed = false; monitored = true; crashed = false }

-- A call of `ShutDown`, up to the select.
unfoldable pub shut_down : Life → Life
shut_down s = record s { closers = suc s.closers; callers = suc s.callers }

-- What can happen next, without another call.
pub data Step : Life → Life → Type 0 where
  -- `close(c.closeChan)`
  close_chan :
      (m n : ℕ) (b : Bool)
      → Step
          (record { closers = suc m; callers = n; closed = false; monitored = b; crashed = false })
          (record { closers = m; callers = n; closed = true; monitored = b; crashed = false })
  -- the panic of a second close
  close_again :
      (m n : ℕ) (b : Bool)
      → Step
          (record { closers = suc m; callers = n; closed = true; monitored = b; crashed = false })
          (record { closers = m; callers = n; closed = true; monitored = b; crashed = true })
  -- a call returns: the channel is closed, or its context is done
  return_closed :
      (m n : ℕ) (b : Bool)
      → Step
          (record { closers = m; callers = suc n; closed = true; monitored = b; crashed = false })
          (record { closers = m; callers = n; closed = true; monitored = b; crashed = false })
  return_done :
      (m n : ℕ) (c b : Bool)
      → Step
          (record { closers = m; callers = suc n; closed = c; monitored = b; crashed = false })
          (record { closers = m; callers = n; closed = c; monitored = b; crashed = false })
  -- `monitorPool` returns
  stop_monitor :
      (m n : ℕ)
      → Step
          (record { closers = m; callers = n; closed = true; monitored = true; crashed = false })
          (record { closers = m; callers = n; closed = true; monitored = false; crashed = false })

-- Runs of so many steps.
pub data Steps : ℕ → Life → Life → Type 0 where
  none_left : {s : Life} → Steps 0 s s
  one_more : {k : ℕ} {s t u : Life} → Step s t → Steps k t u → Steps (suc k) s u
