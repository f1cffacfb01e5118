-- ===== src/Wrapper/Calls.antt =====
-- The setters of a goredis client that a reload calls, in the order of the calls, and what a client
-- of goredis shows of its options after them.
use grab_redis.Base.{Bool, Option, List, ◌≡◌, refl, [], ◌∷◌, ◌++◌}
use grab_redis.Base.Int.{ℤ}
use grab_redis.Base.Text.{Str}
use grab_redis.Limiter.{Limiter, Effect}

-- `set_shard_limiter addr` is SetLimiter on the client of one shard of a cluster; `hystrix` is a
-- call of the hystrix library between two of them.
pub data Call : Type 0 where
  set_username set_password : Str → Call
  set_max_retries set_min_retry_backoff set_max_retry_backoff set_dial_timeout set_read_timeout
        set_write_timeout set_pool_size set_min_idle_conns set_max_idle_conns set_max_conn_age
        set_pool_timeout set_idle_timeout set_idle_check_frequency set_max_redirects :
      ℤ → Call
  set_limiter : Option Limiter → Call
  set_shard_limiter : Str → Option Limiter → Call
  set_read_only set_route_by_latency set_route_randomly : Bool → Call
  hystrix : Effect → Call

-- A goredis client: its state, what a setter makes of it, and the view that it gives. The law says
-- that a setter changes the view as `set` says and nothing else does.
pub record Goredis {ℓ} (View : Type ℓ) (set : Call → View → View) : Type (ℓ + 1) where
  pub State : Type ℓ
  pub call : Call → State → State
  pub view : State → View
  pub view-call : (k : Call) (s : State) → view (call k s) ≡ set k (view s)

module _ {ℓ} {View : Type ℓ} (set : Call → View → View) where
  -- The view after a list of calls.
  unfoldable pub replay : View → List Call → View
  replay v [] = v
  replay v (k ∷ ks) = replay (set k v) ks

  pub replay-append : (v : View) (ks ls : List Call) → replay v (ks ++ ls) ≡ replay (replay v ks) ls
  unfolding replay
  replay-append v [] ls = refl
  replay-append v (k ∷ ks) ls = replay-append (set k v) ks ls

module _ {ℓ} {View : Type ℓ} {set : Call → View → View} (g : Goredis View set) where
  pub run_calls : g.State → List Call → g.State
  run_calls s [] = s
  run_calls s (k ∷ ks) = run_calls (g.call k s) ks

  pub view-run_calls :
      (s : g.State) (ks : List Call) → g.view (run_calls s ks) ≡ replay set (g.view s) ks
  unfolding run_calls replay
  view-run_calls s [] = refl
  view-run_calls s (k ∷ ks) = rw (← g.view-call k s) (view-run_calls (g.call k s) ks)
