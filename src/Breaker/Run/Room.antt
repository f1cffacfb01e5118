-- ===== src/Breaker/Run/Room.antt =====
-- `Go` of circuitbreaker/circuit_breaker.go without a fallback, which no option sets: what is sent fits
-- into the channels, also after a timeout.
use grab_redis.Base.{◌≤◌, ◌≡◌, refl, Option, none, some, [], length, arith, inl, inr}
use grab_redis.Breaker.Options.{CbOption}
use grab_redis.Breaker.Run.{
  Outcome, Attempt, ran, refused, timed_out, Messages, HystrixGo, run, fallback_soft, go, Received,
  fatal_error,
}
use grab_redis.Breaker.Run.Once.{KeepsThreats, run_cases, Sends, go-Sends, Sends-Received}
use grab_redis.Errors.{Error}

-- One message at most on each channel, and an answer to receive.
pub record Settles (m : Messages) : Type 0 where
  pub soft_room : length m.soft ≤ 1
  pub fatal_room : length m.fatal ≤ 1
  pub answer : (r : Option Error) × Received m none r

Sends-Settles : (r : Option Error) (m : Messages) → Sends m r → Settles m
Sends-Settles r m (inl (soft, fatal)) = record {
  soft_room = rw soft (omega arith);
  fatal_room = rw fatal (omega arith);
  answer = (r, Sends-Received r m (inl (soft, fatal)));
}
Sends-Settles r m (inr (soft, (e, is, fatal))) = record {
  soft_room = rw soft (omega arith);
  fatal_room = rw fatal (omega arith);
  answer = (r, Sends-Received r m (inr (soft, (e, is, fatal))));
}

-- A run sends at most once.
length-run : (option : CbOption) (o : Outcome) → KeepsThreats option → length (run option o).1 ≤ 1
length-run option o keeps = elim (run_cases option o keeps) [
  | inl (r, e) ↦ rw e (omega arith)
  | inr (x, e) ↦ rw e (omega arith)
]

module _ (h : HystrixGo) where
  -- A handler that keeps its threats, and no fallback: every attempt, one that times out included,
  -- leaves an answer for `Do`, and sends at most one message on each channel, so that no goroutine of
  -- `Go` is blocked on softErrorCh, which has room for one.
  pub go-Settles :
      (option : CbOption) (a : Attempt)
      → KeepsThreats option
      → option.fallback_handler ≡ none
      → Settles (go h option a)
  unfolding go fallback_soft
  go-Settles option (ran o) keeps bare =
      let (r, s) = go-Sends h option (ran o) keeps refl in Sends-Settles r _ s
  go-Settles option (refused e) keeps bare =
      let (r, s) = go-Sends h option (refused e) keeps refl in Sends-Settles r _ s
  go-Settles option (timed_out e o) keeps bare =
      let (x, sent) = h.failure e in
      rw (bare, go)
        (rw (sent, go)
          (record {
            soft_room = length-run option o keeps;
            fatal_room = omega arith;
            answer = (some x, fatal_error x [] refl refl);
          }))
