-- ===== src/Breaker/Run.antt =====
-- circuitbreaker/circuit_breaker.go: `Go` and `Do`. The two channels are lists of the messages that
-- are sent on them; the hystrix library is a parameter.
pub mod Once
pub mod Room
use grab_redis.Base.{Bool, true, false, Option, none, some, List, [], ◌∷◌, ◌++◌, ◌≡◌, if◌then◌else◌}
use grab_redis.Base.Text.{Str}
use grab_redis.Breaker.Options.{
  CbOption, CbSetter, make_option, or_else, default_user_error_handler,
}
use grab_redis.Errors.{Error, routine_panic}

-- How the routine ends: it returns an error or nil, or it panics with a value of some text.
pub data Outcome : Type 0 where
  returned : Option Error → Outcome
  panicked : Str → Outcome

-- What is sent: `none` in `soft` is the nil error.
pub record Messages : Type 0 where
  pub soft : List (Option Error)
  pub fatal : List Error

-- `handleError`: what the run returns to hystrix, and what it sends on softErrorCh.
pub handle_error : CbOption → Option Error → Option Error × List (Option Error)
handle_error option none = (none, none ∷ [])
handle_error option (some e) =
    let (is_error_safe, err) =
      (or_else option.user_err_handler default_user_error_handler) (some e) in
    if is_error_safe then (none, some e ∷ []) else (err, [])

-- The run with its deferred `recover`.
unfoldable pub run : CbOption → Outcome → Option Error × List (Option Error)
unfolding handle_error
run option (returned e) = handle_error option e
run option (panicked text) = handle_error option (some (routine_panic text))

-- How hystrix ends a command: by the run, without it (circuit open, too many requests), or by a
-- timeout, after which the run still ends, in a goroutine of its own.
pub data Attempt : Type 0 where
  ran : Outcome → Attempt
  refused : Error → Attempt
  timed_out : Error → Outcome → Attempt

abbrev pub in_time : Attempt → Bool
in_time (timed_out e o) = false
in_time _ = true

-- What hystrix.Go sends on its error channel: nothing after a run that returns nil; after an error
-- with no fallback, an error; with a fallback, an error unless the fallback returns nil.
pub record HystrixGo : Type 0 where
  pub sends : Option (Error → Option Error) → Option Error → List Error
  pub success : (fallback : Option (Error → Option Error)) → sends fallback none ≡ []
  pub failure : (e : Error) → (x : Error) × (sends none (some e) ≡ x ∷ [])
  pub recovered : (f : Error → Option Error) (e : Error) → f e ≡ none → sends (some f) (some e) ≡ []
  pub unrecovered :
      (f : Error → Option Error) (e x : Error)
      → f e ≡ some x
      → (y : Error) × (sends (some f) (some e) ≡ y ∷ [])

-- The wrapped fallback sends nil on softErrorCh where the user's returns nil.
unfoldable pub fallback_soft : Option (Error → Option Error) → Option Error → List (Option Error)
fallback_soft none e = []
fallback_soft (some f) none = []
fallback_soft (some f) (some e) = elim (f e) [ none ↦ none ∷ [] | some x ↦ [] ]

module _ (h : HystrixGo) where
  -- The messages of `Go`, by how the attempt ends.
  unfoldable pub go : CbOption → Attempt → Messages
  unfolding run fallback_soft
  go option (refused e) = record {
    soft = fallback_soft option.fallback_handler (some e);
    fatal = h.sends option.fallback_handler (some e);
  }
  go option (ran outcome) =
      let (output, sent) = run option outcome in
      record {
        soft = sent ++ fallback_soft option.fallback_handler output;
        fatal = h.sends option.fallback_handler output;
      }
  go option (timed_out e outcome) = record {
    soft = fallback_soft option.fallback_handler (some e) ++ (run option outcome).1;
    fatal = h.sends option.fallback_handler (some e);
  }

-- `aggregateError`: the value that the reader may receive; the select takes any case that is ready.
pub data Received (m : Messages) (ctx : Option Error) (r : Option Error) : Type 0 where
  soft_error : (rest : List (Option Error)) → m.soft ≡ r ∷ rest → Received m ctx r
  fatal_error : (e : Error) (rest : List Error) → m.fatal ≡ e ∷ rest → r ≡ some e → Received m ctx r
  context_error : (e : Error) → ctx ≡ some e → r ≡ some e → Received m ctx r
