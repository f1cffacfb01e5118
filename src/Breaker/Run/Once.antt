-- ===== src/Breaker/Run/Once.antt =====
-- `Go` and `Do` of circuitbreaker/circuit_breaker.go: one message for each attempt, so that the
-- reader gets an answer and no second one is left over.
use grab_redis.Base.{
  Bool, true, false, ◌≡◌, ◌≢◌, ◌⊎◌, inl, inr, refl, Option, none, some, List, [], ◌∷◌,
  if◌then◌else◌, arith, Option-cases,
}
use grab_redis.Breaker.Options.{CbOption, or_else, default_user_error_handler, IsNonThreatErr}
use grab_redis.Breaker.Run.{
  Outcome, returned, panicked, Attempt, ran, refused, timed_out, in_time, Messages, HystrixGo,
  handle_error, run, fallback_soft, go, Received, soft_error, fatal_error, context_error,
}
use grab_redis.Errors.{Error, routine_panic}

abbrev pub handler_of : CbOption → IsNonThreatErr
handler_of option = or_else option.user_err_handler default_user_error_handler

-- An error that the handler calls a threat comes back as an error, not as nil.
abbrev pub KeepsThreats : CbOption → Type 0
KeepsThreats option = (e : Error) → handler_of option (some e) ≢ (false, none)

-- The one message of an attempt is `r`, on either channel.
abbrev pub Sends : Messages → Option Error → Type 0
Sends m r =
    ((m.soft ≡ r ∷ []) × (m.fatal ≡ []))
    ⊎ ((m.soft ≡ []) × ((e : Error) × (r ≡ some e) × (m.fatal ≡ e ∷ [])))

-- What becomes of an error, by the handler's answer.
answer_cases :
    (e : Error) (p : Bool × Option Error)
    → p ≢ (false, none)
    → let out : Option Error × List (Option Error) =
        if p.0 then (none, some e ∷ []) else (p.1, []) in
      ((r : Option Error) × (out ≡ (none, r ∷ []))) ⊎ ((x : Error) × (out ≡ (some x, [])))
answer_cases e (true, x) keeps = inl (some e, refl)
answer_cases e (false, some x) keeps = inr (x, refl)
answer_cases e (false, none) keeps = absurd (keeps refl)

-- A run that returns an error has sent nothing; any other has sent once.
pub run_cases :
    (option : CbOption) (o : Outcome)
    → KeepsThreats option
    → ((r : Option Error) × (run option o ≡ (none, r ∷ [])))
      ⊎ ((e : Error) × (run option o ≡ (some e, [])))
unfolding run handle_error
run_cases option (returned none) keeps = inl (none, refl)
run_cases option (returned (some e)) keeps = answer_cases e (handler_of option (some e)) (keeps e)
run_cases option (panicked text) keeps =
    answer_cases (routine_panic text) (handler_of option (some (routine_panic text)))
      (keeps (routine_panic text))

fallback_soft-none : (f : Option (Error → Option Error)) → fallback_soft f none ≡ []
unfolding fallback_soft
fallback_soft-none none = refl
fallback_soft-none (some f) = refl

-- The message can be received, and nothing else.
pub Sends-Received : (r : Option Error) (m : Messages) → Sends m r → Received m none r
Sends-Received r m (inl (soft, fatal)) = soft_error [] soft
Sends-Received r m (inr (soft, (e, is, fatal))) = fatal_error e [] fatal is

pub Sends-unique : (r r' : Option Error) (m : Messages) → Sends m r → Received m none r' → r' ≡ r
Sends-unique r r' m (inl (soft, fatal)) (soft_error rest p) = ground (arith, soft, p)
Sends-unique r r' m (inl (soft, fatal)) (fatal_error e rest p q) = ground (arith, fatal, p)
Sends-unique r r' m (inr (soft, (x, is, fatal))) (soft_error rest p) = ground (arith, soft, p)
Sends-unique r r' m (inr (soft, (x, is, fatal))) (fatal_error e rest p q) =
    ground (arith, is, fatal, p, q)
Sends-unique r r' m s (context_error e p q) = absurd (cc)

module _ (h : HystrixGo) where
  -- An error that hystrix sees, with or without a fallback.
  fail-Sends :
      (fallback : Option (Error → Option Error)) (e : Error)
      → (r : Option Error) × Sends
          (record { soft = fallback_soft fallback (some e); fatal = h.sends fallback (some e) })
          r
  unfolding fallback_soft
  fail-Sends none e = let (x, sent) = h.failure e in (some x, inr (refl, (x, refl, sent)))
  fail-Sends (some f) e = elim (Option-cases (f e)) [
    | inl nil ↦ (none, inl (rw nil, h.recovered f e nil))
    | inr (x, kept) ↦
        let (y, sent) = h.unrecovered f e x kept in (some y, inr (rw kept, (y, refl, sent)))
  ]

  -- If the handler keeps its threats, every attempt without a timeout sends exactly one message.
  pub go-Sends :
      (option : CbOption) (a : Attempt)
      → KeepsThreats option
      → in_time a ≡ true
      → (r : Option Error) × Sends (go h option a) r
  unfolding go
  go-Sends option (timed_out e o) keeps t = absurd (cc)
  go-Sends option (refused e) keeps t = fail-Sends option.fallback_handler e
  go-Sends option (ran o) keeps t = elim (run_cases option o keeps) [
    | inl (r, e) ↦ (
      r,
      rw e (
          inl (rw (fallback_soft-none option.fallback_handler), h.success option.fallback_handler)),
    )
    | inr (x, e) ↦ rw e (fail-Sends option.fallback_handler x)
  ]

  -- With a handler that keeps its threats, no timeout and a context that is never done, `Do`
  -- returns, and there is one answer that it can return.
  pub do_once :
      (option : CbOption) (a : Attempt)
      → KeepsThreats option
      → in_time a ≡ true
      → (r : Option Error) × Received (go h option a) none r
        × ((r' : Option Error) → Received (go h option a) none r' → r' ≡ r)
  do_once option a keeps t =
      let (r, s) = go-Sends option a keeps t in
      (r, Sends-Received r (go h option a) s, λ r' q. Sends-unique r r' (go h option a) s q)
