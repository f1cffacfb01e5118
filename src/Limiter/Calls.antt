-- ===== src/Limiter/Calls.antt =====
-- limiter.go: `Allow` and `Execute`, which goredis calls around each command, and the answer that a
-- command gets from a limiter with the options of `getDefaultCBOptions`.
use grab_redis.Base.{
  Bool, true, false, ◌≡◌, refl, Option, none, some, List, [], ◌∷◌, ◌++◌, ◌∙◌, inl, inr, arith,
  if◌then◌else◌,
}
use grab_redis.Base.Text.{Str, str}
use grab_redis.Breaker.Circuits.{Circuits, allow_request}
use grab_redis.Breaker.Options.{make_option, with_user_error_handler, new_cb_option}
use grab_redis.Breaker.Run.{
  Attempt, ran, returned, Messages, HystrixGo, run, go, fallback_soft, Received,
}
use grab_redis.Breaker.Run.Once.{Sends, Sends-Received, Sends-unique}
use grab_redis.Errors.{Error, external, Kind}
use grab_redis.Limiter.{Limiter, new_limiter, should_count_as_cb_error, default_cb_options}
use grab_redis.Limiter.Classify.{run-default_cb_options}

-- `hystrix.ErrCircuitOpen`
abbrev pub err_circuit_open : Error
err_circuit_open = external Kind.circuit_open (str "hystrix: circuit open")

-- `Allow`
unfoldable pub allow : Circuits → Limiter → Option Error
allow circuits l = if allow_request circuits l.key then none else some err_circuit_open

-- `Execute`, as the messages that `Do` waits for
unfoldable pub execute : HystrixGo → Limiter → Attempt → Messages
execute h l attempt = go h (make_option l.cb_options) attempt

module _ (is_read_only_error : Error → Bool) (h : HystrixGo) where
  abbrev pub default_limiter : Str → Limiter
  default_limiter key = new_limiter key (default_cb_options is_read_only_error)

  none_passes : ¬ (should_count_as_cb_error is_read_only_error none ≡ true)
  unfolding should_count_as_cb_error
  none_passes h = ground arith

  no_fallback : (make_option (default_cb_options is_read_only_error)).fallback_handler ≡ none
  unfolding make_option default_cb_options with_user_error_handler new_cb_option
  no_fallback = refl

  -- the messages, by what the run gives to hystrix and sends
  go_of_run :
      (e output : Option Error) (sent : List (Option Error))
      → run (make_option (default_cb_options is_read_only_error)) (returned e) ≡ (output, sent)
      → go h (make_option (default_cb_options is_read_only_error)) (ran (returned e))
        ≡ record { soft = sent ++ fallback_soft none output; fatal = h.sends none output }
  unfolding go
  go_of_run e output sent q = rw (q, go) (rw no_fallback refl)

  counted-Sends :
      (e : Error)
      → should_count_as_cb_error is_read_only_error (some e) ≡ true
      → (x : Error) × Sends
          (go h (make_option (default_cb_options is_read_only_error)) (ran (returned (some e))))
          (some x)
  unfolding fallback_soft
  counted-Sends e c =
      let (x, sent) = h.failure e in
      (
        x,
        rw
            (go_of_run (some e) (some e) []
              (run-default_cb_options is_read_only_error (some e) ∙ rw c refl))
            (inr (refl, (x, refl, sent))),
      )

  passed-Sends :
      (e : Option Error)
      → should_count_as_cb_error is_read_only_error e ≡ false
      → Sends (go h (make_option (default_cb_options is_read_only_error)) (ran (returned e))) e
  unfolding fallback_soft
  passed-Sends e c =
      rw (go_of_run e none (e ∷ []) (run-default_cb_options is_read_only_error e ∙ rw c refl))
        (inl (refl, h.success none))

  -- A command under a limiter with the default options, in time and with a context that is never
  -- done: a success and an error that does not count against the circuit reach the caller as they
  -- are, an error that counts reaches it as some error, and there is nothing else to receive.
  pub execute_lem :
      (key : Str) (e : Option Error)
      → (should_count_as_cb_error is_read_only_error e ≡ false
          → Received (execute h (default_limiter key) (ran (returned e))) none e
            × ((r : Option Error)
                → Received (execute h (default_limiter key) (ran (returned e))) none r
                → r ≡ e))
        × (should_count_as_cb_error is_read_only_error e ≡ true
            → (x : Error) × Received
                (execute h (default_limiter key) (ran (returned e)))
                none
                (some x)
              × ((r : Option Error)
                  → Received (execute h (default_limiter key) (ran (returned e))) none r
                  → r ≡ some x))
  unfolding execute new_limiter
  execute_lem key e = (
    λ c. let s = passed-Sends e c in (Sends-Received e _ s, λ r q. Sends-unique e r _ s q),
    λ c. counted e c,
  )
    where
      counted :
          (e : Option Error)
          → should_count_as_cb_error is_read_only_error e ≡ true
          → (x : Error) × Received
              (execute h (default_limiter key) (ran (returned e)))
              none
              (some x)
            × ((r : Option Error)
                → Received (execute h (default_limiter key) (ran (returned e))) none r
                → r ≡ some x)
      counted none c = absurd (none_passes c)
      counted (some e) c =
          let (x, s) = counted-Sends e c in
          (x, Sends-Received (some x) _ s, λ r q. Sends-unique (some x) r _ s q)
