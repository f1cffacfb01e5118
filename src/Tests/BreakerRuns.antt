-- ===== src/Tests/BreakerRuns.antt =====
-- circuitbreaker and limiter.go at concrete inputs.
use grab_redis.Base.{Bool, true, false, ◌≡◌, refl, Option, none, some, List, [], ◌∷◌, arith}
use grab_redis.Base.Text.{str}
use grab_redis.Breaker.Options.{CbOption, make_option, with_user_error_handler, new_cb_option}
use grab_redis.Breaker.Run.{Messages, HystrixGo, ran, timed_out, returned, go, Received}
use grab_redis.Breaker.Run.Room.{Settles, go-Settles}
use grab_redis.Breaker.Run.Once.{KeepsThreats, do_once}
use grab_redis.Errors.{Error, external, Kind}
use grab_redis.Limiter.{default_cb_options, should_count_as_cb_error}
use grab_redis.Limiter.Calls.{execute, default_limiter, execute_lem}

-- A hystrix that sends the error of the run, or of its fallback.
send_error : Option (Error → Option Error) → Option Error → List Error
send_error fallback none = []
send_error none (some e) = e ∷ []
send_error (some f) (some e) = elim (f e) [ none ↦ [] | some x ↦ x ∷ [] ]

abbrev hystrix_go : HystrixGo
unfolding send_error
hystrix_go = record {
  sends = send_error;
  success = λ f. elim f [ none ↦ refl | some g ↦ refl ];
  failure = λ e. (e, refl);
  recovered = λ f e nil. rw nil;
  unrecovered = λ f e x kept. (x, rw kept);
}

abbrev no_read_only : Error → Bool
no_read_only e = false

abbrev limiter_option : CbOption
limiter_option = make_option (default_cb_options no_read_only)

limiter_option-KeepsThreats : KeepsThreats limiter_option
unfolding make_option default_cb_options with_user_error_handler new_cb_option
limiter_option-KeepsThreats e h = ground arith

abbrev lost : Error
lost = external Kind.timeout (str "i/o timeout")

do_once_example :
    (r : Option Error) × Received (go hystrix_go limiter_option (ran (returned (some lost)))) none r
    × ((r' : Option Error)
        → Received (go hystrix_go limiter_option (ran (returned (some lost)))) none r'
        → r' ≡ r)
do_once_example =
    do_once hystrix_go limiter_option (ran (returned (some lost))) limiter_option-KeepsThreats refl

go-Settles_example : Settles (go hystrix_go limiter_option (timed_out lost (returned (some lost))))
unfolding make_option default_cb_options with_user_error_handler new_cb_option
go-Settles_example =
    go-Settles hystrix_go limiter_option (timed_out lost (returned (some lost)))
      limiter_option-KeepsThreats refl

abbrev lost_messages : Messages
lost_messages =
    execute hystrix_go (default_limiter no_read_only hystrix_go (str "redis_a:1"))
      (ran (returned (some lost)))

execute_lem_example :
    (should_count_as_cb_error no_read_only (some lost) ≡ false
      → Received lost_messages none (some lost)
        × ((r : Option Error) → Received lost_messages none r → r ≡ some lost))
    × (should_count_as_cb_error no_read_only (some lost) ≡ true
        → (x : Error) × Received lost_messages none (some x)
          × ((r : Option Error) → Received lost_messages none r → r ≡ some x))
execute_lem_example = execute_lem no_read_only hystrix_go (str "redis_a:1") (some lost)
