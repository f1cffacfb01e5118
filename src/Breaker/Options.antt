-- ===== src/Breaker/Options.antt =====
-- circuitbreaker/circuit_breaker_options.go. An `Option` of the source is a function that writes
-- into a `cbOption`; the logger, which nothing reads back, is left out.
use grab_redis.Base.{Bool, false, Option, none, some, List, [], foldl}
use grab_redis.Base.Text.{Str}
use grab_redis.Errors.{Error}

-- `none` is the nil error.
abbrev pub IsNonThreatErr : Type 0
IsNonThreatErr = Option Error → Bool × Option Error

pub record CbOption : Type 0 where
  pub user_err_handler : Option IsNonThreatErr
  pub fallback_handler : Option (Error → Option Error)
  pub tags : List Str
  pub unlock_feature : Bool

abbrev pub CbSetter : Type 0
CbSetter = CbOption → CbOption

unfoldable pub new_cb_option : CbOption
new_cb_option = record {
  user_err_handler = none;
  fallback_handler = none;
  tags = [];
  unlock_feature = false;
}

-- `WithUserErrorHandler`
unfoldable pub with_user_error_handler : IsNonThreatErr → CbSetter
with_user_error_handler handler opt = record opt {
  user_err_handler = some (λ err. elim err [ none ↦ (false, none) | some e ↦ handler (some e) ]);
}

unfoldable pub default_user_error_handler : IsNonThreatErr
default_user_error_handler err = (false, err)

abbrev pub or_else {ℓ} : {A : Type ℓ} → Option A → A → A
or_else none d = d
or_else (some a) d = a

-- `makeOption`
unfoldable pub make_option : List CbSetter → CbOption
unfolding new_cb_option
make_option opts =
    let options = foldl (λ o opt. opt o) new_cb_option opts in
    record options {
      user_err_handler = some (or_else options.user_err_handler default_user_error_handler);
    }
