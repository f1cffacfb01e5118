-- ===== src/Config/Checks/Defaults.antt =====
-- `init` and `initAndValidate` of config.go: what the defaults leave in a configuration.
use grab_redis.Base.{
  true, ◌≡◌, ◌≢◌, ◌↔◌, refl, List, [], ◌∷◌, map, none, arith, ◌==◌, ◌||◌, Bool-cases, inl, inr, All,
}
use grab_redis.Base.Int.{ℤ, pos, int_eq}
use grab_redis.Base.Text.{Str, str, str_eq, str_beq}
use grab_redis.Config.Modes.{ReadMode, client_mode_is_valid, read_mode_is_valid}
use grab_redis.Config.Records.{
  ClientConfig, ConnectorConfig, ucm_empty_string, default_max_chan_size, default_max_worker,
  default_worker_idle_timeout,
}
use grab_redis.Config.Checks.{
  or_default, or_empty, or_default_read_mode, default_addrs, init, validate, validate_all,
}

or_default_idem : (x d : ℤ) → or_default (or_default x d) d ≡ or_default x d
unfolding or_default
or_default_idem x d = ground arith

or_empty_idem : (s : Str) → or_empty (or_empty s) ≡ or_empty s
unfolding or_empty str_beq
or_empty_idem s = elim (Bool-cases (s == ucm_empty_string)) [ inl e ↦ rw e | inr e ↦ rw (e, e) ]

default_addrs_idem : (as' : List Str) → default_addrs (default_addrs as') ≡ default_addrs as'
unfolding default_addrs
default_addrs_idem [] = refl
default_addrs_idem (a ∷ as') = refl

or_default_read_mode_idem :
    (m : ReadMode) → or_default_read_mode (or_default_read_mode m) ≡ or_default_read_mode m
unfolding or_default_read_mode str_beq
or_default_read_mode_idem m = elim (Bool-cases (m == [] || m == ucm_empty_string)) [
  | inl e ↦ rw e
  | inr e ↦ rw (e, e)
]

ruleset idempotent = (or_default_idem, or_empty_idem, default_addrs_idem, or_default_read_mode_idem)

-- Filling in the defaults a second time changes nothing.
pub init_idem : (c : ClientConfig) → init (init c) ≡ init c
unfolding init
init_idem c = simp idempotent

-- After `init` an address is there, so only an unknown mode is refused.
pub validate-init :
    (c : ClientConfig)
    → (validate (init c) ≡ none) ↔ (
        (client_mode_is_valid c.client_mode ≡ true)
        × (read_mode_is_valid (init c).read_mode ≡ true))
unfolding init validate default_addrs
validate-init c = ground arith

pub validate_all-All :
    (cs : List ClientConfig) → validate_all cs ≡ none → All (λ c. validate c ≡ none) cs
unfolding validate_all
validate_all-All [] h = tt
validate_all-All (c ∷ cs) h = ground (arith, validate_all-All cs)

-- What an accepted configuration has become.
abbrev completed : ConnectorConfig → ConnectorConfig
completed c = record c {
  main = init c.main;
  load_tests = map init c.load_tests;
  scheduler_worker_number = or_default c.scheduler_worker_number default_max_worker;
  scheduler_channel_size = or_default c.scheduler_channel_size default_max_chan_size;
  scheduler_worker_idle_timeout_in_ms =
      or_default c.scheduler_worker_idle_timeout_in_ms default_worker_idle_timeout;
}

-- A number that is not set has the default `d`, and any other is kept.
abbrev pub IsFilled : ℤ → ℤ → ℤ → Type 0
IsFilled d x y = (x ≡ pos 0 → y ≡ d) × (x ≢ pos 0 → y ≡ x)

-- The text that stands for an empty one is made empty, and any other is kept.
abbrev pub IsCleared : Str → Str → Type 0
IsCleared s t = (s ≡ str "<nil>" → t ≡ []) × (s ≢ str "<nil>" → t ≡ s)

-- What the comments of config.go promise for the fields that are not set.
pub record IsComplete (c d : ClientConfig) : Type 0 where
  pub local : c.addrs ≡ [] → d.addrs ≡ str "localhost:6379" ∷ []
  pub dialled : c.addrs ≢ [] → d.addrs ≡ c.addrs
  pub from_slaves : c.read_mode ≡ [] → d.read_mode ≡ str "readFromSlaves"
  pub from_slaves_too : c.read_mode ≡ str "<nil>" → d.read_mode ≡ str "readFromSlaves"
  pub as_set : c.read_mode ≢ [] → c.read_mode ≢ str "<nil>" → d.read_mode ≡ c.read_mode
  pub user : IsCleared c.username d.username
  pub word : IsCleared c.password d.password
  pub dial : IsFilled (pos 5000) c.dial_timeout_in_ms d.dial_timeout_in_ms
  pub timeout : IsFilled (pos 31000) (c.hystrix).timeout_in_ms (d.hystrix).timeout_in_ms
  pub concurrent :
      IsFilled (pos 5000) (c.hystrix).max_concurrent_requests (d.hystrix).max_concurrent_requests
  pub percent :
      IsFilled (pos 50) (c.hystrix).error_percent_threshold (d.hystrix).error_percent_threshold

unfoldable pub AllComplete : List ClientConfig → List ClientConfig → Type 0
AllComplete [] [] = Unit
AllComplete (c ∷ cs) (d ∷ ds) = IsComplete c d × AllComplete cs ds
AllComplete _ _ = ⊥
