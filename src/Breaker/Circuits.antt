-- ===== src/Breaker/Circuits.antt =====
-- circuitbreaker/circuit_breaker.go: `AllowRequest` and `IsCircuitOpen`, over the circuits of hystrix.
use grab_redis.Base.{Bool, true, false, Option, none, some}
use grab_redis.Base.Text.{Str}

-- What a circuit of hystrix answers to `AllowRequest` and to `IsOpen`.
pub record Circuit : Type 0 where
  pub allows : Bool
  pub is_open : Bool

-- `hystrix.GetCircuit`, none on an error
abbrev pub Circuits : Type 0
Circuits = Str → Option Circuit

unfoldable pub allow_request : Circuits → Str → Bool
allow_request get_circuit name = elim (get_circuit name) [ none ↦ true | some c ↦ c.allows ]

unfoldable pub is_circuit_open : Circuits → Str → Bool
is_circuit_open get_circuit name = elim (get_circuit name) [ none ↦ false | some c ↦ c.is_open ]
