-- ===== src/Connector/Reload/Refused.antt =====
-- What a refused `reload` of connector.go leaves of the list of load test clients.
use grab_redis.Base.{
  ℕ, ◌≡◌, refl, ◌∙◌, Bool, true, false, Option, none, some, List, [], ◌∷◌, ◌++◌, arith,
  if◌then◌else◌,
}
use grab_redis.Config.Address.{name}
use grab_redis.Config.Records.{ClientConfig, ConnectorConfig}
use grab_redis.Connector.Reload.{
  Env, Connector, Round, failed, reused, created, Loop, stopped, finished, then_id, put,
  index_clients, reuse, create, reload_one, reload_each, reload_load_tests, reload_client,
  reload_connector, same_scheduler,
}
use grab_redis.Connector.Reload.Pool.{ByName, add_to, take_from, members}
use grab_redis.Connector.Reload.Stops.{Refusal, reload_connector-Refusal}
use grab_redis.Errors.{Error}

-- The same list of clients, and none more shut down.
abbrev pub SameClients : Connector → Connector → Type 0
SameClients k k' = (k'.load_tests ≡ k.load_tests) × (k'.shut ≡ k.shut)

abbrev IsSameRound : Connector → Round → Type 0
IsSameRound k (failed e k') = SameClients k k'
IsSameRound k (reused id pool k') = SameClients k k'
IsSameRound k (created id k') = SameClients k k'

reuse-IsSameRound :
    (env : Env) (config : ClientConfig) (id : ℕ) (pool : ByName) (k : Connector)
    → IsSameRound k (reuse env config id pool k)
unfolding reuse put
reuse-IsSameRound env config id pool k = ground arith

create-IsSameRound :
    (env : Env) (config : ClientConfig) (k : Connector) → IsSameRound k (create env config k)
unfolding create put
create-IsSameRound env config k = ground arith

reload_one-IsSameRound :
    (env : Env) (config : ClientConfig) (pool : ByName) (k : Connector)
    → IsSameRound k (reload_one env config pool k)
unfolding reload_one
reload_one-IsSameRound env config pool k = by_take (take_from (name config).0 pool)
  where
    by_take :
        (r : Option (ℕ × ByName))
        → IsSameRound k (elim r [
          | some (id, pool') ↦ reuse env (name config).1 id pool' k
          | none ↦ create env (name config).1 k
        ])
    by_take none = create-IsSameRound env (name config).1 k
    by_take (some (id, pool')) = reuse-IsSameRound env (name config).1 id pool' k

abbrev IsSameLoop : Connector → Loop → Type 0
IsSameLoop k (stopped e k') = SameClients k k'
IsSameLoop k (finished ids pool k') = Unit

then_id-IsSameLoop :
    (k k' : Connector) (id : ℕ) (r : Loop)
    → SameClients k k'
    → IsSameLoop k' r
    → IsSameLoop k (then_id id r)
then_id-IsSameLoop k k' id (stopped e k'') (l, s) (l', s') = (l' ∙ l, s' ∙ s)
then_id-IsSameLoop k k' id (finished ids pool k'') h h' = tt

reload_each-IsSameLoop :
    (env : Env) (configs : List ClientConfig) (pool : ByName) (k : Connector)
    → IsSameLoop k (reload_each env configs pool k)
unfolding reload_each
reload_each-IsSameLoop env [] pool k = tt
reload_each-IsSameLoop env (config ∷ configs) pool k =
    by_round (λ pool' k'. reload_each-IsSameLoop env configs pool' k')
      (reload_one env config pool k) (reload_one-IsSameRound env config pool k)
  where
    by_round :
        ((pool' : ByName) (k' : Connector) → IsSameLoop k' (reload_each env configs pool' k'))
        → (r : Round) → IsSameRound k r
        → IsSameLoop k (elim r [
          | failed e k' ↦ stopped e k'
          | reused id pool' k' ↦ then_id id (reload_each env configs pool' k')
          | created id k' ↦ then_id id (reload_each env configs pool k')
        ])
    by_round ih (failed e k') h = h
    by_round ih (reused id pool' k') h = then_id-IsSameLoop k k' id _ h (ih pool' k')
    by_round ih (created id k') h = then_id-IsSameLoop k k' id _ h (ih pool k')

index_clients-SameClients :
    (ids : List ℕ) (pool : ByName) (k : Connector) → SameClients k (index_clients ids pool k).1
unfolding index_clients put
index_clients-SameClients [] pool k = (refl, refl)
index_clients-SameClients (id ∷ ids) pool k =
    let (n, c) = name (k.clients id).config in
    index_clients-SameClients ids (add_to n id pool)
      (put id (record (k.clients id) { config = c }) k)

abbrev IsRefused : Connector → Option Error × Connector → Type 0
IsRefused k (none, k') = Unit
IsRefused k (some e, k') = SameClients k k'

reload_load_tests-IsRefused :
    (env : Env) (configs : List ClientConfig) (k : Connector)
    → IsRefused k (reload_load_tests env configs k)
unfolding reload_load_tests
reload_load_tests-IsRefused env configs k =
    let (pool, k1) = index_clients k.load_tests [] k in
    by_loop k1 (index_clients-SameClients k.load_tests [] k) (reload_each env configs pool k1)
      (reload_each-IsSameLoop env configs pool k1)
  where
    by_loop :
        (k1 : Connector)
        → SameClients k k1
        → (r : Loop) → IsSameLoop k1 r
        → IsRefused k (elim r [
          | stopped e k'' ↦ (some e, k'')
          | finished ids rest k'' ↦
              (none, record k'' { load_tests = ids; shut = k''.shut ++ members rest })
        ])
    by_loop k1 (l, s) (stopped e k'') (l', s') = (l' ∙ l, s' ∙ s)
    by_loop k1 h (finished ids rest k'') h' = tt

if_IsRefused :
    (k k' : Connector) (e : Error) (r : Option Error × Connector) (b : Bool)
    → SameClients k k'
    → IsRefused k r
    → IsRefused k (if b then r else (some e, k'))
if_IsRefused k k' e r true h q = q
if_IsRefused k k' e r false h q = h

main-IsRefused :
    (k k2 : Connector) (err : Option Error) (r : Option Error × Connector)
    → SameClients k k2
    → IsRefused k r
    → IsRefused k (elim err [ some e ↦ (some e, k2) | none ↦ r ])
main-IsRefused k k2 none r h q = q
main-IsRefused k k2 (some e) r h q = h

of_IsRefused :
    (k : Connector) (r : Option Error × Connector) (e : Error)
    → r.0 ≡ some e
    → IsRefused k r
    → SameClients k r.1
of_IsRefused k (none, k') e h q = absurd (cc)
of_IsRefused k (some x, k') e h q = q

reload_connector-SameClients :
    (env : Env) (config : ConnectorConfig) (k : Connector) (e : Error)
    → config.hot_reload ≡ true
    → (reload_connector env config k).0 ≡ some e
    → SameClients k (reload_connector env config k).1
unfolding reload_connector
reload_connector-SameClients env config k e hot h =
    let k1 = record k { process_all = config.process_all_load_test_packets } in
    let (err, main) = reload_client env k.client config.main in
    let k2 = record k1 { client = main } in
    of_IsRefused k (reload_connector env config k) e h (
      rw hot (
        if_IsRefused k k1 _ _ (same_scheduler k1 config) (refl, refl)
          (main-IsRefused k k2 err _ (refl, refl)
            (reload_load_tests-IsRefused env config.load_tests k2))))

-- A refused reload, with `HotReload` set, leaves the list of load test clients as it was and has shut
-- none of them down, whichever check or client refused it. Either the scheduler's settings differ, or
-- the main client refused its configuration, or one load test configuration was refused, and exactly
-- those in front of it had been taken.
pub reload_connector_refused :
    (env : Env) (config : ConnectorConfig) (k : Connector) (e : Error)
    → config.hot_reload ≡ true
    → (reload_connector env config k).0 ≡ some e
    → SameClients k (reload_connector env config k).1
      × Refusal env config k e (reload_connector env config k).1
reload_connector_refused env config k e hot h = (
  reload_connector-SameClients env config k e hot h,
  reload_connector-Refusal env config k e hot h,
)
