-- ===== src/Connector/Reload/Stops.antt =====
-- How far a `reload` of connector.go has come when a load test configuration is refused.
use grab_redis.Base.{
  ℕ, ◌≡◌, refl, sym, ap, ◌∙◌, true, false, Bool-cases, inl, inr, ◌⊎◌, some-injective, Option, none,
  some, List, [], ◌∷◌, ◌++◌,
}
use grab_redis.Config.Records.{ClientConfig, ConnectorConfig}
use grab_redis.Connector.Reload.{
  Env, Connector, Round, failed, reused, created, Loop, stopped, finished, then_id, index_clients,
  reload_one, reload_each, reload_load_tests, reload_client, reload_connector, same_scheduler,
}
use grab_redis.Connector.Reload.Pool.{ByName, members}
use grab_redis.Errors.{Error, scheduler_change}

-- The loop took the configurations `done`, and the one behind them failed with the error.
pub record StopsAt (env : Env) (configs : List ClientConfig) (pool : ByName) (k : Connector)
    (e : Error) (k' : Connector) : Type 0 where
  pub done : List ClientConfig
  pub bad : ClientConfig
  pub rest : List ClientConfig
  pub split : configs ≡ done ++ (bad ∷ rest)
  pub ids : List ℕ
  pub pool_left : ByName
  pub before : Connector
  pub taken : reload_each env done pool k ≡ finished ids pool_left before
  pub failure : reload_one env bad pool_left before ≡ failed e k'

then_id-stopped :
    (id : ℕ) (r : Loop) (e : Error) (k : Connector) → then_id id r ≡ stopped e k → r ≡ stopped e k
then_id-stopped id (stopped e' k') e k h = h
then_id-stopped id (finished ids pool k') e k h = absurd (cc)

stopped-failed :
    (e e' : Error) (k k' : Connector) → stopped e k ≡ stopped e' k' → failed e k ≡ failed e' k'
stopped-failed e e' k k' h = cc

-- One configuration in front.
goes_on :
    (env : Env) (config : ClientConfig) (configs : List ClientConfig) (pool pool' : ByName)
    (k k1 : Connector) (id : ℕ) (e : Error) (k' : Connector)
    → ((done : List ClientConfig)
        → reload_each env (config ∷ done) pool k ≡ then_id id (reload_each env done pool' k1))
    → StopsAt env configs pool' k1 e k'
    → StopsAt env (config ∷ configs) pool k e k'
goes_on env config configs pool pool' k k1 id e k' step s = record {
  done = config ∷ s.done;
  bad = s.bad;
  rest = s.rest;
  split = ap (λ l. config ∷ l) s.split;
  ids = id ∷ s.ids;
  pool_left = s.pool_left;
  before = s.before;
  taken = step s.done ∙ ap (then_id id) s.taken;
  failure = s.failure;
}

-- The round of the loop, by what `reload_one` says.
abbrev continue : Env → List ClientConfig → ByName → Round → Loop
continue env configs pool (failed e k) = stopped e k
continue env configs pool (reused id pool' k) = then_id id (reload_each env configs pool' k)
continue env configs pool (created id k) = then_id id (reload_each env configs pool k)

reload_each-continue :
    (env : Env) (config : ClientConfig) (configs : List ClientConfig) (pool : ByName)
    (k : Connector)
    → reload_each env (config ∷ configs) pool k
      ≡ continue env configs pool (reload_one env config pool k)
unfolding reload_each
reload_each-continue env config configs pool k = by_round (reload_one env config pool k)
  where
    by_round :
        (r : Round)
        → (elim r as (λ _. Loop) [
          | failed e k' ↦ stopped e k'
          | reused id pool' k' ↦ then_id id (reload_each env configs pool' k')
          | created id k' ↦ then_id id (reload_each env configs pool k')
        ])
          ≡ continue env configs pool r
    by_round (failed e k') = refl
    by_round (reused id pool' k') = refl
    by_round (created id k') = refl

reload_each-StopsAt :
    (env : Env) (configs : List ClientConfig) (pool : ByName) (k : Connector) (e : Error)
    (k' : Connector)
    → reload_each env configs pool k ≡ stopped e k'
    → StopsAt env configs pool k e k'
unfolding reload_each
reload_each-StopsAt env [] pool k e k' h = absurd (cc)
reload_each-StopsAt env (config ∷ configs) pool k e k' h =
    by_round (λ pool' k1. reload_each-StopsAt env configs pool' k1 e k')
      (reload_one env config pool k) refl (sym (reload_each-continue env config configs pool k) ∙ h)
  where
    by_round :
        ((pool' : ByName) (k1 : Connector)
          → reload_each env configs pool' k1 ≡ stopped e k'
          → StopsAt env configs pool' k1 e k')
        → (r : Round) → reload_one env config pool k ≡ r
        → continue env configs pool r ≡ stopped e k'
        → StopsAt env (config ∷ configs) pool k e k'
    by_round ih (failed e1 k1) is h = record {
      done = [];
      bad = config;
      rest = configs;
      split = refl;
      ids = [];
      pool_left = pool;
      before = k;
      taken = refl;
      failure = is ∙ stopped-failed e1 e k1 k' h;
    }
    by_round ih (reused id pool' k1) is h =
        goes_on env config configs pool pool' k k1 id e k'
          (λ done. reload_each-continue env config done pool k ∙ ap (continue env done pool) is)
          (ih pool' k1 (then_id-stopped id _ e k' h))
    by_round ih (created id k1) is h =
        goes_on env config configs pool pool k k1 id e k'
          (λ done. reload_each-continue env config done pool k ∙ ap (continue env done pool) is)
          (ih pool k1 (then_id-stopped id _ e k' h))

reload_load_tests-StopsAt :
    (env : Env) (configs : List ClientConfig) (k : Connector) (e : Error) (k' : Connector)
    → reload_load_tests env configs k ≡ (some e, k')
    → let (pool, k0) = index_clients k.load_tests [] k in StopsAt env configs pool k0 e k'
unfolding reload_load_tests
reload_load_tests-StopsAt env configs k e k' h =
    let (pool, k0) = index_clients k.load_tests [] k in
    by_loop pool k0 (reload_each env configs pool k0) refl h
  where
    ends : Loop → Option Error × Connector
    ends r = elim r [
      | stopped e' k'' ↦ (some e', k'')
      | finished ids rest k'' ↦
          (none, record k'' { load_tests = ids; shut = k''.shut ++ members rest })
    ]

    by_loop :
        (pool : ByName) (k0 : Connector)
        → (r : Loop) → reload_each env configs pool k0 ≡ r
        → ends r ≡ (some e, k')
        → StopsAt env configs pool k0 e k'
    by_loop pool k0 (stopped e' k'') is q = reload_each-StopsAt env configs pool k0 e k' (
        is
        ∙ ap (λ x. stopped x k'') (some-injective _ _ (ap (λ p. p.0) q))
        ∙ ap (stopped e) (ap (λ p. p.1) q))
    by_loop pool k0 (finished ids rest k'') is q = let x = ap (λ p. p.0) q in absurd (cc)

-- The connector when it comes to its load tests.
abbrev pub main_reloaded : Env → ConnectorConfig → Connector → Connector
main_reloaded env config k = record k {
  process_all = config.process_all_load_test_packets;
  client = (reload_client env k.client config.main).1;
}

reload_connector-reload_load_tests :
    (env : Env) (config : ConnectorConfig) (k : Connector)
    → config.hot_reload ≡ true
    → same_scheduler k config ≡ true
    → (reload_client env k.client config.main).0 ≡ none
    → reload_connector env config k
      ≡ reload_load_tests env config.load_tests (main_reloaded env config k)
unfolding reload_connector
reload_connector-reload_load_tests env config k hot same accepted =
    rw hot (rw same (rw accepted refl))

reload_connector-StopsAt :
    (env : Env) (config : ConnectorConfig) (k : Connector) (e : Error)
    → config.hot_reload ≡ true
    → (reload_connector env config k).0 ≡ some e
    → same_scheduler k config ≡ true
    → (reload_client env k.client config.main).0 ≡ none
    → let (pool, k0) = index_clients k.load_tests [] (main_reloaded env config k) in
      StopsAt env config.load_tests pool k0 e (reload_connector env config k).1
reload_connector-StopsAt env config k e hot h same accepted =
    reload_load_tests-StopsAt env config.load_tests (main_reloaded env config k) e
      (reload_connector env config k).1
      (sym (reload_connector-reload_load_tests env config k hot same accepted)
        ∙ ap (λ x. (x, (reload_connector env config k).1)) h)

-- Why a reload is refused, and how far it has come: the scheduler's settings differ, the main client
-- refuses its configuration, or the loop over the load tests has stopped.
abbrev pub Refusal : Env → ConnectorConfig → Connector → Error → Connector → Type 0
Refusal env config k e k' =
    ((same_scheduler k config ≡ false) × (e ≡ scheduler_change))
    ⊎ ((reload_client env k.client config.main).0 ≡ some e)
    ⊎ (let (pool, k0) = index_clients k.load_tests [] (main_reloaded env config k) in
        StopsAt env config.load_tests pool k0 e k')

pub other_scheduler :
    (env : Env) (config : ConnectorConfig) (k : Connector)
    → config.hot_reload ≡ true
    → same_scheduler k config ≡ false
    → (reload_connector env config k).0 ≡ some scheduler_change
unfolding reload_connector
other_scheduler env config k hot same = rw hot (rw same refl)

main_refused :
    (env : Env) (config : ConnectorConfig) (k : Connector) (e : Error)
    → config.hot_reload ≡ true
    → same_scheduler k config ≡ true
    → (reload_client env k.client config.main).0 ≡ some e
    → (reload_connector env config k).0 ≡ some e
unfolding reload_connector
main_refused env config k e hot same refused = rw hot (rw same (rw refused refl))

pub reload_connector-Refusal :
    (env : Env) (config : ConnectorConfig) (k : Connector) (e : Error)
    → config.hot_reload ≡ true
    → (reload_connector env config k).0 ≡ some e
    → Refusal env config k e (reload_connector env config k).1
reload_connector-Refusal env config k e hot h = elim (Bool-cases (same_scheduler k config)) [
  | inr other ↦ inl (other, some-injective _ _ (sym h ∙ other_scheduler env config k hot other))
  | inl same ↦ inr (by_main same (reload_client env k.client config.main).0 refl)
]
  where
    by_main :
        same_scheduler k config ≡ true
        → (r : Option Error) → (reload_client env k.client config.main).0 ≡ r
        → ((reload_client env k.client config.main).0 ≡ some e)
          ⊎ (let (pool, k0) = index_clients k.load_tests [] (main_reloaded env config k) in
              StopsAt env config.load_tests pool k0 e (reload_connector env config k).1)
    by_main same none is = inr (reload_connector-StopsAt env config k e hot h same is)
    by_main same (some x) is = inl (is ∙ sym (main_refused env config k x hot same is) ∙ h)
