-- ===== src/Connector/Reload/Tied/Accepted.antt =====
-- An accepted `reload` of connector.go.
use grab_redis.Base.{
  ℕ, ◌≤◌, ◌≡◌, refl, ◌∙◌, Bool, true, false, Option, none, some, List, [], ◌++◌, length, ap, arith,
  nat_eq, inr, if◌then◌else◌,
}
use grab_redis.Base.Text.{str_eq}
use grab_redis.Config.Records.{ClientConfig, ConnectorConfig}
use grab_redis.Connector.Reload.{
  Env, ClientImpl, Connector, Loop, stopped, finished, index_clients, reload_each,
  reload_load_tests, reload_client, reload_connector, same_scheduler,
}
use grab_redis.Connector.Mirror.Counts.{times, times-perm}
use grab_redis.Connector.Reload.Clients.{
  reload_each-IsLoop, IsLoop, Kept, reload_connector-Kept, index_clients-perm,
}
use grab_redis.Connector.Reload.Pool.{ByName, members}
use grab_redis.Errors.{Error}
use grab_redis.Connector.Reload.Tied.{named, Tied}
use grab_redis.Connector.Reload.Tied.Names.{index_clients-Stored}
use grab_redis.Connector.Reload.Tied.Loop.{Ends, reload_each-Ends}

abbrev Ties :
    Env → List ℕ → (ℕ → ClientImpl) → List ClientConfig → Option Error × Connector → Type 0
Ties env shut start configs (some e, k') = Unit
Ties env shut start configs (none, k') =
    (gone : List ℕ) × (k'.shut ≡ shut ++ gone)
    × Tied env start gone configs k'.load_tests k'.clients

module _ (env : Env) (k2 : Connector) (start : ℕ → ClientImpl) where
  reload_load_tests-Ties :
      (configs : List ClientConfig)
      → ((j : ℕ) → named (k2.clients j) ≡ start j)
      → ((j : ℕ) → times j k2.load_tests ≤ 1)
      → ((j : ℕ) → k2.next ≤ j → times j k2.load_tests ≡ 0)
      → Ties env k2.shut start configs (reload_load_tests env configs k2)
  unfolding reload_load_tests members
  reload_load_tests-Ties configs e once older =
      let (pool, k1) = index_clients k2.load_tests [] k2 in
      let (p, n, q) = index_clients-perm k2.load_tests [] k2 in
      let (names, olds) = index_clients-Stored start k2.load_tests [] k2 tt e in
      by_loop pool k1 q (reload_each env configs pool k1)
        (reload_each-IsLoop k2.next env configs pool k1 (omega (arith, n)))
        (reload_each-Ends env start configs pool k1 (record {
          names = names;
          once = λ j. omega (arith, once j, times-perm j p);
          older = λ j le. times-perm j p ∙ older j (omega (arith, n));
          old = λ j there. olds j (inr (λ z. there (times-perm j p ∙ z)));
        }))
    where
      by_loop :
          (pool : ByName) (k1 : Connector)
          → k1.shut ≡ k2.shut
          → (r : Loop) → IsLoop k2.next (length configs) pool k1 r
          → Ends env start configs pool k1 r
          → Ties env k2.shut start configs (elim r [
            | stopped e k'' ↦ (some e, k'')
            | finished ids rest k'' ↦
                (none, record k'' { load_tests = ids; shut = k''.shut ++ members rest })
          ])
      by_loop pool k1 q (stopped e k'') l h = tt
      by_loop pool k1 q (finished ids rest k'') (s, n, t) (h, frame, fewer) =
          (members rest, ap (λ l. l ++ members rest) (t ∙ q), h)

if_Ties :
    (env : Env) (shut : List ℕ) (k' : Connector) (start : ℕ → ClientImpl)
    (configs : List ClientConfig) (e : Error) (r : Option Error × Connector) (b : Bool)
    → Ties env shut start configs r
    → Ties env shut start configs (if b then r else (some e, k'))
if_Ties env shut k' start configs e r true h = h
if_Ties env shut k' start configs e r false h = tt

main_Ties :
    (env : Env) (shut : List ℕ) (k2 : Connector) (start : ℕ → ClientImpl)
    (configs : List ClientConfig) (err : Option Error)
    → Ties env shut start configs (reload_load_tests env configs k2)
    → Ties env shut start configs
        (elim err [ some e ↦ (some e, k2) | none ↦ reload_load_tests env configs k2 ])
main_Ties env shut k2 start configs none h = h
main_Ties env shut k2 start configs (some e) h = tt

of_Ties :
    (env : Env) (shut : List ℕ) (start : ℕ → ClientImpl) (configs : List ClientConfig)
    (r : Option Error × Connector)
    → r.0 ≡ none
    → Ties env shut start configs r
    → (gone : List ℕ) × ((r.1).shut ≡ shut ++ gone)
      × Tied env start gone configs (r.1).load_tests (r.1).clients
of_Ties env shut start configs (none, k') e h = h
of_Ties env shut start configs (some x, k') e h = absurd (cc)

-- If the load test clients are different objects, then an accepted reload, with `HotReload` set,
-- leaves one for each configuration that it names, in that order: an old client, which was connected
-- under the name of the configuration and whose own `reload` accepted it, up to the order of its
-- addresses, or a client that `newClient` made from it, where no old client of its name is shut down.
-- Each old client is either among them or shut down, once, and no other client is shut down.
pub reload_connector-Tied :
    (env : Env) (config : ConnectorConfig) (k : Connector)
    → ((j : ℕ) → times j k.load_tests ≤ 1)
    → ((j : ℕ) → k.next ≤ j → times j k.load_tests ≡ 0)
    → config.hot_reload ≡ true
    → (reload_connector env config k).0 ≡ none
    → let (_, k') = reload_connector env config k in
      Kept k config.load_tests k'
      × (gone : List ℕ) × (k'.shut ≡ k.shut ++ gone)
      × Tied env (λ j. named (k.clients j)) gone config.load_tests k'.load_tests k'.clients
unfolding reload_connector
reload_connector-Tied env config k once older hot h =
    let k1 = record k { process_all = config.process_all_load_test_packets } in
    let (err, main) = reload_client env k.client config.main in
    let k2 = record k1 { client = main } in
    let start : ℕ → ClientImpl = λ j. named (k.clients j) in
    let (gone, e, tied) =
      of_Ties env k.shut start config.load_tests (reload_connector env config k) h (
        rw hot (
          if_Ties env k.shut _ start config.load_tests _ _ (same_scheduler k1 config) (
            main_Ties env k.shut k2 start config.load_tests err
              (reload_load_tests-Ties env k2 start config.load_tests (λ j. refl) once older)))) in
    (reload_connector-Kept env config k hot h, gone, e, tied)
