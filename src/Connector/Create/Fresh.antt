-- ===== src/Connector/Create/Fresh.antt =====
-- A connector that `NewDynamicConnector` of connector.go has made.
use grab_redis.Base.{
  ℕ, suc, ◌<◌, ◌≤◌, ◌≡◌, refl, ap, ◌∙◌, true, false, Option, none, some, List, [], ◌∷◌, map, All,
  arith, nat_eq, ◌==◌, ==_refl, ◌&&◌, if◌then◌else◌, subst,
}
use grab_redis.Base.Int.{ℤ, pos, negsuc, int_eq, is_positive}
use grab_redis.Config.Checks.{init_and_validate}
use grab_redis.Config.Records.{
  ClientConfig, ConnectorConfig, default_max_chan_size, default_max_worker,
  default_worker_idle_timeout,
}
use grab_redis.Connector.Create.{
  NewConnector, failed_with, connected, scheduler_of, create_each, start_with, create_clients,
  new_dynamic_connector,
}
use grab_redis.Connector.Reload.{
  Env, ClientImpl, Connector, NewClient, built, rejected, new_client, put, same_scheduler,
  reload_connector,
}
use grab_redis.Connector.Reload.Stops.{other_scheduler}
use grab_redis.Errors.{Error, scheduler_change}
use grab_redis.Scheduler.{normalise}
use grab_redis.Wrapper.Options.{parse_duration_in_ms}

-- A new client has the configuration that it was made from.
abbrev HasConfig : ClientConfig → NewClient → Type 0
HasConfig c (built b) = b.config ≡ c
HasConfig c (rejected e) = Unit

new_client-HasConfig : (env : Env) (c : ClientConfig) → HasConfig c (new_client env c)
unfolding new_client
new_client-HasConfig env c = ground arith

-- A setting that `normalise` keeps is a positive one.
kept_positive :
    (z d : ℤ) → is_positive d ≡ true → ((if is_positive z then z else d) == z) ≡ is_positive z
kept_positive (pos n) (pos m) h = ground arith
kept_positive (pos n) (negsuc m) h = ground arith
kept_positive (negsuc n) (pos m) h = refl
kept_positive (negsuc n) (negsuc m) h = ground arith

-- The clients of the loop: one for each configuration and with it, in order, and with the numbers
-- from `k.next` on. Clients of smaller numbers are as they were.
record Made (k : Connector) (configs : List ClientConfig) (ids : List ℕ) (k' : Connector)
    : Type 0 where
  in_order : map (λ id. (k'.clients id).config) ids ≡ configs
  bounded : All (λ id. id < k'.next) ids
  others : (id : ℕ) → id < k.next → k'.clients id ≡ k.clients id
  grown : k.next ≤ k'.next
  unshut : k'.shut ≡ k.shut
  same_main : k'.client ≡ k.client
  same_process : k'.process_all ≡ k.process_all
  same_options : (c : ConnectorConfig) → same_scheduler k' c ≡ same_scheduler k c

MadeIfDone : Connector → List ClientConfig → Option Error × List ℕ × Connector → Type 0
MadeIfDone k configs (some e, ids, k') = Unit
MadeIfDone k configs (none, ids, k') = Made k configs ids k'

abbrev with_client : ClientImpl → Connector → Connector
with_client b k = record (put k.next b k) { next = suc k.next }

clients-with_client : (b : ClientImpl) (k : Connector) → (with_client b k).clients k.next ≡ b
unfolding put
clients-with_client b k = rw (==_refl k.next) refl

clients-below :
    (b : ClientImpl) (k : Connector) (id : ℕ)
    → id < k.next
    → (with_client b k).clients id ≡ k.clients id
unfolding put
clients-below b k id h = rw (not_same id k.next h) refl
  where
    not_same : (m n : ℕ) → m < n → (m == n) ≡ false
    not_same m n h = ground arith

cons-Made :
    (b : ClientImpl) (c : ClientConfig) (cs : List ClientConfig) (k k' : Connector) (ids : List ℕ)
    → b.config ≡ c
    → Made (with_client b k) cs ids k'
    → Made k (c ∷ cs) (k.next ∷ ids) k'
unfolding put
cons-Made b c cs k k' ids h m = record {
  in_order =
      ap (λ d. d.config ∷ map (λ id. (k'.clients id).config) ids)
        (m.others k.next (omega arith) ∙ clients-with_client b k)
      ∙ (ap (λ d. d ∷ map (λ id. (k'.clients id).config) ids) h ∙ ap (λ l. c ∷ l) m.in_order);
  bounded = (below, m.bounded);
  others = λ id h. m.others id (omega arith) ∙ clients-below b k id h;
  grown = larger;
  unshut = m.unshut;
  same_main = m.same_main;
  same_process = m.same_process;
  same_options = m.same_options;
}
  where
    below : k.next < k'.next
    below = let g = m.grown in omega arith

    larger : k.next ≤ k'.next
    larger = let g = m.grown in omega arith

create_each-Made :
    (env : Env) (configs : List ClientConfig) (k : Connector)
    → MadeIfDone k configs (create_each env configs k)
unfolding create_each MadeIfDone
create_each-Made env [] k = record {
  in_order = refl;
  bounded = tt;
  others = λ id h. refl;
  grown = omega arith;
  unshut = refl;
  same_main = refl;
  same_process = refl;
  same_options = λ c. refl;
}
create_each-Made env (c ∷ cs) k =
    by_client (new_client env c) (new_client-HasConfig env c)
      (λ b. create_each-Made env cs (with_client b k))
  where
    made :
        (b : ClientImpl) (r : Option Error × List ℕ × Connector)
        → b.config ≡ c
        → MadeIfDone (with_client b k) cs r
        → MadeIfDone k (c ∷ cs) (r.0, k.next ∷ r.1, r.2)
    made b (some e, ids, k') h m = tt
    made b (none, ids, k') h m = cons-Made b c cs k k' ids h m

    by_client :
        (n : NewClient)
        → HasConfig c n
        → ((b : ClientImpl)
            → MadeIfDone (with_client b k) cs (create_each env cs (with_client b k)))
        → MadeIfDone k (c ∷ cs) (elim n [
          | rejected e ↦ (some e, [], k)
          | built b ↦
              let (err, ids, k') = create_each env cs (with_client b k) in (err, k.next ∷ ids, k')
        ])
    by_client (rejected e) h rest = tt
    by_client (built b) h rest = made b (create_each env cs (with_client b k)) h (rest b)

-- A connector as a configuration asks for it. The last part is the test of `reload` on the scheduler
-- options, with the same configuration.
pub record Fresh (config : ConnectorConfig) (k : Connector) : Type 0 where
  pub main_config : k.client.config ≡ config.main
  pub load_test_configs : map (λ id. (k.clients id).config) k.load_tests ≡ config.load_tests
  pub none_shut : k.shut ≡ []
  pub process_all_same : k.process_all ≡ config.process_all_load_test_packets
  pub reloadable : same_scheduler k config ≡ (
      is_positive config.scheduler_worker_number
      && (is_positive config.scheduler_channel_size
          && is_positive (parse_duration_in_ms config.scheduler_worker_idle_timeout_in_ms)))

start_with-reloadable :
    (main : ClientImpl) (config : ConnectorConfig)
    → same_scheduler (start_with main config) config ≡ (
        is_positive config.scheduler_worker_number
        && (is_positive config.scheduler_channel_size
            && is_positive (parse_duration_in_ms config.scheduler_worker_idle_timeout_in_ms)))
unfolding start_with scheduler_of normalise
start_with-reloadable main config =
    rw (kept_positive config.scheduler_worker_number default_max_worker refl) (
      rw (kept_positive config.scheduler_channel_size default_max_chan_size refl) (
        rw
          (kept_positive (parse_duration_in_ms config.scheduler_worker_idle_timeout_in_ms)
            default_worker_idle_timeout refl)
          refl))

abbrev FreshIfConnected : ConnectorConfig → NewConnector → Type 0
FreshIfConnected config (failed_with e) = Unit
FreshIfConnected config (connected k) = Fresh config k

create_clients-Fresh :
    (env : Env) (config : ConnectorConfig) → FreshIfConnected config (create_clients env config)
unfolding create_clients start_with MadeIfDone
create_clients-Fresh env config =
    by_main (new_client env config.main) (new_client-HasConfig env config.main)
  where
    by_loop :
        (main : ClientImpl) (r : Option Error × List ℕ × Connector)
        → main.config ≡ config.main
        → MadeIfDone (start_with main config) config.load_tests r
        → FreshIfConnected config (elim r.0 [
          | some e ↦ failed_with e
          | none ↦ connected (record (r.2) { load_tests = r.1 })
        ])
    by_loop main (some e, ids, k) h m = tt
    by_loop main (none, ids, k) h m = record {
      main_config = ap (λ c. c.config) m.same_main ∙ h;
      load_test_configs = m.in_order;
      none_shut = m.unshut;
      process_all_same = m.same_process;
      reloadable = m.same_options config ∙ start_with-reloadable main config;
    }

    by_main :
        (n : NewClient)
        → HasConfig config.main n
        → FreshIfConnected config (elim n [
          | rejected e ↦ failed_with e
          | built main ↦
              let (err, ids, k) = create_each env config.load_tests (start_with main config) in
              elim err [ some e ↦ failed_with e | none ↦ connected (record k { load_tests = ids }) ]
        ])
    by_main (rejected e) h = tt
    by_main (built main) h =
        by_loop main (create_each env config.load_tests (start_with main config)) h
          (create_each-Made env config.load_tests (start_with main config))

connected-Fresh :
    (env : Env) (config : ConnectorConfig) (k : Connector)
    → new_dynamic_connector env none config ≡ connected k
    → Fresh (init_and_validate config).1 k
unfolding new_dynamic_connector
connected-Fresh env config k h =
    subst (FreshIfConnected (init_and_validate config).1) h (by_error (init_and_validate config).0)
  where
    by_error :
        (err : Option Error)
        → FreshIfConnected (init_and_validate config).1 (elim err [
          | some e ↦ failed_with e
          | none ↦ create_clients env (init_and_validate config).1
        ])
    by_error (some e) = tt
    by_error none = create_clients-Fresh env (init_and_validate config).1

-- A connector that `NewDynamicConnector` returns has, for the configuration as it was accepted, a main
-- client of its main part, a load test client for each of its load tests, in their order, and its
-- ProcessAllLoadTestPackets; no client is shut down. A reload with the same configuration passes the
-- test on the scheduler exactly if the number of workers, the channel size and the idle timeout in
-- nanoseconds, as an int64, are positive. Where one is not, and `HotReload` is set, such a reload is
-- refused with the error of that test.
pub new_dynamic_connector-Fresh :
    (env : Env) (config : ConnectorConfig) (k : Connector)
    → new_dynamic_connector env none config ≡ connected k
    → let c = (init_and_validate config).1 in
      Fresh c k
      × (c.hot_reload ≡ true
          → (is_positive c.scheduler_worker_number
              && (is_positive c.scheduler_channel_size
                  && is_positive (parse_duration_in_ms c.scheduler_worker_idle_timeout_in_ms)))
            ≡ false
          → (env' : Env) → (reload_connector env' c k).0 ≡ some scheduler_change)
new_dynamic_connector-Fresh env config k h =
    let c = (init_and_validate config).1 in
    let fresh = connected-Fresh env config k h in
    (fresh, λ hot bad env'. other_scheduler env' c k hot (fresh.reloadable ∙ bad))
