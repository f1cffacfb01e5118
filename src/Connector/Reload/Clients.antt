-- ===== src/Connector/Reload/Clients.antt =====
-- What an accepted `reload` of connector.go does with the load test clients: each old one is kept or
-- shut down, and never both.
use mathlib.Core.List.{Perm, perm_middle}
use mathlib.Core.List.Perm
use grab_redis.Base.{
  ℕ, suc, ◌≡◌, ◌≤◌, refl, sym, ap, ◌∙◌, append-nil, subst, Bool, true, false, Option, none, some,
  List, [], ◌∷◌, ◌++◌, length, All, arith, if◌then◌else◌,
}
use grab_redis.Config.Address.{name}
use grab_redis.Config.Records.{ClientConfig, ConnectorConfig}
use grab_redis.Connector.Reload.{
  Env, Connector, Round, failed, reused, created, Loop, stopped, finished, then_id, put,
  index_clients, reuse, create, reload_one, reload_each, reload_load_tests, reload_client,
  reload_connector, same_scheduler,
}
use grab_redis.Connector.Reload.Pool.{
  ByName, add_to, add_to-perm, take_from, IsTaken, take_from-IsTaken, members,
}
use grab_redis.Errors.{Error}

-- A round takes its client from the map, or makes one with the next number.
abbrev pub IsRound : ByName → Connector → Round → Type 0
IsRound pool k (failed e k') = Unit
IsRound pool k (reused id pool' k') =
    Perm (members pool) (id ∷ members pool') × (k'.next ≡ k.next) × (k'.shut ≡ k.shut)
IsRound pool k (created id k') = (id ≡ k.next) × (k'.next ≡ suc k.next) × (k'.shut ≡ k.shut)

reuse-IsRound :
    (env : Env) (config : ClientConfig) (id : ℕ) (pool pool' : ByName) (k : Connector)
    → Perm (members pool) (id ∷ members pool')
    → IsRound pool k (reuse env config id pool' k)
unfolding reuse put
reuse-IsRound env config id pool pool' k p = ground arith

create-IsRound :
    (env : Env) (config : ClientConfig) (pool : ByName) (k : Connector)
    → IsRound pool k (create env config k)
unfolding create put
create-IsRound env config pool k = ground arith

pub reload_one-IsRound :
    (env : Env) (config : ClientConfig) (pool : ByName) (k : Connector)
    → IsRound pool k (reload_one env config pool k)
unfolding reload_one
reload_one-IsRound env config pool k =
    by_take (take_from (name config).0 pool) (take_from-IsTaken (name config).0 pool)
  where
    by_take :
        (r : Option (ℕ × ByName))
        → IsTaken pool r
        → IsRound pool k (elim r [
          | some (id, pool') ↦ reuse env (name config).1 id pool' k
          | none ↦ create env (name config).1 k
        ])
    by_take none t = create-IsRound env (name config).1 pool k
    by_take (some (id, pool')) p = reuse-IsRound env (name config).1 id pool pool' k p

-- The new list of clients is made of old ones and new ones; every old client is among them or shut
-- down, once. The new ones have numbers from `bound` on.
pub record Split (bound : ℕ) (old ids gone : List ℕ) : Type 0 where
  pub kept : List ℕ
  pub made : List ℕ
  pub same_new : Perm ids (kept ++ made)
  pub same_old : Perm old (kept ++ gone)
  pub fresh : All (λ i. bound ≤ i) made

abbrev pub IsLoop : ℕ → ℕ → ByName → Connector → Loop → Type 0
IsLoop bound n pool k (stopped e k') = Unit
IsLoop bound n pool k (finished ids rest k') =
    Split bound (members pool) ids (members rest) × (length ids ≡ n) × (k'.shut ≡ k.shut)

pub reload_each-IsLoop :
    (bound : ℕ) (env : Env) (configs : List ClientConfig) (pool : ByName) (k : Connector)
    → bound ≤ k.next
    → IsLoop bound (length configs) pool k (reload_each env configs pool k)
unfolding reload_each
reload_each-IsLoop bound env [] pool k b = (
  record { kept = []; made = []; same_new = Perm.rfl; same_old = Perm.rfl; fresh = tt },
  refl,
  refl,
)
reload_each-IsLoop bound env (config ∷ configs) pool k b =
    by_round (λ pool' k' f. reload_each-IsLoop bound env configs pool' k' f)
      (reload_one env config pool k) (reload_one-IsRound env config pool k)
  where
    with_kept :
        (id : ℕ) (pool' : ByName) (k' : Connector) (r : Loop)
        → Perm (members pool) (id ∷ members pool')
        → k'.shut ≡ k.shut
        → IsLoop bound (length configs) pool' k' r
        → IsLoop bound (suc (length configs)) pool k (then_id id r)
    with_kept id pool' k' (stopped e k'') p q l = tt
    with_kept id pool' k' (finished ids rest k'') p q (s, n, t) = (
      record {
        kept = id ∷ s.kept;
        made = s.made;
        same_new = Perm.cons id s.same_new;
        same_old = Perm.trans p (Perm.cons id s.same_old);
        fresh = s.fresh;
      },
      ap suc n,
      t ∙ q,
    )

    with_made :
        (id : ℕ) (k' : Connector) (r : Loop)
        → bound ≤ id
        → k'.shut ≡ k.shut
        → IsLoop bound (length configs) pool k' r
        → IsLoop bound (suc (length configs)) pool k (then_id id r)
    with_made id k' (stopped e k'') f q l = tt
    with_made id k' (finished ids rest k'') f q (s, n, t) = (
      record {
        kept = s.kept;
        made = id ∷ s.made;
        same_new = Perm.trans (Perm.cons id s.same_new) (Perm.symm (perm_middle s.kept s.made));
        same_old = s.same_old;
        fresh = (f, s.fresh);
      },
      ap suc n,
      t ∙ q,
    )

    by_round :
        ((pool' : ByName) (k' : Connector)
          → bound ≤ k'.next
          → IsLoop bound (length configs) pool' k' (reload_each env configs pool' k'))
        → (r : Round) → IsRound pool k r
        → IsLoop bound (suc (length configs)) pool k (elim r [
          | failed e k' ↦ stopped e k'
          | reused id pool' k' ↦ then_id id (reload_each env configs pool' k')
          | created id k' ↦ then_id id (reload_each env configs pool k')
        ])
    by_round ih (failed e k') i = tt
    by_round ih (reused id pool' k') (p, n, q) =
        with_kept id pool' k' _ p q (ih pool' k' (omega (arith, n)))
    by_round ih (created id k') (e, n, q) =
        with_made id k' _ (omega (arith, e)) q (ih pool k' (omega (arith, n)))

-- The loop over the old clients puts each into the map, and changes no number.
pub index_clients-perm :
    (ids : List ℕ) (pool : ByName) (k : Connector)
    → let (pool', k') = index_clients ids pool k in
      Perm (members pool') (members pool ++ ids) × (k'.next ≡ k.next) × (k'.shut ≡ k.shut)
unfolding index_clients put
index_clients-perm [] pool k =
    (subst (λ l. Perm (members pool) l) (sym (append-nil (members pool))) Perm.rfl, refl, refl)
index_clients-perm (id ∷ ids) pool k =
    let (n, c) = name (k.clients id).config in
    let (p, m, q) =
      index_clients-perm ids (add_to n id pool) (put id (record (k.clients id) { config = c }) k) in
    (
      Perm.trans p (
          Perm.trans (Perm.append_right ids (add_to-perm n id pool))
            (Perm.symm (perm_middle (members pool) ids))),
      m,
      q,
    )

-- What an accepted reload has done: as many clients as the configuration names, and what `Split`
-- says of them and of the clients that it shut down.
abbrev pub Kept : Connector → List ClientConfig → Connector → Type 0
Kept k configs k' =
    (gone : List ℕ) × (k'.shut ≡ k.shut ++ gone)
    × Split k.next k.load_tests k'.load_tests gone
    × (length k'.load_tests ≡ length configs)

abbrev Keeps : Connector → List ClientConfig → Option Error × Connector → Type 0
Keeps k configs (some e, k') = Unit
Keeps k configs (none, k') = Kept k configs k'

reload_load_tests-Keeps :
    (env : Env) (configs : List ClientConfig) (k : Connector)
    → Keeps k configs (reload_load_tests env configs k)
unfolding reload_load_tests members
reload_load_tests-Keeps env configs k =
    let (pool, k1) = index_clients k.load_tests [] k in
    let (p, n, q) = index_clients-perm k.load_tests [] k in
    by_loop pool k1 p q (reload_each env configs pool k1)
      (reload_each-IsLoop k.next env configs pool k1 (omega (arith, n)))
  where
    by_loop :
        (pool : ByName) (k1 : Connector)
        → Perm (members pool) k.load_tests
        → k1.shut ≡ k.shut
        → (r : Loop) → IsLoop k.next (length configs) pool k1 r
        → Keeps k configs (elim r [
          | stopped e k'' ↦ (some e, k'')
          | finished ids rest k'' ↦
              (none, record k'' { load_tests = ids; shut = k''.shut ++ members rest })
        ])
    by_loop pool k1 p q (stopped e k'') l = tt
    by_loop pool k1 p q (finished ids rest k'') (s, n, t) = (
      members rest,
      ap (λ l. l ++ members rest) (t ∙ q),
      record {
        kept = s.kept;
        made = s.made;
        same_new = s.same_new;
        same_old = Perm.trans (Perm.symm p) s.same_old;
        fresh = s.fresh;
      },
      n,
    )

if_Keeps :
    (k k' : Connector) (configs : List ClientConfig) (e : Error) (r : Option Error × Connector)
    (b : Bool)
    → Keeps k configs r
    → Keeps k configs (if b then r else (some e, k'))
if_Keeps k k' configs e r true h = h
if_Keeps k k' configs e r false h = tt

main_Keeps :
    (env : Env) (k k2 : Connector) (configs : List ClientConfig) (err : Option Error)
    → Keeps k configs (reload_load_tests env configs k2)
    → Keeps k configs (elim err [ some e ↦ (some e, k2) | none ↦ reload_load_tests env configs k2 ])
main_Keeps env k k2 configs none h = h
main_Keeps env k k2 configs (some e) h = tt

of_Keeps :
    (k : Connector) (configs : List ClientConfig) (r : Option Error × Connector)
    → r.0 ≡ none
    → Keeps k configs r
    → Kept k configs r.1
of_Keeps k configs (none, k') e h = h
of_Keeps k configs (some x, k') e h = absurd (cc)

-- An accepted reload, with `HotReload` set, leaves one load test client for each configuration that
-- it names. These are old clients and new ones; each old client is either among them or shut down,
-- once, and no other client is shut down.
pub reload_connector-Kept :
    (env : Env) (config : ConnectorConfig) (k : Connector)
    → config.hot_reload ≡ true
    → (reload_connector env config k).0 ≡ none
    → Kept k config.load_tests (reload_connector env config k).1
unfolding reload_connector
reload_connector-Kept env config k hot h =
    let k1 = record k { process_all = config.process_all_load_test_packets } in
    let (err, main) = reload_client env k.client config.main in
    of_Keeps k config.load_tests (reload_connector env config k) h (
      rw hot (
        if_Keeps k _ config.load_tests _ _ (same_scheduler k1 config) (
          main_Keeps env k (record k1 { client = main }) config.load_tests err
            (reload_load_tests-Keeps env config.load_tests (record k1 { client = main })))))
