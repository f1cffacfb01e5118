-- ===== src/Connector/Reload/Tied/Rounds.antt =====
-- One round of the loop over the new configurations in `reload` of connector.go.
use mathlib.Core.List.{Perm}
use grab_redis.Base.{
  ℕ, suc, ◌≡◌, ◌≢◌, refl, sym, ap, ◌∙◌, subst, Bool, true, false, Option, none, some, List, ◌∷◌,
  arith, nat_eq, if◌then◌else◌,
}
use grab_redis.Base.Text.{Str, str_eq}
use grab_redis.Config.Address.{name, is_addrs_equals, is_addrs_equals-perm}
use grab_redis.Config.Records.{ClientConfig}
use grab_redis.Connector.Reload.{
  Env, ClientImpl, NewClient, built, rejected, new_client, Connector, Round, failed, reused,
  created, put, reuse, create, reload_one, reload_client,
}
use grab_redis.Connector.Mirror.Counts.{times, times-perm, times_self}
use grab_redis.Connector.Reload.Pool
use grab_redis.Connector.Reload.Pool.{
  ByName, add_to, take_from, pop_last, members, take_from-IsTaken,
}
use grab_redis.Errors.{Error}
use grab_redis.Connector.Reload.Tied.{Reused, Same}
use grab_redis.Connector.Reload.Tied.Names.{AreNamed, Missing, IsTaken, take_from-named, put-Same}

times-head : (id : ℕ) (xs ys : List ℕ) → Perm xs (id ∷ ys) → times id xs ≢ 0
times-head id xs ys p e = absurd (omega (arith, times-perm id p, times_self id ys))

module _ (env : Env) (start : ℕ → ClientImpl) where
  abbrev pub RoundTied : ClientConfig → ByName → Connector → Round → Type 0
  RoundTied config pool k (failed e k') = Unit
  RoundTied config pool k (reused id pool' k') =
      AreNamed start pool' × Reused env start config id (k'.clients id) × Same id k k'
  RoundTied config pool k (created id k') =
      (new_client env (name config).1 ≡ built (k'.clients id))
      × Missing start (name config).0 pool
      × Same id k k'

  reuse-RoundTied :
      (config : ClientConfig) (id : ℕ) (pool pool' : ByName) (k : Connector)
      → (name (start id).config).0 ≡ (name config).0
      → k.clients id ≡ start id
      → AreNamed start pool'
      → RoundTied config pool k (reuse env (name config).1 id pool' k)
  unfolding reuse
  reuse-RoundTied config id pool pool' k same old h =
      let addrs = (is_addrs_equals ((k.client).config).addrs ((name config).1).addrs).2 in
      let (_, p) = is_addrs_equals-perm ((k.client).config).addrs ((name config).1).addrs in
      by_test (is_addrs_equals ((k.client).config).addrs ((name config).1).addrs).0 addrs p
        (reload_client env (k.clients id) (record ((name config).1) { addrs = addrs }))
        (subst
          (λ c.
            reload_client env c (record ((name config).1) { addrs = addrs })
            ≡ reload_client env (k.clients id) (record ((name config).1) { addrs = addrs }))
          old refl)
        _ _ refl
    where
      by_test :
          (b : Bool) (addrs : List Str)
          → Perm addrs ((name config).1).addrs
          → (r : Option Error × ClientImpl)
          → reload_client env (start id) (record ((name config).1) { addrs = addrs }) ≡ r
          → (e : Error) (k' : Connector) → k'.clients ≡ k.clients
          → RoundTied config pool k (
              if b then failed e k' else elim r.0 [
                | some e ↦ failed e (put id r.1 k')
                | none ↦ reused id pool' (put id r.1 k')
              ])
      by_test true addrs p r t e k' s = tt
      by_test false addrs p (some e', c) t e k' s = tt
      by_test false addrs p (none, c) t e k' s =
          let (here, others) = put-Same id c k' in
          (
            h,
            (same, addrs, p, t ∙ ap (λ c. (none, c)) (sym here)),
            λ j n. others j n ∙ ap (λ f. f j) s,
          )

  create-RoundTied :
      (config : ClientConfig) (pool : ByName) (k : Connector)
      → Missing start (name config).0 pool
      → RoundTied config pool k (create env (name config).1 k)
  unfolding create
  create-RoundTied config pool k missing = by_new (new_client env (name config).1) refl
    where
      by_new :
          (r : NewClient)
          → new_client env (name config).1 ≡ r
          → RoundTied config pool k (elim r [
            | built c ↦ created k.next (record (put k.next c k) { next = suc k.next })
            | rejected e ↦ failed e k
          ])
      by_new (rejected e) t = tt
      by_new (built c) t =
          let (here, others) = put-Same k.next c k in (t ∙ ap built (sym here), missing, others)

  pub reload_one-RoundTied :
      (config : ClientConfig) (pool : ByName) (k : Connector)
      → AreNamed start pool
      → ((j : ℕ) → times j (members pool) ≢ 0 → k.clients j ≡ start j)
      → RoundTied config pool k (reload_one env config pool k)
  unfolding reload_one
  reload_one-RoundTied config pool k h old =
      by_take (take_from (name config).0 pool) (take_from-IsTaken (name config).0 pool)
        (take_from-named start (name config).0 pool h)
    where
      by_take :
          (r : Option (ℕ × ByName))
          → Pool.IsTaken pool r
          → IsTaken start (name config).0 pool r
          → RoundTied config pool k (elim r [
            | some (id, pool') ↦ reuse env (name config).1 id pool' k
            | none ↦ create env (name config).1 k
          ])
      by_take none p t = create-RoundTied config pool k t
      by_take (some (id, pool')) p (same, h') =
          reuse-RoundTied config id pool pool' k same
            (old id (times-head id (members pool) (members pool') p)) h'
