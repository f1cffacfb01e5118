-- ===== src/Connector/Reload/Tied/Loop.antt =====
-- The loop over the new configurations in `reload` of connector.go.
use mathlib.Core.List.{Perm}
use native.Mathlib.Decide.{dec_lt}
use grab_redis.Base.{
  ℕ, suc, ◌<◌, ◌≤◌, ◌≡◌, ◌≢◌, refl, ◌∙◌, subst, List, [], ◌∷◌, arith, nat_eq, inl, inr,
}
use grab_redis.Base.Text.{str_eq}
use grab_redis.Config.Address.{name}
use grab_redis.Config.Records.{ClientConfig}
use grab_redis.Connector.Reload.{
  Env, ClientImpl, new_client, built, Connector, Round, failed, reused, created, Loop, stopped,
  finished, then_id, reload_one, reload_each,
}
use grab_redis.Connector.Mirror.Counts.{times, times-perm, times_self, times_tail}
use grab_redis.Connector.Reload.Clients
use grab_redis.Connector.Reload.Clients.{
  reload_one-IsRound, reload_each-IsLoop, IsLoop, Kept, reload_connector-Kept, index_clients-perm,
}
use grab_redis.Connector.Reload.Pool.{ByName, members}
use grab_redis.Connector.Reload.Tied.{Reused, Tied, Same}
use grab_redis.Connector.Reload.Tied.Names.{AreNamed, Missing}
use grab_redis.Connector.Reload.Tied.Rounds.{RoundTied, reload_one-RoundTied}

module _ (env : Env) (start : ℕ → ClientImpl) where
  -- What holds of the map and the store in front of a round.
  pub record Stored (pool : ByName) (k : Connector) : Type 0 where
    pub names : AreNamed start pool
    pub once : (j : ℕ) → times j (members pool) ≤ 1
    pub older : (j : ℕ) → k.next ≤ j → times j (members pool) ≡ 0
    pub old : (j : ℕ) → times j (members pool) ≢ 0 → k.clients j ≡ start j

  -- A client is taken out of the map: it is not there any more.
  reused-Stored :
      (id : ℕ) (pool pool' : ByName) (k k' : Connector)
      → Stored pool k
      → Perm (members pool) (id ∷ members pool')
      → k'.next ≡ k.next
      → AreNamed start pool'
      → Same id k k'
      → Stored pool' k' × (times id (members pool') ≡ 0) × (id < k.next)
  reused-Stored id pool pool' k k' s p n names same =
      let gone : times id (members pool') ≡ 0 =
        omega (arith, s.once id, times-perm id p, times_self id (members pool')) in
      (
        record {
          names = names;
          once = λ j. omega (arith, s.once j, times-perm j p, times_tail j id (members pool'));
          older = λ j le.
              let none_there = s.older j (omega (arith, n)) in
              omega (arith, times-perm j p, times_tail j id (members pool'));
          old = λ j there.
              let there' : times j (members pool) ≢ 0 =
                λ e. there (omega (arith, times-perm j p, times_tail j id (members pool'))) in
              same j (λ e. there (rw e gone)) ∙ s.old j there';
        },
        gone,
        elim (dec_lt id k.next) [
          | yes lt ↦ lt
          | no ge ↦
              let e = s.older id (omega arith) in
              absurd (omega (arith, times-perm id p, times_self id (members pool')))
        ],
      )

  created-Stored :
      (pool : ByName) (k k' : Connector)
      → Stored pool k
      → k'.next ≡ suc k.next
      → Same k.next k k'
      → Stored pool k'
  created-Stored pool k k' s n same = record {
    names = s.names;
    once = s.once;
    older = λ j le. s.older j (omega (arith, n));
    old = λ j there. same j (λ e. there (s.older j (omega arith))) ∙ s.old j there;
  }

  abbrev pub Frame : ByName → Connector → Connector → Type 0
  Frame pool k k' = (j : ℕ) → j < k.next → times j (members pool) ≡ 0 → k'.clients j ≡ k.clients j

  -- The map loses clients only.
  abbrev pub Fewer : ByName → ByName → Type 0
  Fewer pool rest = (j : ℕ) → times j (members rest) ≤ times j (members pool)

  abbrev pub Ends : List ClientConfig → ByName → Connector → Loop → Type 0
  Ends configs pool k (stopped e k') = Unit
  Ends configs pool k (finished ids rest k') =
      Tied env start (members rest) configs ids k'.clients × Frame pool k k' × Fewer pool rest

  pub reload_each-Ends :
      (configs : List ClientConfig) (pool : ByName) (k : Connector)
      → Stored pool k
      → Ends configs pool k (reload_each env configs pool k)
  unfolding reload_each Tied
  reload_each-Ends [] pool k s = (tt, λ j lt none_there. refl, λ j. omega arith)
  reload_each-Ends (config ∷ configs) pool k s =
      by_round (λ pool' k' s'. reload_each-Ends configs pool' k' s') (reload_one env config pool k)
        (reload_one-IsRound env config pool k)
        (reload_one-RoundTied env start config pool k s.names s.old)
    where
      with_reused :
          (id : ℕ) (pool' : ByName) (k' : Connector) (r : Loop)
          → Perm (members pool) (id ∷ members pool')
          → k'.next ≡ k.next
          → Reused env start config id (k'.clients id)
          → Same id k k'
          → times id (members pool') ≡ 0
          → id < k.next
          → Ends configs pool' k' r
          → Ends (config ∷ configs) pool k (then_id id r)
      with_reused id pool' k' (stopped e k'') p n u same gone lt h = tt
      with_reused id pool' k' (finished ids rest k'') p n u same gone lt (h, frame, fewer) = (
        (inl (rw (frame id (omega (arith, n)) gone) u), h),
        λ j less none_there.
            frame j (omega (arith, n))
              (omega (arith, times-perm j p, times_tail j id (members pool')))
            ∙ same j (λ e.
              let at_id : times id (members pool) ≡ 0 = rw (← e) none_there in
              absurd (omega (arith, times-perm id p, times_self id (members pool')))),
        λ j. omega (arith, fewer j, times-perm j p, times_tail j id (members pool')),
      )

      with_made :
          (id : ℕ) (k' : Connector) (r : Loop)
          → id ≡ k.next
          → k'.next ≡ suc k.next
          → new_client env (name config).1 ≡ built (k'.clients id)
          → Missing start (name config).0 pool
          → Same id k k'
          → Ends configs pool k' r
          → Ends (config ∷ configs) pool k (then_id id r)
      with_made id k' (stopped e k'') i n u missing same h = tt
      with_made id k' (finished ids rest k'') i n u missing same (h, frame, fewer) = (
        (
          inr (
            rw (frame id (omega (arith, i, n)) (s.older id (omega (arith, i)))) u,
            λ j e. omega (arith, fewer j, missing j e),
          ),
          h,
        ),
        λ j less none_there.
            frame j (omega (arith, n)) none_there ∙ same j (λ e. absurd (omega (arith, i))),
        fewer,
      )

      by_round :
          ((pool' : ByName) (k' : Connector)
            → Stored pool' k'
            → Ends configs pool' k' (reload_each env configs pool' k'))
          → (r : Round) → Clients.IsRound pool k r
          → RoundTied env start config pool k r
          → Ends (config ∷ configs) pool k (elim r [
            | failed e k' ↦ stopped e k'
            | reused id pool' k' ↦ then_id id (reload_each env configs pool' k')
            | created id k' ↦ then_id id (reload_each env configs pool k')
          ])
      by_round ih (failed e k') i t = tt
      by_round ih (reused id pool' k') (p, n, q) (names, u, same) =
          let (s', gone, lt) = reused-Stored id pool pool' k k' s p n names same in
          with_reused id pool' k' _ p n u same gone lt (ih pool' k' s')
      by_round ih (created id k') (i, n, q) (u, missing, same) =
          with_made id k' _ i n u missing same
            (ih pool k' (created-Stored pool k k' s n (subst (λ x. Same x k k') i same)))
