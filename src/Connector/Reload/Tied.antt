-- ===== src/Connector/Reload/Tied.antt =====
-- Where each load test client of an accepted `reload` of connector.go comes from: an old one whose
-- configuration has the same name and which took the new one, or one that was made from the new one.
pub mod Names
pub mod Rounds
pub mod Loop
pub mod Accepted
use mathlib.Core.List.{Perm}
use grab_redis.Base.{ℕ, ◌≡◌, ◌≢◌, ◌⊎◌, none, List, [], ◌∷◌}
use grab_redis.Base.Text.{Str}
use grab_redis.Config.Address.{name}
use grab_redis.Config.Records.{ClientConfig}
use grab_redis.Connector.Mirror.Counts.{times}
use grab_redis.Connector.Reload.{Env, ClientImpl, built, new_client, Connector, reload_client}

-- A client as the loop over the old clients leaves it: `name` has sorted its addresses.
abbrev pub named : ClientImpl → ClientImpl
named c = record c { config = (name c.config).1 }

-- All clients but one are as before.
abbrev pub Same : ℕ → Connector → Connector → Type 0
Same id k k' = (j : ℕ) → j ≢ id → k'.clients j ≡ k.clients j

module _ (env : Env) (start : ℕ → ClientImpl) where
  -- The old client `id` had the name of `config`, and its `reload` took the configuration.
  abbrev pub Reused : ClientConfig → ℕ → ClientImpl → Type 0
  Reused config id c =
      ((name (start id).config).0 ≡ (name config).0)
      × (addrs : List Str) × Perm addrs ((name config).1).addrs
      × (reload_client env (start id) (record ((name config).1) { addrs = addrs }) ≡ (none, c))

  -- A new client was made from `config`, and no old client of its name is among those in `gone`.
  abbrev pub Made : List ℕ → ClientConfig → ClientImpl → Type 0
  Made gone config c =
      (new_client env (name config).1 ≡ built c)
      × ((j : ℕ) → (name (start j).config).0 ≡ (name config).0 → times j gone ≡ 0)

  -- Every client of the list, by its place, against the configuration at that place.
  unfoldable pub Tied : List ℕ → List ClientConfig → List ℕ → (ℕ → ClientImpl) → Type 0
  Tied gone [] [] clients = Unit
  Tied gone (config ∷ configs) (id ∷ ids) clients =
      (Reused config id (clients id) ⊎ Made gone config (clients id))
      × Tied gone configs ids clients
  Tied gone _ _ clients = ⊥
