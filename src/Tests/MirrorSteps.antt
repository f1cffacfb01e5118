-- ===== src/Tests/MirrorSteps.antt =====
-- The mirror of connector.go with its workers, step by step.
use grab_redis.Base.{ℕ, ◌≡◌, ◌<◌, ◌+◌, refl, false, List, [], ◌∷◌, map, All, arith}
use grab_redis.Base.Text.{Str, str}
use grab_redis.Connector.Mirror.{Mirror, new_mirror, Reach, here, next, issue, bind, push, work}
use grab_redis.Connector.Mirror.Clients.{IsRight, mirror_accounts}
use grab_redis.Connector.Mirror.Counts.{times, accounts, due}

abbrev pair_of_clients : List ℕ
pair_of_clients = 4 ∷ 5 ∷ []

-- The loop has sent the function for client 4, and a worker has begun it.
abbrev one_begun : Mirror Str
one_begun = record (new_mirror 2) {
  queue = record {
    chan = record { items = []; cap = 2; closed = false };
    cells = 4 ∷ [];
    dropped = [];
  };
  commands = str "SET" ∷ [];
  calls = record { cell = 0; to_send = false; left = 5 ∷ [] } ∷ [];
  begun = record { cell = 0; client = 4; command = str "SET" } ∷ [];
}

first_begins : Reach false pair_of_clients (new_mirror 2) one_begun
first_begins =
    next
      (next (next (next here (issue (str "SET"))) (bind [] [] 0 4 (5 ∷ []) refl))
        (push [] [] 0 (5 ∷ []) refl refl (omega arith)))
      (work 0 4 (str "SET") [] refl refl refl refl)

mirror_accounts_example :
    ((k : ℕ) → accounts k one_begun ≡ due pair_of_clients k one_begun)
    × All (IsRight (λ client. 3 < client) (str "SET" ∷ [])) one_begun.begun
    × (one_begun.calls ≡ []
        → one_begun.queue.chan.items ≡ []
        → (k : ℕ) → k < 1
        → times k (map (λ b. b.cell) one_begun.begun) + times k one_begun.missed ≡ 2)
mirror_accounts_example =
    mirror_accounts (λ client. 3 < client) false pair_of_clients 2 one_begun
      (omega arith, (omega arith, tt)) first_begins
