-- ===== src/Latencies/Concurrent.antt =====
-- latencies.go: calls of `Add` by several workers at once, as their atomic actions.
pub mod Kept
pub mod Settled
pub mod Stale
use grab_redis.Base.{ℕ, suc, ◌≡◌, some, List, [], ◌∷◌, ◌++◌, length, set}
use grab_redis.Base.Int.{ℤ}
use grab_redis.Latencies.{Latencies, new_latencies, inc, slot}

-- `given` are the values of the calls so far, in the order in which they took their index; `taken` the
-- calls that have an index and have not stored their value, `stored` how many have stored it and have
-- not counted it.
pub record Adding : Type 0 where
  pub ring : Latencies
  pub given : List ℤ
  pub taken : List (ℤ × ℤ)
  pub stored : ℕ

abbrev pub no_calls : ℕ → Adding
no_calls l = record { ring = new_latencies l; given = []; taken = []; stored = 0 }

pub data Step (s : Adding) : Adding → Type 0 where
  -- a call begins: `atomic.AddInt64(&l.index, 1)`
  take_index :
      (value : ℤ)
      → Step s (record s {
        ring = record (s.ring) { index = inc s.ring.index };
        given = s.given ++ (value ∷ []);
        taken = s.taken ++ ((inc s.ring.index, value) ∷ []);
      })
  -- `atomic.StoreInt64(&l.values[index], value)`, by any of them
  store_value :
      (before after : List (ℤ × ℤ)) (index value : ℤ) (i : ℕ)
      → s.taken ≡ before ++ ((index, value) ∷ after)
      → slot index (length s.ring.values) ≡ some i
      → Step s (record s {
        ring = record (s.ring) { values = set s.ring.values i value };
        taken = before ++ after;
        stored = suc s.stored;
      })
  -- `atomic.AddInt64(&l.added, 1)`
  count_value :
      (m : ℕ)
      → s.stored ≡ suc m
      → Step s (record s { ring = record (s.ring) { added = inc s.ring.added }; stored = m })

pub data Reach (s : Adding) : Adding → Type 0 where
  here : Reach s s
  next : {t u : Adding} → Reach s t → Step t u → Reach s u
