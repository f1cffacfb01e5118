-- ===== src/Latencies.antt =====
-- latencies.go: the ring of the last latencies of the scheduler. A panic of the source (an index
-- out of range, a remainder by zero) is `none`.
pub mod Recent
pub mod Concurrent
use grab_redis.Base.{
  ℕ, zero, suc, ◌+◌, ◌-◌, ◌%◌, ◌<◌, Bool, Option, none, some, List, [], ◌∷◌, length, set, take,
  replicate, ◌==◌, nat_eq, ltb, if◌then◌else◌,
}
use grab_redis.Base.Int.{ℤ, pos, negsuc, two_63, wrap64, add_int}
use grab_redis.Float.{Float64}

pub record Latencies : Type 0 where
  pub values : List ℤ
  pub index : ℤ
  pub added : ℤ

unfoldable pub new_latencies : ℕ → Latencies
new_latencies l = record { values = replicate l (pos 0); index = negsuc 0; added = pos 0 }

-- `atomic.AddInt64(&x, 1)`
unfoldable pub inc : ℤ → ℤ
inc (pos n) = if suc n == two_63 then negsuc (two_63 - 1) else pos (suc n)
inc (negsuc zero) = pos 0
inc (negsuc (suc n)) = negsuc n

-- `index % int64(len(l.values))`, as an index of the slice
unfoldable pub slot : ℤ → ℕ → Option ℕ
slot index zero = none
slot (pos i) (suc n) = some (i % suc n)
slot (negsuc i) (suc n) = if suc i % suc n == 0 then some 0 else none

unfoldable pub add : ℤ → Latencies → Option Latencies
unfolding inc slot
add value l = elim (slot (inc l.index) (length l.values)) [
  | none ↦ none
  | some i ↦
      some (record l { values = set l.values i value; index = inc l.index; added = inc l.added })
]

-- The loop of `Average`, with the wrap of an int64 sum.
sum_from : ℤ → List ℤ → ℤ
sum_from total [] = total
sum_from total (v ∷ vs) = sum_from (wrap64 (add_int total v)) vs

-- How many slots `Average` reads.
unfoldable pub sample_size : Latencies → ℕ
sample_size l = elim l.added [
  | pos n ↦ if ltb n (length l.values) then n else length l.values
  | negsuc n ↦ 0
]

module _ (f : Float64) where
  open f use {Float, of_int, div}

  unfoldable pub average : Latencies → Float
  unfolding sum_from sample_size
  average l =
      let n = sample_size l in
      if n == 0
      then of_int (pos 0)
      else div (of_int (sum_from (pos 0) (take n l.values))) (of_int (pos n))
