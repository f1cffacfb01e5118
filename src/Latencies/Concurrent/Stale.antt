-- ===== src/Latencies/Concurrent/Stale.antt =====
-- A call of `Add` in latencies.go that is late replaces a newer value.
use grab_redis.Base.{
  get_elem?-set_self, get_elem?-append_last, length-snoc, ℕ, zero, suc, ◌%◌, ◌<◌, ◌≡◌, refl, sym,
  ap, ◌∙◌, some, List, [], ◌∷◌, ◌++◌, length, get_elem?, append-nil, arith,
}
use grab_redis.Base.Int.{ℤ, pos, two_63}
use native.Mathlib.Nat.{mod-eq_of_lt}
use grab_redis.Latencies.{new_latencies, inc, slot}
use grab_redis.Latencies.Concurrent.{
  Adding, no_calls, take_index, store_value, count_value, Reach, here, next,
}
use grab_redis.Latencies.Concurrent.Kept.{Inv, Reach-Inv}
use grab_redis.Latencies.Recent.{inc-index_after, slot-pos}

-- The first call, with the value `v`, has its index only; `vs` are the values of the calls behind it,
-- which have returned.
record Waits (n : ℕ) (v : ℤ) (vs : List ℤ) (s : Adding) : Type 0 where
  pub steps : Reach (no_calls n) s
  pub taken : s.taken ≡ (pos 0, v) ∷ []
  pub given : s.given ≡ v ∷ vs
  pub stored : s.stored ≡ 0

first-Waits : (n : ℕ) (v : ℤ) → (s : Adding) × Waits n v [] s
unfolding new_latencies inc
first-Waits n v =
    (_, record { steps = next here (take_index v); taken = refl; given = refl; stored = refl })

-- A whole call behind the first.
one_behind :
    (n : ℕ) (v w : ℤ) (vs : List ℤ) (s : Adding)
    → 0 < n
    → suc (length vs) < two_63
    → Waits n v vs s
    → (t : Adding) × Waits n v (vs ++ (w ∷ [])) t
one_behind n v w vs s pn small h =
    let i : Inv n s = Reach-Inv n pn h.steps (omega (arith, ap length h.given)) in
    let at : inc s.ring.index ≡ pos (length s.given) =
      ap inc i.at ∙ inc-index_after (length s.given) (omega (arith, ap length h.given)) in
    let here : slot (inc s.ring.index) (length s.ring.values) ≡ some (length s.given % n) =
      ap (slot (inc s.ring.index)) i.size
      ∙ ap (λ x. slot x n) at
      ∙ slot-pos (length s.given) n pn in
    (
      _,
      record {
        steps =
            next
              (next (next h.steps (take_index w))
                (store_value s.taken [] (inc s.ring.index) w _ refl here))
              (count_value s.stored refl);
        taken = append-nil s.taken ∙ h.taken;
        given = ap (λ l. l ++ (w ∷ [])) h.given;
        stored = h.stored;
      },
    )

many_behind :
    (n m : ℕ) (v w : ℤ)
    → 0 < n
    → suc m < two_63
    → (vs : List ℤ) × (s : Adding) × (length vs ≡ m) × Waits n v vs s
many_behind n zero v w pn small = let (s, h) = first-Waits n v in ([], s, refl, h)
many_behind n (suc m) v w pn small =
    let (vs, s, len, h) = many_behind n m v w pn (omega arith) in
    let (t, h') = one_behind n v w vs s pn (omega arith) h in
    (vs ++ (w ∷ []), t, omega (arith, length-snoc vs w), h')

-- A ring of any size: the first of `n + 1` calls of `Add` may store its value last. When all have
-- returned, slot 0, in which number `n` belongs as well as number 0, has its value, and not the newest.
pub latencies_stale :
    (n : ℕ) (v w : ℤ)
    → 0 < n
    → suc n < two_63
    → (t : Adding) × Reach (no_calls n) t
      × (t.taken ≡ [])
      × (t.stored ≡ 0)
      × (length t.given ≡ suc n)
      × (get_elem? t.given 0 ≡ some v)
      × (get_elem? t.given n ≡ some w)
      × (get_elem? t.ring.values 0 ≡ some v)
latencies_stale zero v w pn small = absurd (omega arith)
latencies_stale (suc m) v w pn small =
    let (vs, s, len, h) = many_behind (suc m) m v w pn (omega arith) in
    let (t, h') = one_behind (suc m) v w vs s pn (omega arith) h in
    let count : length t.given ≡ suc (suc m) =
      omega (arith, ap length h'.given, length-snoc vs w) in
    let i : Inv (suc m) t = Reach-Inv (suc m) pn h'.steps (omega (arith, count)) in
    let at_slot : slot (pos 0) (length t.ring.values) ≡ some 0 =
      ap (slot (pos 0)) i.size ∙ slot-pos 0 (suc m) pn ∙ ap (λ k. some k) (mod-eq_of_lt pn) in
    (
      _,
      next (next h'.steps (store_value [] [] (pos 0) v 0 h'.taken at_slot))
          (count_value t.stored refl),
      refl,
      h'.stored,
      count,
      ap (λ l. get_elem? l 0) h'.given,
      ap (λ l. get_elem? l (suc m)) h'.given
          ∙ ap (get_elem? (vs ++ (w ∷ []))) (sym len)
          ∙ get_elem?-append_last vs w,
      get_elem?-set_self t.ring.values 0 v (omega (arith, i.size)),
    )
