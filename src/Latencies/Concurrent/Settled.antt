-- ===== src/Latencies/Concurrent/Settled.antt =====
-- What the ring of latencies.go holds once all calls of `Add` have returned.
use grab_redis.Base.{ℕ, ◌%◌, ◌<◌, ◌≤◌, ◌≡◌, sym, ap, subst, ◌∙◌, List, [], length, get_elem?, arith}
use grab_redis.Base.Int.{ℤ, pos, two_63}
use native.Mathlib.Nat.{mod-eq_of_lt}
use grab_redis.Latencies.Concurrent.{Adding, no_calls, Reach}
use grab_redis.Latencies.Concurrent.Kept.{IsStored, HoldsGiven, Inv, Reach-Inv}

-- All calls have returned: the count is of all of them, each slot that one of them uses has the value
-- of one that uses it, and the values of the first `n` calls are there if there are no more.
pub record Settled (n : ℕ) (s : Adding) : Type 0 where
  pub counted : s.ring.added ≡ pos (length s.given)
  pub filled : (j : ℕ) → j < length s.given → HoldsGiven n s.given s.ring.values j
  pub complete :
      length s.given ≤ n
      → (j : ℕ) → j < length s.given
      → get_elem? s.ring.values j ≡ get_elem? s.given j

Inv-Settled : (n : ℕ) (s : Adding) → s.taken ≡ [] → s.stored ≡ 0 → Inv n s → Settled n s
Inv-Settled n s none_taken none_stored i =
    let (c, is, sum) = i.tally in
    let filled : (j : ℕ) → j < length s.given → HoldsGiven n s.given s.ring.values j =
      λ j lt. i.slots j lt (subst (IsStored j) (sym none_taken) tt) in
    record {
      counted = is ∙ ap pos (omega (arith, sum, none_stored, ap length none_taken));
      filled = filled;
      complete = λ few j lt. only_one n s.given s.ring.values j few lt (filled j lt);
    }
  where
    only_one :
        (n : ℕ) (given values : List ℤ) (j : ℕ)
        → length given ≤ n
        → j < length given
        → HoldsGiven n given values j
        → get_elem? values j ≡ get_elem? given j
    only_one n given values j few lt (j', lt', same, e) =
        let at_j : j % n ≡ j = mod-eq_of_lt (omega arith) in
        let at_j' : j' % n ≡ j' = mod-eq_of_lt (omega arith) in
        ap (get_elem? values) (sym at_j) ∙ e ∙ ap (get_elem? given) (sym at_j' ∙ same ∙ at_j)

-- Calls of `Add` on a ring of `n` slots, in every interleaving of their atomic actions and before the
-- counters wrap: `added` is never more than the values stored, and a slot whose calls are not all
-- under way has the value of one of them. Once all calls have returned, `added` counts them all,
-- and with no more calls than slots every value is in its place.
pub latencies_concurrent :
    (n : ℕ) (s : Adding)
    → 0 < n
    → Reach (no_calls n) s
    → length s.given < two_63
    → Inv n s × (s.taken ≡ [] → s.stored ≡ 0 → Settled n s)
latencies_concurrent n s pn r small =
    let i = Reach-Inv n pn r small in
    (i, λ none_taken none_stored. Inv-Settled n s none_taken none_stored i)
