-- ===== src/Latencies/Concurrent/Kept.antt =====
-- What the ring of latencies.go holds while several workers add to it.
use grab_redis.Base.{
  get_elem?-set_self, get_elem?-set_ne, get_elem?-append_left, get_elem?-append_last, length-snoc,
  ℕ, suc, ◌+◌, ◌%◌, ◌<◌, ◌≡◌, ◌≢◌, refl, sym, ap, subst, ◌∙◌, some, some-injective, List, [], ◌∷◌,
  ◌++◌, length, set, get_elem?, length-set, length-append, length-replicate, All, All-snoc,
  All-unsnoc, All-remove, All-insert, All-weaken, arith,
}
use grab_redis.Base.Int.{ℤ, pos, two_63}
use native.Mathlib.Nat.{mod-lt}
use native.Mathlib.Decide.{ℕ_discrete}
use grab_redis.Latencies.{new_latencies, inc, slot}
use grab_redis.Latencies.Concurrent.{
  Adding, no_calls, take_index, store_value, count_value, Reach, here, next,
}
use grab_redis.Latencies.Recent.{index_after, inc-index_after, inc-pos, slot-pos}

-- The call with number `j` has its value still to store.
abbrev pub IsStored : ℕ → List (ℤ × ℤ) → Type 0
IsStored j taken = All (λ c. c.0 ≢ pos j) taken

-- A call under way has the number that its value has among the values given.
abbrev IsGiven : List ℤ → ℤ × ℤ → Type 0
IsGiven given c = (k : ℕ) × (c.0 ≡ pos k) × (k < length given) × (get_elem? given k ≡ some c.1)

-- The slot of `j` holds the value of a call that uses the slot.
abbrev pub HoldsGiven : ℕ → List ℤ → List ℤ → ℕ → Type 0
HoldsGiven n given values j =
    (j' : ℕ) × (j' < length given)
    × (j' % n ≡ j % n)
    × (get_elem? values (j % n) ≡ get_elem? given j')

pub record Inv (n : ℕ) (s : Adding) : Type 0 where
  pub size : length s.ring.values ≡ n
  pub at : s.ring.index ≡ index_after (length s.given)
  pub tally : (c : ℕ) × (s.ring.added ≡ pos c) × (c + s.stored + length s.taken ≡ length s.given)
  pub under_way : All (IsGiven s.given) s.taken
  pub slots :
      (j : ℕ) → j < length s.given → IsStored j s.taken → HoldsGiven n s.given s.ring.values j

-- One value more.
IsGiven-snoc :
    (given : List ℤ) (v : ℤ) (c : ℤ × ℤ) → IsGiven given c → IsGiven (given ++ (v ∷ [])) c
IsGiven-snoc given v c (k, is, lt, e) =
    (k, is, omega (arith, length-snoc given v), get_elem?-append_left given (v ∷ []) k lt ∙ e)

HoldsGiven-snoc :
    (n : ℕ) (given values : List ℤ) (v : ℤ) (j : ℕ)
    → HoldsGiven n given values j
    → HoldsGiven n (given ++ (v ∷ [])) values j
HoldsGiven-snoc n given values v j (j', lt, same, e) = (
  j',
  omega (arith, length-snoc given v),
  same,
  e ∙ sym (get_elem?-append_left given (v ∷ []) j' lt),
)

new-Inv : (n : ℕ) → Inv n (no_calls n)
unfolding new_latencies
new-Inv n = record {
  size = length-replicate n (pos 0);
  at = refl;
  tally = (0, refl, refl);
  under_way = tt;
  slots = λ j lt h. absurd (omega arith);
}

take-Inv :
    (n : ℕ) (s : Adding) (v : ℤ)
    → length s.given < two_63
    → Inv n s
    → Inv n (record s {
      ring = record (s.ring) { index = inc s.ring.index };
      given = s.given ++ (v ∷ []);
      taken = s.taken ++ ((inc s.ring.index, v) ∷ []);
    })
take-Inv n s v small i =
    let at : inc s.ring.index ≡ pos (length s.given) =
      ap inc i.at ∙ inc-index_after (length s.given) small in
    let (c, is, sum) = i.tally in
    record {
      size = i.size;
      at = at ∙ sym (ap index_after (length-snoc s.given v));
      tally = (
        c,
        is,
        omega
            (arith, sum, length-snoc s.given v, length-append s.taken ((inc s.ring.index, v) ∷ [])),
      );
      under_way =
          All-snoc (IsGiven (s.given ++ (v ∷ []))) s.taken (inc s.ring.index, v)
            (All-weaken _ _ s.taken (IsGiven-snoc s.given v) i.under_way)
            (
              length s.given,
              at,
              omega (arith, length-snoc s.given v),
              get_elem?-append_last s.given v,
            );
      slots = λ j lt h.
          let (h', other) = All-unsnoc (λ c. c.0 ≢ pos j) s.taken (inc s.ring.index, v) h in
          HoldsGiven-snoc n s.given s.ring.values v j
            (i.slots j (older j lt (λ e. other (at ∙ ap pos (sym e)))) h');
    }
  where
    older : (j : ℕ) → j < length (s.given ++ (v ∷ [])) → j ≢ length s.given → j < length s.given
    older j lt ne = omega (arith, length-snoc s.given v, lt, ne)

length_remove :
    (c : ℕ) (given : List ℤ) (taken before after : List (ℤ × ℤ)) (x : ℤ × ℤ) (stored : ℕ)
    → taken ≡ before ++ (x ∷ after)
    → c + stored + length taken ≡ length given
    → c + suc stored + length (before ++ after) ≡ length given
length_remove c given taken before after x stored e sum =
    omega (arith, sum, ap length e, length-append before (x ∷ after), length-append before after)

pos-injective : {a b : ℕ} → pos a ≡ pos b → a ≡ b
pos-injective h = cc

-- The slot of `k` has the value of `k`, and the other slots are as they were.
after_store :
    (n : ℕ) (given values : List ℤ) (k : ℕ) (v : ℤ) (j : ℕ)
    → length values ≡ n
    → 0 < n
    → k < length given
    → get_elem? given k ≡ some v
    → (k % n ≢ j % n → HoldsGiven n given values j)
    → HoldsGiven n given (set values (k % n) v) j
after_store n given values k v j size pn lt value other = elim (ℕ_discrete (k % n) (j % n)) [
  | yes same ↦ (
    k,
    lt,
    same,
    ap (get_elem? (set values (k % n) v)) (sym same)
        ∙ get_elem?-set_self values (k % n) v (omega (arith, size, mod-lt k pn))
        ∙ sym value,
  )
  | no apart ↦
      let (j', lt', same, e) = other apart in
      (j', lt', same, get_elem?-set_ne values (k % n) (j % n) v apart ∙ e)
]

store-Inv :
    (n : ℕ) (s : Adding) (before after : List (ℤ × ℤ)) (index v : ℤ) (i : ℕ)
    → 0 < n
    → s.taken ≡ before ++ ((index, v) ∷ after)
    → slot index (length s.ring.values) ≡ some i
    → Inv n s
    → Inv n (record s {
      ring = record (s.ring) { values = set s.ring.values i v };
      taken = before ++ after;
      stored = suc s.stored;
    })
store-Inv n s before after index v i pn e at_slot inv =
    let taken : All (IsGiven s.given) (before ++ ((index, v) ∷ after)) =
      subst (All (IsGiven s.given)) e inv.under_way in
    let ((k, is, lt, value), rest) = All-remove (IsGiven s.given) before after (index, v) taken in
    let (c, added, sum) = inv.tally in
    let same : k % n ≡ i = some-injective _ _ (
      sym (slot-pos k n pn)
      ∙ ap (λ x. slot x n) (sym is)
      ∙ ap (slot index) (sym inv.size)
      ∙ at_slot) in
    record {
      size = length-set s.ring.values i v ∙ inv.size;
      at = inv.at;
      tally = (c, added, length_remove c s.given s.taken before after (index, v) s.stored e sum);
      under_way = rest;
      slots = λ j lt' h.
          subst (λ r. HoldsGiven n s.given (set s.ring.values r v) j) same
            (after_store n s.given s.ring.values k v j inv.size pn lt value (λ apart.
              inv.slots j lt' (
                rw e (
                  All-insert (λ c. c.0 ≢ pos j) before after (index, v)
                    (λ q. apart (ap (λ a. a % n) (pos-injective (sym is ∙ q)))) h))));
    }

count-Inv :
    (n : ℕ) (s : Adding) (m : ℕ)
    → length s.given < two_63
    → s.stored ≡ suc m
    → Inv n s
    → Inv n (record s { ring = record (s.ring) { added = inc s.ring.added }; stored = m })
count-Inv n s m small e i =
    let (c, is, sum) = i.tally in
    record {
      size = i.size;
      at = i.at;
      tally = (suc c, ap inc is ∙ inc-pos c (omega arith), omega arith);
      under_way = i.under_way;
      slots = i.slots;
    }

abbrev IsSmall : Adding → Type 0
IsSmall s = length s.given < two_63

pub Reach-Inv : (n : ℕ) {s : Adding} → 0 < n → Reach (no_calls n) s → IsSmall s → Inv n s
Reach-Inv n pn here small = new-Inv n
Reach-Inv n pn (next {t} r (take_index v)) small =
    let before : length t.given < two_63 = omega (arith, length-snoc t.given v, small) in
    take-Inv n t v before (Reach-Inv n pn r before)
Reach-Inv n pn (next r (store_value before after index v i e h)) small =
    store-Inv n _ before after index v i pn e h (Reach-Inv n pn r small)
Reach-Inv n pn (next r (count_value m e)) small = count-Inv n _ m small e (Reach-Inv n pn r small)
