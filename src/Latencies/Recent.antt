-- ===== src/Latencies/Recent.antt =====
-- The ring of latencies.go holds the most recent values, each in the slot of its number.
use grab_redis.Base.{
  get_elem?-set_self, get_elem?-set_ne, get_elem?-append_left, get_elem?-append_last, length-snoc,
  ℕ, zero, suc, ◌+◌, ◌-◌, ◌%◌, ◌≤◌, ◌<◌, ◌≡◌, ◌≢◌, refl, sym, ap, subst, ◌∙◌, Option, none, some,
  List, [], ◌∷◌, ◌++◌, append_assoc, append-nil, length, set, get_elem?, length-set,
  length-replicate, arith, nat_eq,
}
use grab_redis.Base.Int.{ℤ, pos, negsuc, two_63}
use native.Mathlib.Nat.{mod-lt, mod-eq_of_lt, mod-eq-sub-mod, mod-add-mod}
use native.Mathlib.Decide.{dec_lt, ℕ_discrete}
use grab_redis.Latencies.{Latencies, new_latencies, inc, slot, add}

-- The index after `k` additions.
abbrev pub index_after : ℕ → ℤ
index_after zero = negsuc 0
index_after (suc k) = pos k

-- What the ring is after the additions `vs` to a ring of `n` slots.
pub record Holds (n : ℕ) (vs : List ℤ) (l : Latencies) : Type 0 where
  pub size : length l.values ≡ n
  pub at : l.index ≡ index_after (length vs)
  pub count : l.added ≡ pos (length vs)
  pub recent :
      (m : ℕ) → m < length vs → length vs ≤ m + n → get_elem? l.values (m % n) ≡ get_elem? vs m

shift-ne : (n r d : ℕ) → r < n → 0 < d → d < n → (r + d) % n ≢ r
shift-ne n r d a h k e = elim (dec_lt (r + d) n) [
  | yes p ↦ omega (arith, e, mod-eq_of_lt p)
  | no p ↦
      let fits : r + d - n < n = omega arith in
      let wrapped : n ≤ r + d = omega arith in
      omega (arith, e, mod-eq-sub-mod wrapped, mod-eq_of_lt fits)
]

-- Two numbers less than `n` apart have different remainders.
mod-ne : (n m d : ℕ) → 0 < d → d < n → m % n ≢ (m + d) % n
mod-ne n m d h k e = shift-ne n (m % n) d (mod-lt m (omega arith)) h k (mod-add-mod m n d ∙ sym e)

new-Holds : (n : ℕ) → Holds n [] (new_latencies n)
unfolding new_latencies
new-Holds n = record {
  size = length-replicate n (pos 0);
  at = refl;
  count = refl;
  recent = λ m h k. absurd (omega arith);
}

-- One addition, on a ring of at least one slot and before the counters wrap.
after_add : ℕ → ℤ → Latencies → Latencies
after_add k v l = record {
  values = set l.values (k % length l.values) v;
  index = pos k;
  added = pos (suc k);
}

pub inc-index_after : (k : ℕ) → k < two_63 → inc (index_after k) ≡ pos k
unfolding inc
inc-index_after zero h = refl
inc-index_after (suc k) h = ground arith

pub inc-pos : (k : ℕ) → suc k < two_63 → inc (pos k) ≡ pos (suc k)
unfolding inc
inc-pos k h = ground arith

pub slot-pos : (k n : ℕ) → 0 < n → slot (pos k) n ≡ some (k % n)
unfolding slot
slot-pos k zero h = absurd (omega arith)
slot-pos k (suc n) h = refl

add-eq :
    (n : ℕ) (vs : List ℤ) (l : Latencies) (v : ℤ)
    → 0 < n
    → suc (length vs) < two_63
    → Holds n vs l
    → add v l ≡ some (after_add (length vs) v l)
unfolding add after_add
add-eq n vs l v pn small h =
    let at : inc l.index ≡ pos (length vs) =
      ap inc h.at ∙ inc-index_after (length vs) (omega arith) in
    let counted : inc l.added ≡ pos (suc (length vs)) =
      ap inc h.count ∙ inc-pos (length vs) small in
    let here : slot (inc l.index) (length l.values) ≡ some (length vs % length l.values) =
      rw at (slot-pos (length vs) (length l.values) (omega (arith, h.size))) in
    rw (here, add) (rw (at, counted))

-- The slot of the newest value, and those of the values that stay.
after_add_recent :
    (n : ℕ) (vs : List ℤ) (l : Latencies) (v : ℤ)
    → 0 < n
    → Holds n vs l
    → (m : ℕ) → m < suc (length vs)
    → suc (length vs) ≤ m + n
    → get_elem? (set l.values (length vs % n) v) (m % n) ≡ get_elem? (vs ++ (v ∷ [])) m
after_add_recent n vs l v pn h m lt le = elim (ℕ_discrete m (length vs)) [
  | yes newest ↦ rw newest (
      get_elem?-set_self l.values (length vs % n) v (omega (arith, h.size, mod-lt (length vs) pn))
      ∙ sym (get_elem?-append_last vs v))
  | no older ↦
      let apart = mod-ne n m (length vs - m) (omega arith) (omega arith) in
      let same : m + (length vs - m) ≡ length vs = omega arith in
      get_elem?-set_ne l.values (length vs % n) (m % n) v
        (λ e. apart (sym e ∙ ap (λ k. k % n) (sym same)))
      ∙ h.recent m (omega arith) (omega arith)
      ∙ sym (get_elem?-append_left vs (v ∷ []) m (omega arith))
]

after_add-Holds :
    (n : ℕ) (vs : List ℤ) (l : Latencies) (v : ℤ)
    → 0 < n
    → Holds n vs l
    → Holds n (vs ++ (v ∷ [])) (after_add (length vs) v l)
unfolding after_add
after_add-Holds n vs l v pn h = record {
  size = length-set l.values _ v ∙ h.size;
  at = rw (length-snoc vs v);
  count = rw (length-snoc vs v);
  recent = λ m lt le. rw h.size (
      after_add_recent n vs l v pn h m (omega (arith, length-snoc vs v, lt))
        (omega (arith, length-snoc vs v, le)));
}

-- The additions `vs`, one after the other.
pub add_all : List ℤ → Latencies → Option Latencies
add_all [] l = some l
add_all (v ∷ vs) l = elim (add v l) [ none ↦ none | some l' ↦ add_all vs l' ]

add_all-Holds :
    (n : ℕ) (done vs : List ℤ) (l : Latencies)
    → 0 < n
    → length done + length vs < two_63
    → Holds n done l
    → (l' : Latencies) × (add_all vs l ≡ some l') × Holds n (done ++ vs) l'
unfolding add_all
add_all-Holds n done [] l pn small h = (l, refl, rw (append-nil done) h)
add_all-Holds n done (v ∷ vs) l pn small h =
    let rest =
      add_all-Holds n (done ++ (v ∷ [])) vs (after_add (length done) v l) pn
        (omega (arith, length-snoc done v)) (after_add-Holds n done l v pn h) in
    (
      rest.0,
      rw (add-eq n done l v pn (omega arith) h, add_all) rest.1,
      subst (λ ws. Holds n ws rest.0) (append_assoc done (v ∷ []) vs) rest.2,
    )

-- Additions to a new ring of at least one slot do not panic, and the ring then holds the most
-- recent values, each in the slot of its number, with the count of all.
pub latencies_recent :
    (n : ℕ) (vs : List ℤ)
    → 0 < n
    → length vs < two_63
    → (l : Latencies) × (add_all vs (new_latencies n) ≡ some l) × Holds n vs l
latencies_recent n vs pn small =
    add_all-Holds n [] vs (new_latencies n) pn (omega arith) (new-Holds n)
