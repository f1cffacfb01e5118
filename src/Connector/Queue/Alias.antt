-- ===== src/Connector/Queue/Alias.antt =====
-- Which client the queued functions of one `queueLoadTest` of connector.go run on: they share the
-- loop's variable, so once the loop is over they all see its last value.
use grab_redis.Base.{
  ℕ, suc, ◌<◌, ◌≡◌, refl, sym, ap, ◌∙◌, false, some, List, [], ◌∷◌, ◌++◌, append-nil, append_assoc,
  length, set, get_elem?, arith, ltb, All, length-append, length-set, Bool-cases, inl, inr,
}
use grab_redis.Connector.Queue.{
  QueueState, Sent, sent, blocked, panicked, queue_loop, queue_load_test, pushed, bind_cell,
  drop_one, queue_loop_room, queue_loop_full,
}

abbrev pub last : ℕ → List ℕ → ℕ
last x [] = x
last x (y ∷ ys) = last y ys

-- The functions that the loop queued behind those of `s`, and the cell that each holds.
pub record Queued (cell final : ℕ) (s t : QueueState) : Type 0 where
  pub added : List ℕ
  pub items : t.chan.items ≡ s.chan.items ++ added
  pub holds : All (λ c. c ≡ cell) added
  pub value : get_elem? t.cells cell ≡ some final

abbrev pub AllSee : ℕ → ℕ → QueueState → Sent → Type 0
AllSee cell final s (sent t) = Queued cell final s t
AllSee cell final s blocked = ⊥
AllSee cell final s panicked = ⊥

get_elem?-set_self : (xs : List ℕ) (i v : ℕ) → i < length xs → get_elem? (set xs i v) i ≡ some v
get_elem?-set_self [] i v h = elim h [ ]
get_elem?-set_self (x ∷ xs) ℕ.zero v h = refl
get_elem?-set_self (x ∷ xs) (suc i) v h = get_elem?-set_self xs i v (omega arith)

-- A turn that queued a function, and one that queued none.
AllSee-pushed :
    (cell final : ℕ) (s t : QueueState) (r : Sent)
    → t.chan.items ≡ s.chan.items ++ (cell ∷ [])
    → AllSee cell final t r
    → AllSee cell final s r
AllSee-pushed cell final s t (sent u) e q = record {
  added = cell ∷ q.added;
  items = q.items ∙ ap (λ l. l ++ q.added) e ∙ append_assoc s.chan.items (cell ∷ []) q.added;
  holds = (refl, q.holds);
  value = q.value;
}
AllSee-pushed cell final s t blocked e q = q
AllSee-pushed cell final s t panicked e q = q

AllSee-same :
    (cell final : ℕ) (s t : QueueState) (r : Sent)
    → t.chan.items ≡ s.chan.items
    → AllSee cell final t r
    → AllSee cell final s r
AllSee-same cell final s t (sent u) e q = record {
  added = q.added;
  items = q.items ∙ ap (λ l. l ++ q.added) e;
  holds = q.holds;
  value = q.value;
}
AllSee-same cell final s t blocked e q = q
AllSee-same cell final s t panicked e q = q

loop-AllSee :
    (cell current : ℕ) (clients : List ℕ) (s : QueueState)
    → s.chan.closed ≡ false
    → cell < length s.cells
    → get_elem? s.cells cell ≡ some current
    → AllSee cell (last current clients) s (queue_loop false cell clients s)
unfolding queue_loop
loop-AllSee cell current [] s o h v = record {
  added = [];
  items = sym (append-nil s.chan.items);
  holds = tt;
  value = v;
}
loop-AllSee cell current (client ∷ clients) s o h v =
    let bound = get_elem?-set_self s.cells cell client h in
    let fits : cell < length (set s.cells cell client) =
      omega (arith, length-set s.cells cell client) in
    elim (Bool-cases (ltb (length s.chan.items) s.chan.cap)) [
      | inl room ↦
          let t = pushed cell (bind_cell cell client s) in
          rw (queue_loop_room cell client clients s o room)
            (AllSee-pushed cell _ s t _ refl (loop-AllSee cell client clients t o fits bound))
      | inr full ↦
          let t = drop_one client (bind_cell cell client s) in
          rw (queue_loop_full cell client clients s o full)
            (AllSee-same cell _ s t _ refl (loop-AllSee cell client clients t o fits bound))
    ]

get_elem?-new : (xs : List ℕ) (v : ℕ) → get_elem? (xs ++ (v ∷ [])) (length xs) ≡ some v
get_elem?-new [] v = refl
get_elem?-new (x ∷ xs) v = get_elem?-new xs v

-- Without `ProcessAllLoadTestPackets`, on an open channel: every function that a call has queued
-- holds the cell of the call, whose value is then the last load test client.
pub queue_load_test-last :
    (client : ℕ) (clients : List ℕ) (s : QueueState)
    → s.chan.closed ≡ false
    → AllSee (length s.cells) (last client clients) s (queue_load_test false (client ∷ clients) s)
unfolding queue_load_test
queue_load_test-last client clients s o =
    AllSee-same (length s.cells) _ s (record s { cells = s.cells ++ (0 ∷ []) }) _ refl
      (loop-AllSee (length s.cells) 0 (client ∷ clients) (record s { cells = s.cells ++ (0 ∷ []) })
        o (omega (arith, length-append s.cells (0 ∷ []))) (get_elem?-new s.cells 0))
