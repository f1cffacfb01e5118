-- ===== src/Connector/Mirror/Alone.antt =====
-- `queueLoadTest` of connector.go as one function is a run of the mirror's actions.
use grab_redis.Base.{
  get_elem?-set_self, ℕ, ◌≤◌, ◌<◌, ◌≡◌, refl, sym, ◌∙◌, ◌⊎◌, inl, inr, Bool, true, false,
  Bool-cases, List, [], ◌∷◌, ◌++◌, length, length-append, length-set, append-nil, arith, ltb,
  ltb→lt, if◌then◌else◌,
}
use grab_redis.Connector.Mirror.{
  Call, Mirror, new_call, issue, bind, push, drop, return, Reach, here, next,
}
use grab_redis.Connector.Queue.{
  QueueState, sent, blocked, panicked, bind_cell, drop_one, pushed, send, queue_loop,
  queue_loop_full, queue_load_test, send_room, send_full,
}

-- The other turns of the loop.
queue_loop_closed :
    (p : Bool) (cell client : ℕ) (clients : List ℕ) (q : QueueState)
    → q.chan.closed ≡ true
    → queue_loop p cell (client ∷ clients) q ≡ panicked
unfolding queue_loop send
queue_loop_closed p cell client clients q closed = rw closed refl

queue_loop_sends :
    (p : Bool) (cell client : ℕ) (clients : List ℕ) (q : QueueState)
    → q.chan.closed ≡ false
    → ltb (length q.chan.items) q.chan.cap ≡ true
    → queue_loop p cell (client ∷ clients) q
      ≡ queue_loop p cell clients (pushed cell (bind_cell cell client q))
unfolding queue_loop send
queue_loop_sends p cell client clients q open' room =
    rw
      (
        send_room cell (bind_cell cell client q)
            (if p then blocked else sent (drop_one client (bind_cell cell client q))) open' room,
        queue_loop,
      )
      refl

queue_loop_waits :
    (cell client : ℕ) (clients : List ℕ) (q : QueueState)
    → q.chan.closed ≡ false
    → ltb (length q.chan.items) q.chan.cap ≡ false
    → queue_loop true cell (client ∷ clients) q ≡ blocked
unfolding queue_loop send
queue_loop_waits cell client clients q open' full =
    rw (send_full cell (bind_cell cell client q) blocked open' full, queue_loop) refl

not_room : (a b : ℕ) → ltb a b ≡ false → b ≤ a
not_room a b h = ground arith

sent-injective : {a b : QueueState} → sent a ≡ sent b → a ≡ b
sent-injective h = cc

module _ (C : Type 0) (load_tests : List ℕ) where
  -- The rest of a loop whose state is the last call of `m`.
  record Looped (p : Bool) (m : Mirror C) (calls : List Call) (cell : ℕ) (q : QueueState)
      : Type 0 where
    pub end : Mirror C
    pub steps : Reach p load_tests m end
    pub queue : end.queue ≡ q
    pub calls_left : end.calls ≡ calls ++ (new_call cell [] ∷ [])
    pub commands : end.commands ≡ m.commands
    pub begun : end.begun ≡ m.begun

  Reach-trans :
      {p : Bool} {s t u : Mirror C}
      → Reach p load_tests s t
      → Reach p load_tests t u
      → Reach p load_tests s u
  Reach-trans r here = r
  Reach-trans r (next q st) = next (Reach-trans r q) st

  after_steps :
      {p : Bool} {m t : Mirror C} {calls : List Call} {cell : ℕ} {q : QueueState}
      → Reach p load_tests m t
      → t.commands ≡ m.commands
      → t.begun ≡ m.begun
      → Looped p t calls cell q
      → Looped p m calls cell q
  after_steps r c b l = record {
    end = l.end;
    steps = Reach-trans r l.steps;
    queue = l.queue;
    calls_left = l.calls_left;
    commands = l.commands ∙ c;
    begun = l.begun ∙ b;
  }

  abbrev bound : ℕ → ℕ → List ℕ → List Call → Mirror C → Mirror C
  bound cell client clients calls m = record m {
    queue = bind_cell cell client m.queue;
    calls = calls ++ (record { cell = cell; to_send = true; left = clients } ∷ []);
  }

  loop-Looped :
      (p : Bool) (clients : List ℕ) (m : Mirror C) (calls : List Call) (cell : ℕ) (q : QueueState)
      → m.calls ≡ calls ++ (new_call cell clients ∷ [])
      → cell < length m.queue.cells
      → queue_loop p cell clients m.queue ≡ sent q
      → Looped p m calls cell q
  unfolding queue_loop
  loop-Looped p [] m calls cell q e lt h = record {
    end = m;
    steps = here;
    queue = sent-injective h;
    calls_left = e;
    commands = refl;
    begun = refl;
  }
  loop-Looped p (client ∷ clients) m calls cell q e lt h =
      by_turn p (λ m' e' lt' h'. loop-Looped p clients m' calls cell q e' lt' h') h
        (Bool-cases m.queue.chan.closed)
        (Bool-cases (ltb (length m.queue.chan.items) m.queue.chan.cap))
    where
      m1 : Mirror C
      m1 = bound cell client clients calls m

      in_range : cell < length m1.queue.cells
      in_range = omega (arith, lt, length-set m.queue.cells cell client)

      by_turn :
          (p : Bool)
          → ((m' : Mirror C)
              → m'.calls ≡ calls ++ (new_call cell clients ∷ [])
              → cell < length m'.queue.cells
              → queue_loop p cell clients m'.queue ≡ sent q
              → Looped p m' calls cell q)
          → queue_loop p cell (client ∷ clients) m.queue ≡ sent q
          → (m.queue.chan.closed ≡ true) ⊎ (m.queue.chan.closed ≡ false)
          → (ltb (length m.queue.chan.items) m.queue.chan.cap ≡ true)
            ⊎ (ltb (length m.queue.chan.items) m.queue.chan.cap ≡ false)
          → Looped p m calls cell q
      by_turn p ih h (inl closed) r =
          let x = queue_loop_closed p cell client clients m.queue closed in absurd (cc)
      by_turn p ih h (inr open') (inl room) =
          after_steps
            (next (next here (bind calls [] cell client clients e))
              (push calls [] cell clients refl open' (ltb→lt _ _ room)))
            refl refl
            (ih _ refl in_range
              (sym (queue_loop_sends p cell client clients m.queue open' room) ∙ h))
      by_turn true ih h (inr open') (inr full) =
          let x = queue_loop_waits cell client clients m.queue open' full in absurd (cc)
      by_turn false ih h (inr open') (inr full) =
          after_steps
            (next (next here (bind calls [] cell client clients e)) (
              drop calls [] cell client clients refl refl open' (not_room _ _ full)
                (get_elem?-set_self m.queue.cells cell client lt)))
            refl refl
            (ih _ refl in_range (sym (queue_loop_full cell client clients m.queue open' full) ∙ h))

  -- `queueLoadTest` on its own, where it returns: the mirror can take the same steps, with what the
  -- function leaves of the channel and of the variables, and no worker or other loop moves meanwhile.
  queue_load_test-Steps :
      (p : Bool) (s : Mirror C) (command : C) (q : QueueState)
      → queue_load_test p load_tests s.queue ≡ sent q
      → (t : Mirror C) × Reach p load_tests s t
        × (t.queue ≡ q)
        × (t.calls ≡ s.calls)
        × (t.commands ≡ s.commands ++ (command ∷ []))
        × (t.begun ≡ s.begun)
  unfolding queue_load_test
  queue_load_test-Steps p s command q h =
      let start : Mirror C = record s {
        queue = record (s.queue) { cells = s.queue.cells ++ (0 ∷ []) };
        commands = s.commands ++ (command ∷ []);
        calls = s.calls ++ (new_call (length s.queue.cells) load_tests ∷ []);
      } in
      let l : Looped p start s.calls (length s.queue.cells) q =
        loop-Looped p load_tests start s.calls (length s.queue.cells) q refl
          (omega (arith, length-append s.queue.cells (0 ∷ []))) h in
      (
        record (l.end) { calls = s.calls ++ [] },
        next (Reach-trans (next here (issue command)) l.steps)
            (return s.calls [] (length s.queue.cells) l.calls_left),
        l.queue,
        append-nil s.calls,
        l.commands,
        l.begun,
      )
