-- ===== src/Connector/Queue/Account.antt =====
-- `queueLoadTest` of connector.go by the lengths of what it queues and drops.
use grab_redis.Base.{
  ℕ, suc, ◌+◌, ◌≤◌, ◌≡◌, refl, false, List, [], ◌∷◌, ◌++◌, length, arith, ltb, ltb→lt,
  length-append, Bool-cases, inl, inr,
}
use grab_redis.Connector.Queue.{
  QueueState, Sent, sent, blocked, panicked, queue_loop, queue_load_test, pushed, bind_cell,
  drop_one, queue_loop_room, queue_loop_full,
}

-- What the loop leaves, from a channel that is open, by the lengths: one function queued or one drop
-- counted for each client, and a channel within its capacity.
abbrev pub Accounts : ℕ → QueueState → Sent → Type 0
Accounts n s (sent t) =
    (length t.chan.items + length t.dropped ≡ length s.chan.items + length s.dropped + n)
    × (t.chan.cap ≡ s.chan.cap)
    × (length t.chan.items ≤ t.chan.cap)
    × (length s.chan.items ≤ length t.chan.items)
Accounts n s blocked = ⊥
Accounts n s panicked = ⊥

Accounts-step :
    (n : ℕ) (s t : QueueState) (r : Sent)
    → length t.chan.items + length t.dropped ≡ length s.chan.items + length s.dropped + 1
    → t.chan.cap ≡ s.chan.cap
    → length s.chan.items ≤ length t.chan.items
    → Accounts n t r
    → Accounts (suc n) s r
Accounts-step n s t (sent u) e c m a = omega arith
Accounts-step n s t blocked e c m a = a
Accounts-step n s t panicked e c m a = a

loop-Accounts :
    (cell : ℕ) (clients : List ℕ) (s : QueueState)
    → s.chan.closed ≡ false
    → length s.chan.items ≤ s.chan.cap
    → Accounts (length clients) s (queue_loop false cell clients s)
unfolding queue_loop
loop-Accounts cell [] s o h = omega arith
loop-Accounts cell (client ∷ clients) s o h =
    elim (Bool-cases (ltb (length s.chan.items) s.chan.cap)) [
      | inl room ↦
          let t = pushed cell (bind_cell cell client s) in
          let grown = length-append s.chan.items (cell ∷ []) in
          rw (queue_loop_room cell client clients s o room) (
            Accounts-step (length clients) s t _ (omega (arith, grown)) refl (omega (arith, grown))
              (loop-Accounts cell clients t o (omega (arith, grown, ltb→lt _ _ room))))
      | inr full ↦
          let t = drop_one client (bind_cell cell client s) in
          rw (queue_loop_full cell client clients s o full) (
            Accounts-step (length clients) s t _ (omega arith) refl (omega arith)
              (loop-Accounts cell clients t o h))
    ]

-- Without `ProcessAllLoadTestPackets`, before the channel is closed and with a stats client and a
-- logger, the call ends: as many functions are queued and drops counted as there are load test
-- clients, the queue does not get shorter, and the channel stays within its capacity.
pub queue_load_test-Accounts :
    (clients : List ℕ) (s : QueueState)
    → s.chan.closed ≡ false
    → length s.chan.items ≤ s.chan.cap
    → Accounts (length clients) s (queue_load_test false clients s)
unfolding queue_load_test
queue_load_test-Accounts clients s o h =
    let s' = record s { cells = s.cells ++ (0 ∷ []) } in
    loop-Accounts (length s.cells) clients s' o h
