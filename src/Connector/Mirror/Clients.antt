-- ===== src/Connector/Mirror/Clients.antt =====
-- On which client a command that connector.go mirrors runs, and what becomes of it.
use grab_redis.Base.{
  ℕ, zero, suc, ◌+◌, ◌<◌, ◌≡◌, refl, sym, subst, ◌∙◌, Bool, true, some, some-injective,
  none-ne-some, List, [], ◌∷◌, ◌++◌, length, set, get_elem?, map, length-append, length-set, All,
  All-snoc, All-remove, All-insert, All-weaken, arith,
}
use grab_redis.Connector.Mirror.{
  Call, Begun, Mirror, new_mirror, new_call, Step, issue, bind, push, drop, return, work, give_up,
  cancel, Reach, here, next,
}
use grab_redis.Connector.Mirror.Counts.{
  times, Balanced, Step-Balanced, new-Balanced, balance_at_rest, accounts, due,
}

-- The variable of a command holds a client with the property `P`.
abbrev Owned : (ℕ → Type 0) → List ℕ → ℕ → Type 0
Owned P cells k = (x : ℕ) × (get_elem? cells k ≡ some x) × P x

Owned-set :
    (P : ℕ → Type 0) (cells : List ℕ) (j x k : ℕ)
    → P x
    → Owned P cells k
    → Owned P (set cells j x) k
Owned-set P [] j x k p (y, e, q) = (y, e, q)
Owned-set P (c ∷ cells) zero x zero p (y, e, q) = (x, refl, p)
Owned-set P (c ∷ cells) zero x (suc k) p (y, e, q) = (y, e, q)
Owned-set P (c ∷ cells) (suc j) x zero p (y, e, q) = (y, e, q)
Owned-set P (c ∷ cells) (suc j) x (suc k) p o = Owned-set P cells j x k p o

set-Owned :
    (P : ℕ → Type 0) (cells : List ℕ) (j x : ℕ) → P x → j < length cells → Owned P (set cells j x) j
set-Owned P [] j x p lt = absurd (omega arith)
set-Owned P (c ∷ cells) zero x p lt = (x, refl, p)
set-Owned P (c ∷ cells) (suc j) x p lt = set-Owned P cells j x p (omega arith)

get_elem?-more :
    {A : Type 0} (xs ys : List A) (k : ℕ) (x : A)
    → get_elem? xs k ≡ some x
    → get_elem? (xs ++ ys) k ≡ some x
get_elem?-more [] ys k x h = absurd (none-ne-some x h)
get_elem?-more (y ∷ xs) ys zero x h = h
get_elem?-more (y ∷ xs) ys (suc k) x h = get_elem?-more xs ys k x h

Owned-snoc :
    (P : ℕ → Type 0) (cells : List ℕ) (k : ℕ) → Owned P cells k → Owned P (cells ++ (0 ∷ [])) k
Owned-snoc P cells k (x, e, p) = (x, get_elem?-more cells (0 ∷ []) k x e, p)

-- A loop has a variable, and only such clients left.
record IsLoop (P : ℕ → Type 0) (cells : List ℕ) (call : Call) : Type 0 where
  pub has_cell : call.cell < length cells
  pub left_over : All P call.left
  pub sends : call.to_send ≡ true → Owned P cells call.cell

-- A function that has begun runs its command, on such a client.
abbrev pub IsRight : {C : Type 0} → (ℕ → Type 0) → List C → Begun C → Type 0
IsRight P commands b = P b.client × (get_elem? commands b.cell ≡ some b.command)

record Held {C : Type 0} (P : ℕ → Type 0) (s : Mirror C) : Type 0 where
  pub queued : All (Owned P s.queue.cells) s.queue.chan.items
  pub loops : All (IsLoop P s.queue.cells) s.calls
  pub right : All (IsRight P s.commands) s.begun

IsLoop-snoc :
    (P : ℕ → Type 0) (cells : List ℕ) (call : Call)
    → IsLoop P cells call
    → IsLoop P (cells ++ (0 ∷ [])) call
IsLoop-snoc P cells call l = record {
  has_cell = let lt = l.has_cell in omega (arith, length-append cells (0 ∷ []));
  left_over = l.left_over;
  sends = λ e. Owned-snoc P cells call.cell (l.sends e);
}

IsLoop-set :
    (P : ℕ → Type 0) (cells : List ℕ) (j x : ℕ) (call : Call)
    → P x
    → IsLoop P cells call
    → IsLoop P (set cells j x) call
IsLoop-set P cells j x call p l = record {
  has_cell = let lt = l.has_cell in omega (arith, length-set cells j x);
  left_over = l.left_over;
  sends = λ e. Owned-set P cells j x call.cell p (l.sends e);
}

Step-Held :
    {C : Type 0} (P : ℕ → Type 0) (process_all : Bool) (load_tests : List ℕ) {s t : Mirror C}
    → All P load_tests
    → Step process_all load_tests s t
    → Held P s
    → Held P t
Step-Held P process_all load_tests {s} all_p (issue command) h = record {
  queued = All-weaken _ _ s.queue.chan.items (Owned-snoc P s.queue.cells) h.queued;
  loops =
      All-snoc _ s.calls _ (All-weaken _ _ s.calls (IsLoop-snoc P s.queue.cells) h.loops) (record {
        has_cell = omega (arith, length-append s.queue.cells (0 ∷ []));
        left_over = all_p;
        sends = λ e. absurd (cc);
      });
  right =
      All-weaken _ _ s.begun
        (λ b r. (r.0, get_elem?-more s.commands (command ∷ []) b.cell b.command r.1)) h.right;
}
Step-Held P process_all load_tests {s} all_p (bind before after cell client left e) h =
    let (l, rest) = All-remove _ before after _ (subst (All (IsLoop P s.queue.cells)) e h.loops) in
    let p : P client = l.left_over.0 in
    record {
      queued =
          All-weaken _ _ s.queue.chan.items (λ k. Owned-set P s.queue.cells cell client k p)
            h.queued;
      loops =
          All-insert _ before after _
            (record {
              has_cell = let lt = l.has_cell in omega (arith, length-set s.queue.cells cell client);
              left_over = l.left_over.1;
              sends = λ e'. set-Owned P s.queue.cells cell client p l.has_cell;
            })
            (All-weaken _ _ (before ++ after)
              (λ call. IsLoop-set P s.queue.cells cell client call p) rest);
      right = h.right;
    }
Step-Held P process_all load_tests {s} all_p (push before after cell left e open' room) h =
    let (l, rest) = All-remove _ before after _ (subst (All (IsLoop P s.queue.cells)) e h.loops) in
    record {
      queued = All-snoc _ s.queue.chan.items cell h.queued (l.sends refl);
      loops = All-insert _ before after _ (sent_on l.has_cell l.left_over) rest;
      right = h.right;
    }
  where
    sent_on :
        {cells : List ℕ} {cell : ℕ} {left : List ℕ}
        → cell < length cells
        → All P left
        → IsLoop P cells (new_call cell left)
    sent_on lt ps = record { has_cell = lt; left_over = ps; sends = λ e. absurd (cc) }
Step-Held P process_all load_tests {s} all_p (drop before after cell client left e off o f at) h =
    let (l, rest) = All-remove _ before after _ (subst (All (IsLoop P s.queue.cells)) e h.loops) in
    record {
      queued = h.queued;
      loops =
          All-insert _ before after _
            (record { has_cell = l.has_cell; left_over = l.left_over; sends = λ e'. absurd (cc) })
            rest;
      right = h.right;
    }
Step-Held P process_all load_tests {s} all_p (return before after cell e) h =
    let (l, rest) = All-remove _ before after _ (subst (All (IsLoop P s.queue.cells)) e h.loops) in
    record { queued = h.queued; loops = rest; right = h.right }
Step-Held P process_all load_tests {s} all_p (work cell client command rest e on at named) h =
    let ((x, is, p), os) = subst (All (Owned P s.queue.cells)) e h.queued in
    record {
      queued = os;
      loops = h.loops;
      right = All-snoc _ s.begun _ h.right (subst P (some-injective _ _ (sym is ∙ at)) p, named);
    }
Step-Held P process_all load_tests {s} all_p (give_up cell rest e off) h =
    let (o, os) = subst (All (Owned P s.queue.cells)) e h.queued in
    record { queued = os; loops = h.loops; right = h.right }
Step-Held P process_all load_tests all_p cancel h = record {
  queued = h.queued;
  loops = h.loops;
  right = h.right;
}

Reach-Held :
    {C : Type 0} (P : ℕ → Type 0) (process_all : Bool) (load_tests : List ℕ) (n : ℕ) {s : Mirror C}
    → All P load_tests
    → Reach process_all load_tests (new_mirror n) s
    → Balanced load_tests s × Held P s
Reach-Held P process_all load_tests n all_p here =
    (new-Balanced load_tests n, record { queued = tt; loops = tt; right = tt })
Reach-Held P process_all load_tests n all_p (next r st) =
    let (b, h) = Reach-Held P process_all load_tests n all_p r in
    (Step-Balanced process_all load_tests st b, Step-Held P process_all load_tests all_p st h)

-- The mirror of a connector whose load test clients all have a property `P`, in every interleaving
-- of its commands and workers. Each command has one turn for each load test client, and each turn has
-- been taken by a worker, is in the channel, is still to be sent, or was dropped or given up, and only
-- one of these; no other turn exists. What a worker has begun is that command, on a client with `P`. So
-- once no loop is under way and the channel is empty, every turn was taken or missed.
pub mirror_accounts :
    {C : Type 0} (P : ℕ → Type 0) (process_all : Bool) (load_tests : List ℕ) (n : ℕ) (s : Mirror C)
    → All P load_tests
    → Reach process_all load_tests (new_mirror n) s
    → ((k : ℕ) → accounts k s ≡ due load_tests k s)
      × All (IsRight P s.commands) s.begun
      × (s.calls ≡ []
          → s.queue.chan.items ≡ []
          → (k : ℕ) → k < length s.commands
          → times k (map (λ b. b.cell) s.begun) + times k s.missed ≡ length load_tests)
mirror_accounts P process_all load_tests n s all_p r =
    let (b, h) = Reach-Held P process_all load_tests n all_p r in
    (
      b.balance,
      h.right,
      λ no_calls no_items k lt. balance_at_rest load_tests s k no_calls no_items lt (b.balance k),
    )
