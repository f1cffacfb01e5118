-- ===== src/Connector/Mirror/Counts.antt =====
-- Every command that connector.go mirrors reaches each load test client's turn once, or is counted.
use mathlib.Core.List.{Perm, Permᴰ}
use mathlib.Core.Logic.{∥∥₁_elim}
use native.Mathlib.Nat.{ℕ_set}
use grab_redis.Base.{
  ℕ, suc, ◌+◌, ◌<◌, ◌≡◌, refl, ap, ◌∙◌, Bool, true, List, [], ◌∷◌, ◌++◌, length, map, length-append,
  length-set, arith, ltb, ◌==◌, ==_refl, ◌≤◌, ◌≢◌, nat_eq, if◌then◌else◌,
}
use grab_redis.Connector.Mirror.{
  Call, Begun, Mirror, new_mirror, new_call, Step, issue, bind, push, drop, return, work, give_up,
  cancel,
}

-- How often a number stands in a list.
unfoldable pub times : ℕ → List ℕ → ℕ
times k [] = 0
times k (x ∷ xs) = (if x == k then 1 else 0) + times k xs

times-permᴰ : (k : ℕ) {xs ys : List ℕ} → Permᴰ xs ys → times k xs ≡ times k ys
unfolding times
times-permᴰ k Permᴰ.nil = refl
times-permᴰ k (Permᴰ.cons e p) = let ih = times-permᴰ k p in rw e (omega (arith, ih))
times-permᴰ k (Permᴰ.swap d e) = rw (d, e) (omega arith)
times-permᴰ k (Permᴰ.trans p q) = times-permᴰ k p ∙ times-permᴰ k q

pub times_self : (id : ℕ) (l : List ℕ) → times id (id ∷ l) ≡ suc (times id l)
unfolding times
times_self id l = rw (==_refl id) (omega arith)

pub times_tail : (j id : ℕ) (l : List ℕ) → times j l ≤ times j (id ∷ l)
unfolding times
times_tail j id l = omega arith

pub times_none : (j : ℕ) → times j [] ≡ 0
unfolding times
times_none j = refl

pub times_other : (j id : ℕ) (l : List ℕ) → j ≢ id → times j (id ∷ l) ≡ times j l
unfolding times
times_other j id l n = ground arith

pub times-perm : (k : ℕ) {xs ys : List ℕ} → Perm xs ys → times k xs ≡ times k ys
times-perm k p = ∥∥₁_elim p (ℕ_set _ _) (times-permᴰ k)

-- What the loops under way still owe for a command.
pub owed : ℕ → List Call → ℕ
owed k [] = 0
owed k (call ∷ calls) =
    (if call.cell == k then (if call.to_send then 1 else 0) + length call.left else 0)
    + owed k calls

pub times-append : (k : ℕ) (xs ys : List ℕ) → times k (xs ++ ys) ≡ times k xs + times k ys
unfolding times
times-append k [] ys = omega arith
times-append k (x ∷ xs) ys = omega (arith, times-append k xs ys)

owed-append : (k : ℕ) (xs ys : List Call) → owed k (xs ++ ys) ≡ owed k xs + owed k ys
unfolding owed
owed-append k [] ys = omega arith
owed-append k (x ∷ xs) ys = omega (arith, owed-append k xs ys)

-- Each client's turn of a command: begun, queued, missed or still owed.
abbrev pub accounts : {C : Type 0} → ℕ → Mirror C → ℕ
accounts k s =
    times k (map (λ b. b.cell) s.begun)
    + times k s.queue.chan.items
    + times k s.missed
    + owed k s.calls

abbrev pub due : {C : Type 0} → List ℕ → ℕ → Mirror C → ℕ
due load_tests k s = if ltb k (length s.commands) then length load_tests else 0

-- What one action does to the debt of a loop.
owed-push :
    (k cell : ℕ) (left : List ℕ) (before after : List Call)
    → owed k (before ++ (record { cell = cell; to_send = true; left = left } ∷ after))
      ≡ times k (cell ∷ []) + owed k (before ++ (new_call cell left ∷ after))
unfolding owed times
owed-push k cell left [] after = ground arith
owed-push k cell left (x ∷ before) after = omega (arith, owed-push k cell left before after)

owed-bind :
    (k cell client : ℕ) (left : List ℕ) (before after : List Call)
    → owed k (before ++ (new_call cell (client ∷ left) ∷ after))
      ≡ owed k (before ++ (record { cell = cell; to_send = true; left = left } ∷ after))
unfolding owed
owed-bind k cell client left [] after = ground arith
owed-bind k cell client left (x ∷ before) after =
    omega (arith, owed-bind k cell client left before after)

owed-return :
    (k cell : ℕ) (before after : List Call)
    → owed k (before ++ (new_call cell [] ∷ after)) ≡ owed k (before ++ after)
unfolding owed
owed-return k cell [] after = ground arith
owed-return k cell (x ∷ before) after = omega (arith, owed-return k cell before after)

-- A new command.
due-issue :
    (k n : ℕ) (load_tests : List ℕ)
    → (if ltb k (suc n) then length load_tests else 0)
      ≡ owed k (new_call n load_tests ∷ []) + (if ltb k n then length load_tests else 0)
unfolding owed
due-issue k n load_tests = ground arith

times-begun :
    {C : Type 0} (k : ℕ) (bs : List (Begun C)) (b : Begun C)
    → times k (map (λ x. x.cell) (bs ++ (b ∷ [])))
      ≡ times k (map (λ x. x.cell) bs) + times k (b.cell ∷ [])
unfolding times
times-begun k [] b = omega arith
times-begun k (x ∷ bs) b = omega (arith, times-begun k bs b)

times-cons : (k x : ℕ) (xs : List ℕ) → times k (x ∷ xs) ≡ times k (x ∷ []) + times k xs
unfolding times
times-cons k x xs = omega arith

-- Each command has its cell, and its turns are accounted for.
pub record Balanced {C : Type 0} (load_tests : List ℕ) (s : Mirror C) : Type 0 where
  pub aligned : length s.queue.cells ≡ length s.commands
  pub balance : (k : ℕ) → accounts k s ≡ due load_tests k s

pub Step-Balanced :
    {C : Type 0} (process_all : Bool) (load_tests : List ℕ) {s t : Mirror C}
    → Step process_all load_tests s t
    → Balanced load_tests s
    → Balanced load_tests t
Step-Balanced process_all load_tests {s} (issue command) b = record {
  aligned = omega (
    arith,
    b.aligned,
    length-append s.queue.cells (0 ∷ []),
    length-append s.commands (command ∷ []),
  );
  balance = λ k.
      let more : length (s.commands ++ (command ∷ [])) ≡ suc (length s.commands) =
        omega (arith, length-append s.commands (command ∷ [])) in
      rw (more, b.aligned, owed-append k s.calls (new_call (length s.commands) load_tests ∷ []))
        (omega (arith, b.balance k, due-issue k (length s.commands) load_tests));
}
Step-Balanced process_all load_tests {s} (bind before after cell client left e) b = record {
  aligned = length-set s.queue.cells cell client ∙ b.aligned;
  balance =
      λ k. omega (arith, b.balance k, ap (owed k) e, owed-bind k cell client left before after);
}
Step-Balanced process_all load_tests {s} (push before after cell left e open' room) b = record {
  aligned = b.aligned;
  balance = λ k. omega (
    arith,
    b.balance k,
    ap (owed k) e,
    owed-push k cell left before after,
    times-append k s.queue.chan.items (cell ∷ []),
  );
}
Step-Balanced process_all load_tests {s} (drop before after cell client left e off open' full at)
      b =
    record {
      aligned = b.aligned;
      balance = λ k. omega (
        arith,
        b.balance k,
        ap (owed k) e,
        owed-push k cell left before after,
        times-append k s.missed (cell ∷ []),
      );
    }
Step-Balanced process_all load_tests {s} (return before after cell e) b = record {
  aligned = b.aligned;
  balance = λ k. omega (arith, b.balance k, ap (owed k) e, owed-return k cell before after);
}
Step-Balanced process_all load_tests {s} (work cell client command rest e on at named) b = record {
  aligned = b.aligned;
  balance = λ k. omega (
    arith,
    b.balance k,
    ap (times k) e,
    times-cons k cell rest,
    times-begun k s.begun (record { cell = cell; client = client; command = command }),
  );
}
Step-Balanced process_all load_tests {s} (give_up cell rest e off) b = record {
  aligned = b.aligned;
  balance = λ k. omega (
    arith,
    b.balance k,
    ap (times k) e,
    times-cons k cell rest,
    times-append k s.missed (cell ∷ []),
  );
}
Step-Balanced process_all load_tests cancel b = record { aligned = b.aligned; balance = b.balance }

pub new-Balanced :
    {C : Type 0} (load_tests : List ℕ) (n : ℕ) → Balanced {C = C} load_tests (new_mirror n)
unfolding times owed
new-Balanced load_tests n = record { aligned = refl; balance = λ k. ground arith }

if_within : (k n m : ℕ) → k < n → (if ltb k n then m else 0) ≡ m
if_within k n m lt = ground arith

-- With no loop under way and an empty channel.
pub balance_at_rest :
    {C : Type 0} (load_tests : List ℕ) (s : Mirror C) (k : ℕ)
    → s.calls ≡ []
    → s.queue.chan.items ≡ []
    → k < length s.commands
    → accounts k s ≡ due load_tests k s
    → times k (map (λ b. b.cell) s.begun) + times k s.missed ≡ length load_tests
unfolding times owed
balance_at_rest load_tests s k no_calls no_items lt e = omega (
  arith,
  e,
  ap (owed k) no_calls,
  ap (times k) no_items,
  if_within k (length s.commands) (length load_tests) lt,
)
