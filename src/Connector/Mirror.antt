-- ===== src/Connector/Mirror.antt =====
-- connector.go and scheduler.go together: the loops of `queueLoadTest`, of any number of commands at
-- once, and the workers that run what they queue. Each command has one cell of Connector.Queue, so the
-- number of its cell is the number of the command. The channel stays open, what closes it is
-- in Scheduler, and no reload changes the list of load test clients.
pub mod Counts
pub mod Clients
pub mod Alone
use grab_redis.Base.{
  ℕ, ◌≤◌, ◌<◌, ◌≡◌, Bool, true, false, Option, none, some, List, [], ◌∷◌, ◌++◌, length, get_elem?,
}
use grab_redis.Connector.Queue.{QueueState, Chan, bind_cell, drop_one, pushed}

-- A loop under way: its variable has been set for a send that is to come, or not, and the clients left.
pub record Call : Type 0 where
  pub cell : ℕ
  pub to_send : Bool
  pub left : List ℕ

-- A function that a worker has begun: the command, and the client that it read from the variable.
pub record Begun (C : Type 0) : Type 0 where
  pub cell : ℕ
  pub client : ℕ
  pub command : C

-- `missed` are the functions that were dropped at a full channel, or taken after the cancellation.
pub record Mirror (C : Type 0) : Type 0 where
  pub queue : QueueState
  pub commands : List C
  pub calls : List Call
  pub begun : List (Begun C)
  pub missed : List ℕ
  pub cancelled : Bool

abbrev pub new_mirror : {C : Type 0} → ℕ → Mirror C
new_mirror max_chan_size = record {
  queue = record {
    chan = record { items = []; cap = max_chan_size; closed = false };
    cells = [];
    dropped = [];
  };
  commands = [];
  calls = [];
  begun = [];
  missed = [];
  cancelled = false;
}

abbrev pub new_call : ℕ → List ℕ → Call
new_call cell left = record { cell = cell; to_send = false; left = left }

abbrev pub with_items : List ℕ → QueueState → QueueState
with_items rest q = record q { chan = record (q.chan) { items = rest } }

pub data Step {C : Type 0} (process_all : Bool) (load_tests : List ℕ) (s : Mirror C)
    : Mirror C → Type 0 where
  -- a command calls `queueLoadTest`
  issue :
      (command : C)
      → Step process_all load_tests s (record s {
        queue = record (s.queue) { cells = s.queue.cells ++ (0 ∷ []) };
        commands = s.commands ++ (command ∷ []);
        calls = s.calls ++ (new_call (length s.queue.cells) load_tests ∷ []);
      })
  -- the loop variable takes the next client
  bind :
      (before after : List Call) (cell client : ℕ) (left : List ℕ)
      → s.calls ≡ before ++ (new_call cell (client ∷ left) ∷ after)
      → Step process_all load_tests s (record s {
        queue = bind_cell cell client s.queue;
        calls = before ++ (record { cell = cell; to_send = true; left = left } ∷ after);
      })
  -- the function is sent
  push :
      (before after : List Call) (cell : ℕ) (left : List ℕ)
      → s.calls ≡ before ++ (record { cell = cell; to_send = true; left = left } ∷ after)
      → s.queue.chan.closed ≡ false
      → length s.queue.chan.items < s.queue.chan.cap
      → Step process_all load_tests s
          (record s { queue = pushed cell s.queue; calls = before ++ (new_call cell left ∷ after) })
  -- the channel is full, and the load tests need not get everything
  drop :
      (before after : List Call) (cell client : ℕ) (left : List ℕ)
      → s.calls ≡ before ++ (record { cell = cell; to_send = true; left = left } ∷ after)
      → process_all ≡ false
      → s.queue.chan.closed ≡ false
      → s.queue.chan.cap ≤ length s.queue.chan.items
      → get_elem? s.queue.cells cell ≡ some client
      → Step process_all load_tests s (record s {
        queue = drop_one client s.queue;
        calls = before ++ (new_call cell left ∷ after);
        missed = s.missed ++ (cell ∷ []);
      })
  -- the loop of a command ends
  return :
      (before after : List Call) (cell : ℕ)
      → s.calls ≡ before ++ (new_call cell [] ∷ after)
      → Step process_all load_tests s (record s { calls = before ++ after })
  -- a worker takes the oldest function, which reads the variable and runs the command there
  work :
      (cell client : ℕ) (command : C) (rest : List ℕ)
      → s.queue.chan.items ≡ cell ∷ rest
      → s.cancelled ≡ false
      → get_elem? s.queue.cells cell ≡ some client
      → get_elem? s.commands cell ≡ some command
      → Step process_all load_tests s (record s {
        queue = with_items rest s.queue;
        begun = s.begun ++ (record { cell = cell; client = client; command = command } ∷ []);
      })
  -- the same after the cancellation: the function returns at once
  give_up :
      (cell : ℕ) (rest : List ℕ)
      → s.queue.chan.items ≡ cell ∷ rest
      → s.cancelled ≡ true
      → Step process_all load_tests s
          (record s { queue = with_items rest s.queue; missed = s.missed ++ (cell ∷ []) })
  cancel : Step process_all load_tests s (record s { cancelled = true })

pub data Reach {C : Type 0} (process_all : Bool) (load_tests : List ℕ) (s : Mirror C)
    : Mirror C → Type 0 where
  here : Reach process_all load_tests s s
  next :
      {t u : Mirror C}
      → Reach process_all load_tests s t
      → Step process_all load_tests t u
      → Reach process_all load_tests s u
