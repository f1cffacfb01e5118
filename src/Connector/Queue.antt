-- ===== src/Connector/Queue.antt =====
-- connector.go: `queueLoadTest`, and `Do` in front of it. A client is its number. The module is
-- compiled as Go 1.18, so the function literals of one loop share the loop's variable: each call has
-- one cell for it, and a queued function holds the cell, not the client.
pub mod Account
pub mod Alias
use grab_redis.Base.{
  ℕ, suc, ◌+◌, Bool, true, false, Option, none, some, List, [], ◌∷◌, ◌++◌, length, set, get_elem?,
  ◌≡◌, if◌then◌else◌, ltb,
}
use grab_redis.Base.Text.{Str}
use grab_redis.Client.{CmdCache, if_command_readonly}

-- `fnChan` with the cells of the functions in it, oldest first, and its capacity.
pub record Chan : Type 0 where
  pub items : List ℕ
  pub cap : ℕ
  pub closed : Bool

pub record QueueState : Type 0 where
  pub chan : Chan
  -- the loop variables of the calls so far, by cell
  pub cells : List ℕ
  -- the clients whose drop was counted, newest first
  pub dropped : List ℕ

-- A send blocks on a full channel and panics on a closed one.
pub data Sent : Type 0 where
  sent : QueueState → Sent
  blocked panicked : Sent

-- The loop variable takes the next client.
abbrev pub bind_cell : ℕ → ℕ → QueueState → QueueState
bind_cell cell client s = record s { cells = set s.cells cell client }

-- The drop of a client, counted, with a stats client and a logger: `c.stats.Count1` and
-- `c.logger.Error` on the nil interfaces of a connector that was given none would panic.
abbrev pub drop_one : ℕ → QueueState → QueueState
drop_one client s = record s { dropped = client ∷ s.dropped }

-- The channel with one function more.
abbrev pub pushed : ℕ → QueueState → QueueState
pushed cell s = record s { chan = record ch { items = ch.items ++ (cell ∷ []) } }
  where
    open s use {chan as ch}

-- The send of the function that holds `cell`; `reject` is what happens if it would block.
unfoldable pub send : ℕ → QueueState → Sent → Sent
send cell s reject =
    if s.chan.closed
    then panicked
    else (if ltb (length s.chan.items) s.chan.cap then sent (pushed cell s) else reject)

-- The `for` loop over the clients: the variable takes the next client, then the function is sent.
unfoldable pub queue_loop : Bool → ℕ → List ℕ → QueueState → Sent
queue_loop process_all cell [] s = sent s
queue_loop process_all cell (client ∷ clients) s =
    elim (send cell (bind_cell cell client s)
      (if process_all then blocked else sent (drop_one client (bind_cell cell client s)))) [
        | sent t ↦ queue_loop process_all cell clients t
        | blocked ↦ blocked
        | panicked ↦ panicked
      ]

unfoldable pub queue_load_test : Bool → List ℕ → QueueState → Sent
unfolding queue_loop
queue_load_test process_all load_test_clients s =
    queue_loop process_all (length s.cells) load_test_clients
      (record s { cells = s.cells ++ (0 ∷ []) })

-- Does `Do` mirror the command? Not if `IgnoreReadOnly` is set and the command table says read-only.
unfoldable pub mirrors : Bool → CmdCache → Str → Bool
mirrors ignore_read_only cmd_cache cmd_name =
    if ignore_read_only
    then (if (if_command_readonly cmd_cache cmd_name).0 then false else true)
    else true

-- The part of `Do` and of `DoReadOnly` in front of the command itself.
unfoldable pub before_do : Bool → CmdCache → Str → Bool → List ℕ → QueueState → Sent
unfolding mirrors queue_load_test
before_do ignore_read_only cmd_cache cmd_name process_all clients s =
    if mirrors ignore_read_only cmd_cache cmd_name
    then queue_load_test process_all clients s
    else sent s

pub send_room :
    (cell : ℕ) (s : QueueState) (reject : Sent)
    → s.chan.closed ≡ false
    → ltb (length s.chan.items) s.chan.cap ≡ true
    → send cell s reject ≡ sent (pushed cell s)
unfolding send
send_room cell s reject open' room = simp (open', room)

pub send_full :
    (cell : ℕ) (s : QueueState) (reject : Sent)
    → s.chan.closed ≡ false
    → ltb (length s.chan.items) s.chan.cap ≡ false
    → send cell s reject ≡ reject
unfolding send
send_full cell s reject open' full = simp (open', full)

-- One turn of the loop on an open channel, where a full channel drops.
pub queue_loop_room :
    (cell client : ℕ) (clients : List ℕ) (s : QueueState)
    → s.chan.closed ≡ false
    → ltb (length s.chan.items) s.chan.cap ≡ true
    → queue_loop false cell (client ∷ clients) s
      ≡ queue_loop false cell clients (pushed cell (bind_cell cell client s))
unfolding queue_loop
queue_loop_room cell client clients s open' room = rw (
  send_room cell (bind_cell cell client s) (sent (drop_one client (bind_cell cell client s))) open'
      room,
  queue_loop,
)

pub queue_loop_full :
    (cell client : ℕ) (clients : List ℕ) (s : QueueState)
    → s.chan.closed ≡ false
    → ltb (length s.chan.items) s.chan.cap ≡ false
    → queue_loop false cell (client ∷ clients) s
      ≡ queue_loop false cell clients (drop_one client (bind_cell cell client s))
unfolding queue_loop
queue_loop_full cell client clients s open' full = rw (
  send_full cell (bind_cell cell client s) (sent (drop_one client (bind_cell cell client s))) open'
      full,
  queue_loop,
)
