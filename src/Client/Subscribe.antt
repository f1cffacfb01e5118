-- ===== src/Client/Subscribe.antt =====
-- client.go: `Subscribe`, whose goroutine hands the messages of goredis on, as the atomic actions of
-- that goroutine, of goredis and of the reader. The types are those of redisapi/client.go.
pub mod Order
use grab_redis.Base.{
  ℕ, zero, suc, ◌<◌, ◌≡◌, Bool, true, false, Option, none, some, List, [], ◌∷◌, ◌++◌, length,
}
use grab_redis.Base.Int.{ℤ, pos, negsuc}
use grab_redis.Base.Text.{Str}

-- A message of goredis, of which the payload and the channel are read.
pub record Message : Type 0 where
  pub channel : Str
  pub payload : Str

pub record SubscribeMessage : Type 0 where
  pub channel : Str
  pub message_data : Str

unfoldable pub message_of : Message → SubscribeMessage
message_of msg = record { channel = msg.channel; message_data = msg.payload }

-- `arrived` are the messages that goredis has sent so far, `source` those of them that the goroutine has
-- not read, `held` the one that it has read and not sent; `buffer` and `cap` are of `resultChan`, and
-- `received` is what the reader has got.
pub record Subscription : Type 0 where
  pub arrived : List Message
  pub source : List Message
  pub source_closed : Bool
  pub held : Option SubscribeMessage
  pub buffer : List SubscribeMessage
  pub cap : ℕ
  pub closed : Bool
  pub received : List SubscribeMessage

-- `Subscribe`, up to the answer; `none` is the panic of `make` with a negative size.
unfoldable pub subscribe : ℤ → Option Subscription
subscribe (negsuc n) = none
subscribe (pos cap) = some (record {
  arrived = [];
  source = [];
  source_closed = false;
  held = none;
  buffer = [];
  cap = cap;
  closed = false;
  received = [];
})

pub data Step (s : Subscription) : Subscription → Type 0 where
  -- goredis sends a message on its channel, or closes it
  arrive :
      (msg : Message)
      → s.source_closed ≡ false
      → Step s (record s { arrived = s.arrived ++ (msg ∷ []); source = s.source ++ (msg ∷ []) })
  close_source : Step s (record s { source_closed = true })
  -- `for msg := range ch`
  read :
      (msg : Message) (rest : List Message)
      → s.held ≡ none
      → s.source ≡ msg ∷ rest
      → Step s (record s { source = rest; held = some (message_of msg) })
  -- `resultChan <- ...` with room in the buffer, or with a reader that waits
  send :
      (m : SubscribeMessage)
      → s.held ≡ some m
      → length s.buffer < s.cap
      → Step s (record s { held = none; buffer = s.buffer ++ (m ∷ []) })
  hand_over :
      (m : SubscribeMessage)
      → s.held ≡ some m
      → s.buffer ≡ []
      → Step s (record s { held = none; received = s.received ++ (m ∷ []) })
  -- the reader
  receive :
      (m : SubscribeMessage) (rest : List SubscribeMessage)
      → s.buffer ≡ m ∷ rest
      → Step s (record s { buffer = rest; received = s.received ++ (m ∷ []) })
  -- the end of the range, and `close(resultChan)`
  finish :
      s.source_closed ≡ true
      → s.source ≡ []
      → s.held ≡ none
      → s.closed ≡ false
      → Step s (record s { closed = true })

pub data Reach (s : Subscription) : Subscription → Type 0 where
  here : Reach s s
  next : {t u : Subscription} → Reach s t → Step t u → Reach s u
