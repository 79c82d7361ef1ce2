-- ===== src/Server.antt =====
-- A connection of crates/recall-server/src/lib.rs: `next_request`, `write_reply` and the loop of
-- `connection`. What happens on the socket is a list of events; the engine is the parameter of
-- Session, and `takes` says what becomes of a write.
pub mod Reading
pub mod Served
mod Tests
use recall.Prelude.{
  ℕ, zero, suc, ◌+◌, ◌-◌, Bool, true, false, Option, none, some, List, [], ◌∷◌, ◌++◌, Bytes, codes,
  ltb, leb, ◌==◌, if◌then◌else◌, length, take, drop,
}
use recall.Run.{Run, ok, err, panic, out_of_fuel, ◌>>=◌, or_else}
use recall.Protocol.{Reply, error, encode, encoded_len}
use recall.Protocol.Limits.{Limits}
use recall.Protocol.Decoder.{Decoder, Request, Decoded, decode}
use recall.Protocol.Decoder
use recall.Command.{Operation}
use recall.Command.Options.{Command}
use recall.Command.Parse.{parse}
use recall.Config.{Config}
use recall.Store.{ShardStats}
use recall.Store.Prepare.{exceeds}
use recall.Session.{Session, Metrics}
use recall.Session

-- What the socket and the server do to a connection, in order; `received []` is the end of the stream.
pub data Event : Type 0 where
  received : Bytes → Event
  deadline : Event
  broken : Event
  stopping : Event

-- What becomes of a write: it is done, its deadline passes, or it fails.
pub data Written : Type 0 where
  taken : Written
  too_slow : Written
  lost : Written

-- What `next_request` answers; it is blocked when no event is left.
pub data Next : Type 0 where
  request : Request → Next
  finished : Next
  protocol_failure : (message : Bytes) → Next
  io_failure : (timed_out : Bool) → Next
  blocked : Next

abbrev pub NextState : Type 0
NextState = Next × Decoder × Bytes × List Event

abbrev pub minimum : ℕ → ℕ → ℕ
minimum a b = if leb a b then a else b

-- The events after `count` of the bytes have been read.
abbrev pub unread : ℕ → Bytes → List Event → List Event
unread count bytes rest =
    if leb (length bytes) count then rest else received (drop count bytes) ∷ rest

-- The read of a round of `next_request`, with the next round `again`.
unfoldable pub read_more :
    (again : Decoder → Bytes → List Event → Run NextState)
    → ℕ
    → Decoder
    → Bytes
    → List Event
    → Run NextState
read_more again remaining d input [] = ok (blocked, d, input, [])
read_more again remaining d input (stopping ∷ rest) = ok (finished, d, input, rest)
read_more again remaining d input (deadline ∷ rest) = ok (io_failure true, d, input, rest)
read_more again remaining d input (broken ∷ rest) = ok (io_failure false, d, input, rest)
read_more again remaining d input (received bytes ∷ rest) =
    if length bytes == 0
    then ok (
      if length input == 0 then finished else protocol_failure (codes "truncated request"),
      d,
      input,
      rest,
    )
    else again d (input ++ take remaining bytes) (unread remaining bytes rest)

-- A round of `next_request` after `decode`.
unfoldable pub after_decode :
    (max_frame_bytes : ℕ)
    → (again : Decoder → Bytes → List Event → Run NextState) → Decoder
    → Bytes
    → List Event
    → Run Decoded
    → Run NextState
after_decode max_frame_bytes again d input events panic = panic
after_decode max_frame_bytes again d input events out_of_fuel = out_of_fuel
after_decode max_frame_bytes again d input events (err message) =
    ok (protocol_failure message, d, input, events)
after_decode max_frame_bytes again d input events (ok (some r, d', input')) =
    ok (request r, d', input', events)
after_decode max_frame_bytes again d input events (ok (none, d', input')) =
    let remaining = minimum (max_frame_bytes - length input') 8192 in
    if remaining == 0
    then ok (protocol_failure (codes "request exceeds configured limit"), d', input', events)
    else read_more again remaining d' input' events

unfoldable pub next_loop : ℕ → (max_frame_bytes : ℕ) → Decoder → Bytes → List Event → Run NextState
next_loop zero max_frame_bytes d input events = out_of_fuel
next_loop (suc fuel) max_frame_bytes d input events =
    after_decode max_frame_bytes (next_loop fuel max_frame_bytes) d input events (decode d input)

-- The bytes to come, and one for each event.
unfoldable pub pending : List Event → ℕ
pending [] = 0
pending (received bytes ∷ rest) = suc (length bytes + pending rest)
pending (_ ∷ rest) = suc (pending rest)

-- `next_request`; each round that goes on has read a byte at least.
unfoldable pub next_request : (max_frame_bytes : ℕ) → Decoder → Bytes → List Event → Run NextState
next_request max_frame_bytes d input events =
    next_loop (pending events + 1) max_frame_bytes d input events

-- `write_reply`: the bytes that are written.
unfoldable pub write_reply : Config → Reply → Run Bytes
write_reply config reply =
    let bounded =
      if exceeds (encoded_len reply) config.max_reply_bytes
      then error (codes "ERR response exceeds configured limit")
      else reply in
    or_else (encoded_len bounded) panic >>= λ reserved. ok (encode bounded [])

-- The locals of `connection`, with the engine, the counters, and all that has been written.
pub record Connection (World : Type 0) : Type 0 where
  pub world : World
  pub session : Session
  pub metrics : Metrics
  pub decoder : Decoder
  pub input : Bytes
  pub output : Bytes

abbrev pub is_stopping : List Event → Bool
is_stopping (stopping ∷ rest) = true
is_stopping _ = false

module _ {World : Type 0} (run : World → Operation → World × Reply)
    (samples : World → List ShardStats) (workers : ℕ) (version : Bytes) (config : Config)
    (takes : Bytes → Written) where
  -- The answer to a request: the engine, the session, the reply, and whether the connection closes.
  unfoldable pub respond_to : Connection World → Run Command → Run (World × Session × Reply × Bool)
  respond_to c (ok command) =
      Session.execute run samples workers version config c.metrics c.world c.session command
  respond_to c (err message) = ok (c.world, c.session, error message, false)
  respond_to c panic = panic
  respond_to c out_of_fuel = out_of_fuel

  abbrev pub timed_out_once : Metrics → Metrics
  timed_out_once m = record m { io_timeouts = m.io_timeouts + 1 }

  -- The reply goes out, or the connection ends.
  unfoldable pub reply_with :
      (again : Connection World → Run (Connection World))
      → Connection World
      → Reply
      → Bool
      → Run (Connection World)
  reply_with again c reply close = do
    bytes ← write_reply config reply
    elim (takes bytes) [
      | too_slow ↦ ok (record c { metrics = timed_out_once c.metrics })
      | lost ↦ ok c
      | taken ↦ elim close [
        | true ↦ ok (record c { output = c.output ++ bytes })
        | false ↦ again (record c { output = c.output ++ bytes })
      ]
    ]

  -- What `connection` does with the answer of `next_request`.
  unfoldable pub handle_next :
      (again : Connection World → Run (Connection World))
      → Connection World
      → Next
      → Run (Connection World)
  handle_next again c finished = ok c
  handle_next again c blocked = ok c
  handle_next again c (io_failure true) = ok (record c { metrics = timed_out_once c.metrics })
  handle_next again c (io_failure false) = ok c
  handle_next again c (protocol_failure message) =
      reply_with again
        (record c {
          metrics = record c.metrics { protocol_errors = c.metrics.protocol_errors + 1 };
        })
        (error (codes "ERR Protocol error: " ++ message)) true
  handle_next again c (request r) = do
    let counted = record c {
      metrics = record c.metrics { total_commands = c.metrics.total_commands + 1 };
    }
    (world, session, reply, close) ← respond_to counted (parse r.arguments config.commands)
    reply_with again (record counted { world = world; session = session }) reply close

  unfoldable pub connection_loop : ℕ → Connection World → List Event → Run (Connection World)
  connection_loop zero c events = out_of_fuel
  connection_loop (suc fuel) c events = if is_stopping events then ok c else (do
    (next, d, input, events') ←
        next_request config.protocol.max_frame_bytes c.decoder c.input events
    handle_next (λ c'. connection_loop fuel c' events') (record c { decoder = d; input = input })
        next)

  -- `connection`
  unfoldable pub connection : World → Metrics → (id : ℕ) → List Event → Run (Connection World)
  connection world metrics id events = do
    decoder ← Decoder.new config.protocol
    connection_loop (pending events + 1)
        (record {
          world = world;
          session = Session.new id config;
          metrics = metrics;
          decoder = decoder;
          input = [];
          output = [];
        })
        events
