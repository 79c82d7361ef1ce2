-- ===== src/Server/Served.antt =====
-- A connection ends without a panic on any events, and its replies and its input stay within bounds.

use recall.Prelude.{
  ℕ, zero, suc, ◌+◌, ◌≤◌, ◌<◌, ◌≡◌, refl, Bool, true, false, Option, none, some, List, [], ◌++◌,
  Bytes, codes, length, arith, Bool-cases, inl, inr,
}
use recall.Run.{
  Run, ok, panic, ◌>>=◌, or_else, Returns, returned, Returns-then, Returns-branch, Returns-weaken,
  Answers, value, refused,
}
use recall.Protocol.{Reply, error, encode, encoded_len, checked_add}
use recall.Protocol.Length.{within, encoded_len-encode}
use recall.Protocol.Limits.{validate_limits}
use recall.Protocol.Decoder.{Decoder, fresh}
use recall.Protocol.Decoder
use recall.Protocol.Decoder.Parts.{IsDecoding}
use recall.Protocol.Decoder.Total.{fresh-IsDecoding}
use recall.Command.{Operation}
use recall.Command.Options.{Command}
use recall.Command.Parse.{parse}
use recall.Command.Parse.Accepted.{parse-Answers}
use recall.Config.{Config, validate}
use recall.Config.Budget.{validate-IsChecked, validate-protocol}
use recall.Store.{ShardStats}
use recall.Store.Prepare.{exceeds}
use recall.Session.{Session, Metrics}
use recall.Session
use recall.Session.Gate.{execute-Gated}
use recall.Session.Stays.{execute-Stays}
use recall.Server.{
  Event, Next, NextState, Written, taken, too_slow, lost, pending, write_reply, Connection,
  respond_to, reply_with, handle_next, is_stopping, connection_loop, connection,
}
use recall.Server.Reading.{
  HasNext, got, over, IsEnd, is_finished, is_protocol_failure, is_io_failure, is_blocked,
  next_request-HasNext,
}

-- The reply that stands for one that is too long.
abbrev too_long : Reply
too_long = error (codes "ERR response exceeds configured limit")

written :
    (limit : ℕ) (r : Reply) (o : Option ℕ)
    → encoded_len r ≡ o
    → exceeds o limit ≡ false
    → Returns (λ bytes. length bytes ≤ limit) (or_else o panic >>= λ reserved. ok (encode r []))
written limit r none e h = absurd cc
written limit r (some n) e h =
    let (known, whole) = encoded_len-encode r [] in returned (ground (arith, e, known, whole, h))

too_long-fits : (limit : ℕ) → 64 ≤ limit → exceeds (encoded_len too_long) limit ≡ false
unfolding encoded_len checked_add
too_long-fits limit h = ground arith

-- Every reply that is written has the length that a configuration allows, where that is 64 at least; a
-- longer one is replaced by an error, whose length is known.
pub write_reply-bounded :
    (config : Config) (reply : Reply)
    → 64 ≤ config.max_reply_bytes
    → Returns (λ bytes. length bytes ≤ config.max_reply_bytes) (write_reply config reply)
unfolding write_reply
write_reply-bounded config reply h =
    elim (Bool-cases (exceeds (encoded_len reply) config.max_reply_bytes)) [
      | inl long ↦
          rw long (
            written config.max_reply_bytes too_long _ refl (too_long-fits config.max_reply_bytes h))
      | inr fits ↦ rw fits (written config.max_reply_bytes reply _ refl fits)
    ]

module _ {World : Type 0} (run : World → Operation → World × Reply)
    (samples : World → List ShardStats) (workers : ℕ) (version : Bytes) (config : Config)
    (takes : Bytes → Written) (roomy : 64 ≤ config.max_reply_bytes) where
  -- The input of a connection is within the limit of a frame.
  abbrev pub Bounded : Connection World → Type 0
  Bounded c = length c.input ≤ config.protocol.max_frame_bytes

  execute_ends :
      (metrics : Metrics) (w : World) (s : Session) (command : Command)
      → Returns
          (λ _. Unit {0})
          (Session.execute run samples workers version config metrics w s command)
  execute_ends metrics w s command = elim (Bool-cases s.authenticated) [
    | inl b ↦
        Returns-weaken (execute-Stays run samples workers version config metrics w s command b)
          λ r x. tt
    | inr b ↦
        Returns-weaken (execute-Gated run samples workers version config metrics w s command b)
          λ r x. tt
  ]

  respond_ends :
      {P : Command → Type 0} (c : Connection World) (q : Run Command)
      → Answers P q
      → Returns (λ _. Unit {0}) (respond_to run samples workers version config takes c q)
  respond_ends c _ (value {v = command} p) =
      unfold respond_to in execute_ends c.metrics c.world c.session command
  respond_ends c _ (refused message) = unfold respond_to in returned tt

  reply_with-Bounded :
      (again : Connection World → Run (Connection World)) (c : Connection World) (reply : Reply)
      (close : Bool)
      → Bounded c
      → (close ≡ false → (output : Bytes) → Returns Bounded (again (record c { output = output })))
      → Returns Bounded (reply_with run samples workers version config takes again c reply close)
  unfolding reply_with
  reply_with-Bounded again c reply close within_frame more =
      Returns-then (write_reply-bounded config reply roomy)
        λ bytes x. after_write (takes bytes) bytes
    where
      after_write :
          (w : Written) (bytes : Bytes)
          → Returns Bounded (elim w [
            | too_slow ↦ ok (record c {
              metrics = record c.metrics { io_timeouts = c.metrics.io_timeouts + 1 };
            })
            | lost ↦ ok c
            | taken ↦ elim close [
              | true ↦ ok (record c { output = c.output ++ bytes })
              | false ↦ again (record c { output = c.output ++ bytes })
            ]
          ])
      after_write too_slow bytes = returned within_frame
      after_write lost bytes = returned within_frame
      after_write taken bytes = go close more
        where
          go :
              (b : Bool)
              → (b ≡ false
                  → (output : Bytes) → Returns Bounded (again (record c { output = output })))
              → Returns Bounded (elim b [
                | true ↦ ok (record c { output = c.output ++ bytes })
                | false ↦ again (record c { output = c.output ++ bytes })
              ])
          go true m = returned within_frame
          go false m = m refl (c.output ++ bytes)

  -- The rounds that follow, from this decoder and this input.
  Follows : (Connection World → Run (Connection World)) → Decoder → Bytes → Type 0
  Follows again d input =
      (w : World) (s : Session) (m : Metrics) (output : Bytes)
      → Returns Bounded (
          again (record {
            world = w;
            session = s;
            metrics = m;
            decoder = d;
            input = input;
            output = output;
          }))

  end-Bounded :
      (again : Connection World → Run (Connection World)) (c : Connection World) (n : Next)
      → IsEnd n
      → Bounded c
      → Returns Bounded (handle_next run samples workers version config takes again c n)
  unfolding handle_next
  end-Bounded again c _ is_finished b = returned b
  end-Bounded again c _ (is_protocol_failure message) b =
      reply_with-Bounded again
        (record c {
          metrics = record c.metrics { protocol_errors = c.metrics.protocol_errors + 1 };
        })
        (error (codes "ERR Protocol error: " ++ message)) true b λ e. cc
  end-Bounded again c _ (is_io_failure true) b = returned b
  end-Bounded again c _ (is_io_failure false) b = returned b
  end-Bounded again c _ is_blocked b = returned b

  handle_next-Bounded :
      (fuel : ℕ) (c : Connection World) (left : ℕ) (r : NextState)
      → HasNext config.protocol left r
      → left ≤ fuel
      → ((d : Decoder) (input : Bytes) (events : List Event)
          → IsDecoding d input
          → d.limits ≡ config.protocol
          → length input ≤ config.protocol.max_frame_bytes
          → length input + pending events < fuel
          → Follows
              (λ c'. connection_loop run samples workers version config takes fuel c' events)
              d
              input)
      → Returns Bounded (
          handle_next run samples workers version config takes
            (λ c'. connection_loop run samples workers version config takes fuel c' r.3)
            (record c { decoder = r.1; input = r.2 })
            r.0)
  unfolding handle_next Follows
  handle_next-Bounded fuel c left _ (over n d input events ends within) h more =
      end-Bounded _ (record c { decoder = d; input = input }) n ends within
  handle_next-Bounded fuel c left _ (got r d input events x v e within less) h more =
      Returns-then
        (respond_ends
          (record c {
            decoder = d;
            input = input;
            metrics = record c.metrics { total_commands = c.metrics.total_commands + 1 };
          })
          (parse r.arguments config.commands) (parse-Answers r.arguments config.commands))
        λ a _.
          reply_with-Bounded _ _ a.2 a.3 within
            λ _ output. more d input events v e within (omega (arith, less, h)) a.0 a.1 _ output

  connection_loop-Bounded :
      (fuel : ℕ) (d : Decoder) (input : Bytes) (events : List Event)
      → IsDecoding d input
      → d.limits ≡ config.protocol
      → length input ≤ config.protocol.max_frame_bytes
      → length input + pending events < fuel
      → Follows
          (λ c. connection_loop run samples workers version config takes fuel c events)
          d
          input
  unfolding connection_loop Follows
  connection_loop-Bounded zero d input events v e within f w s m output = absurd (omega arith)
  connection_loop-Bounded (suc fuel) d input events v e within f w s m output =
      Returns-branch (is_stopping events) (λ b. returned within)
        λ b. Returns-then (next_request-HasNext config.protocol d input events v e within) λ r next.
          handle_next-Bounded fuel
            (record {
              world = w;
              session = s;
              metrics = m;
              decoder = d;
              input = input;
              output = output;
            })
            (length input + pending events) r next (omega arith) (connection_loop-Bounded fuel)

  connection-Returns :
      validate_limits config.protocol ≡ ok tt
      → (world : World) (metrics : Metrics) (id : ℕ) (events : List Event)
      → Returns Bounded
          (connection run samples workers version config takes world metrics id events)
  unfolding connection Decoder.new Follows
  connection-Returns e world metrics id events = rw e (
      connection_loop-Bounded (pending events + 1) (fresh config.protocol) [] events
        (fresh-IsDecoding config.protocol []) refl (omega arith) (omega arith) world
        (Session.new id config) metrics [])

-- A connection under a configuration that `validate` accepts ends on any events of the socket and
-- whatever the engine answers: nothing on the way from the bytes through the decoder, the parser, the
-- session and the reply panics, the loops end, and the input stays within the limit of a frame.
pub connection-Bounded :
    {World : Type 0} (run : World → Operation → World × Reply) (samples : World → List ShardStats)
    (workers : ℕ) (version : Bytes) (config : Config) (takes : Bytes → Written)
    → validate config ≡ ok tt
    → (world : World) (metrics : Metrics) (id : ℕ) (events : List Event)
    → Returns
        (λ (c : Connection World). length c.input ≤ config.protocol.max_frame_bytes)
        (connection run samples workers version config takes world metrics id events)
connection-Bounded run samples workers version config takes e world metrics id events =
    let checked = validate-IsChecked config e in
    connection-Returns run samples workers version config takes (omega (arith, checked.reply))
      (validate-protocol config e) world metrics id events
