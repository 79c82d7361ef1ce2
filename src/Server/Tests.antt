-- ===== src/Server/Tests.antt =====
-- A connection on which two commands arrive in pieces, and the theorems at it.
use recall.Prelude.{
  ◌≡◌, refl, List, [], ◌∷◌, ◌++◌, ◌≤◌, Bytes, codes, arith, length, none, take, drop, bytes_eq, ℕ,
  ◌+◌,
}
use recall.Run.{Run, ok, ◌>>=◌, Returns, checked_minus}
use recall.Protocol
use recall.Protocol.{crlf, ok_reply, bulk, Reply, encode, encoded_len}
use recall.Protocol.Decoder
use recall.Protocol.Decoder.{fresh}
use recall.Protocol.Limits.{validate_limits}
use recall.Command.{keys}
use recall.Command.Specs.{specs, find_spec, wrong_arity, text, eq_ignore_ascii_case}
use recall.Command.Parse.{parse, parse_named, within_limits}
use recall.Session.{execute, serve}
use recall.Protocol.Decoder.Total.{fresh-IsDecoding}
use recall.Config.Tests.{three, three_validated}
use recall.Session.Tests.{count_up, no_samples, metrics}
use recall.Server.{
  Event, received, Written, taken, connection, Connection, next_request, pending, write_reply,
  connection_loop, next_loop, after_decode, read_more, handle_next, respond_to, reply_with,
}
use recall.Server.Reading.{HasNext, next_request-HasNext}
use recall.Server.Served.{connection-Bounded, write_reply-bounded}

abbrev wire : Bytes
wire =
    codes "*1"
    ++ crlf
    ++ codes "$4"
    ++ crlf
    ++ codes "PING"
    ++ crlf
    ++ codes "*2"
    ++ crlf
    ++ codes "$3"
    ++ crlf
    ++ codes "GET"
    ++ crlf
    ++ codes "$1"
    ++ crlf
    ++ codes "k"
    ++ crlf

abbrev events : List Event
events = received (take 20 wire) ∷ received (drop 20 wire) ∷ received [] ∷ []

abbrev all_taken : Bytes → Written
all_taken bytes = taken

abbrev answered : Run Bytes
answered =
    connection count_up no_samples 1 (codes "0.1.0") three all_taken 0 metrics 7 events >>= λ c.
    ok c.output

answered_both : answered ≡ ok (codes "+PONG" ++ crlf ++ codes "+OK" ++ crlf)
unfolding connection connection_loop next_request next_loop after_decode read_more pending
    handle_next respond_to reply_with write_reply Decoder.new validate_limits Decoder.decode
    Decoder.decode_loop Decoder.decode_round Decoder.decode_count Decoder.decode_length
    Decoder.decode_body Decoder.decode_end Decoder.collect Decoder.length_header Decoder.read_length
    Decoder.push_digit Decoder.header_end Decoder.header_loop Decoder.header_step Decoder.slice
    bytes_eq Protocol.checked_add checked_minus parse parse_named specs find_spec within_limits
    wrong_arity text eq_ignore_ascii_case keys execute serve encoded_len encode
answered_both = refl

next_request-HasNext_example :
    Returns
      (HasNext three.protocol (length {A = ℕ} [] + pending events))
      (next_request three.protocol.max_frame_bytes (fresh three.protocol) [] events)
next_request-HasNext_example =
    next_request-HasNext three.protocol (fresh three.protocol) [] events
      (fresh-IsDecoding three.protocol []) refl (omega arith)

write_reply-bounded_example :
    Returns (λ bytes. length bytes ≤ three.max_reply_bytes) (write_reply three (bulk none))
write_reply-bounded_example = write_reply-bounded three (bulk none) (omega arith)

connection-Bounded_example :
    Returns
      (λ (c : Connection ℕ). length c.input ≤ three.protocol.max_frame_bytes)
      (connection count_up no_samples 1 (codes "0.1.0") three all_taken 0 metrics 7 events)
connection-Bounded_example =
    connection-Bounded count_up no_samples 1 (codes "0.1.0") three all_taken three_validated 0
      metrics 7 events
