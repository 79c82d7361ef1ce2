-- ===== src/Protocol/Decoder/Tests.antt =====
-- Runs of the decoder after the tests of the source, and the theorem on it.
use recall.Prelude.{◌≡◌, refl, Option, some, [], ◌∷◌, ◌++◌, Bytes, bytes_eq, codes, take, drop}
use recall.Run.{Run, ok, err, ◌>>=◌, checked_minus, Answers}
use recall.Protocol.{checked_add, crlf}
use recall.Protocol.Limits.{Limits}
use recall.Protocol.Decoder.{
  Request, fresh, slice, header_step, header_loop, header_end, push_digit, read_length,
  length_header, decode_count, decode_length, collect, decode_end, decode_body, decode_round,
  decode_loop, decode,
}
use recall.Protocol.Decoder.Total.{HasDecoded, decode-Answers, fresh-IsDecoding}

abbrev limits : Limits
limits = record {
  max_header_bytes = 64;
  max_arguments = 1024;
  max_bulk_bytes = 1048576;
  max_frame_bytes = 1048640;
}

abbrev ping : Bytes
ping = codes "*1" ++ crlf ++ codes "$4" ++ crlf ++ codes "PING" ++ crlf

abbrev ping_request : Request
ping_request = record { arguments = codes "PING" ∷ []; wire_bytes = 14 }

-- Two requests that arrive together.
abbrev two_requests : Run (Option Request × Option Request × Bytes)
two_requests = do
  (first, d, input) ← decode (fresh limits) (ping ++ ping)
  (second, d', input') ← decode d input
  ok (first, second, input')

two_pings : two_requests ≡ ok (some ping_request, some ping_request, [])
unfolding decode decode_loop decode_round decode_count decode_length decode_body decode_end collect
    length_header read_length push_digit header_end header_loop header_step slice bytes_eq
    checked_add checked_minus
two_pings = refl

-- The first five bytes, then all of them.
in_fragments :
    (decode (fresh limits) (take 5 ping) >>= λ r. decode r.1 (r.2 ++ drop 5 ping))
    ≡ ok (some ping_request, fresh limits, [])
unfolding decode decode_loop decode_round decode_count decode_length decode_body decode_end collect
    length_header read_length push_digit header_end header_loop header_step slice bytes_eq
    checked_add checked_minus
in_fragments = refl

no_line_ending :
    decode (fresh limits) (codes "*1" ++ 10 ∷ codes "$4")
    ≡ err (codes "invalid protocol line ending")
unfolding decode decode_loop decode_round decode_count header_end header_loop header_step
    checked_minus
no_line_ending = refl

decode-Answers_example :
    Answers (HasDecoded limits (ping ++ ping)) (decode (fresh limits) (ping ++ ping))
decode-Answers_example =
    decode-Answers (fresh limits) (ping ++ ping) (fresh-IsDecoding limits (ping ++ ping))
