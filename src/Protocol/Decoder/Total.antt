-- ===== src/Protocol/Decoder/Total.antt =====
-- `decode` as a whole: it answers on every input, and between its calls input may be added.
use recall.Prelude.{
  ℕ, zero, suc, ◌+◌, ◌-◌, ◌≤◌, ◌<◌, ◌≡◌, refl, none, some, ◌++◌, Bytes, arith, length,
  length-append, drop,
}
use recall.Run.{Run, ok, Answers, value, Answers-then}
use recall.Protocol.Limits.{Limits}
use recall.Protocol.Decoder.{
  Decoder, Request, Progress, waiting, another, complete, fresh, decode_loop, decode, Decoded,
}
use recall.Protocol.Decoder.Parts.{IsDecoding, IsSpans, IsCounted, IsMeasured}
use recall.Protocol.Decoder.Safe.{
  HasProgress, waited, went_on, completed, IsRequest, decode_round-Answers, HasProgress-same,
}

-- What `decode` answers: it waits for input that the frame has room for, or it has taken a request
-- from the front of the input and starts afresh.
pub data HasDecoded (limits : Limits) (input : Bytes) : Decoded → Type 0 where
  wanting :
      (d : Decoder)
      → IsDecoding d input
      → d.limits ≡ limits
      → length input < limits.max_frame_bytes
      → HasDecoded limits input (none, d, input)
  taken :
      (request : Request)
      → IsRequest limits request
      → 0 < request.wire_bytes
      → request.wire_bytes ≤ length input
      → HasDecoded limits input (some request, fresh limits, drop request.wire_bytes input)

after_round :
    {limits : Limits} (d : Decoder) (input : Bytes) (r : Progress × Decoder × Bytes)
    (next : Decoder → Bytes → Run Decoded)
    → d.limits ≡ limits
    → HasProgress limits d.cursor input r
    → ((d' : Decoder)
        → IsDecoding d' input
        → d'.limits ≡ limits
        → d.cursor < d'.cursor
        → Answers (HasDecoded limits input) (next d' input))
    → Answers (HasDecoded limits input) (elim r.0 [
      | waiting ↦ ok (none, r.1, r.2)
      | complete request ↦ ok (some request, r.1, r.2)
      | another ↦ next r.1 r.2
    ])
after_round d input r next e (waited d' v s room) ih = value (wanting d' v s room)
after_round d input r next e (went_on d' v s later) ih = ih d' v s later
after_round d input r next e (completed request x later inside) ih =
    value (taken request x (omega arith) inside)

decode_loop-Answers :
    {limits : Limits} (fuel : ℕ) (d : Decoder) (input : Bytes)
    → length input - d.cursor < fuel
    → IsDecoding d input
    → d.limits ≡ limits
    → Answers (HasDecoded limits input) (decode_loop fuel d input)
unfolding decode_loop
decode_loop-Answers zero d input f v e = absurd (omega arith)
decode_loop-Answers (suc fuel) d input f v e = Answers-then (decode_round-Answers d input v) λ r p.
    after_round d input r (decode_loop fuel) e (HasProgress-same e p)
      λ d' v' s later. decode_loop-Answers fuel d' input (omega (arith, v'.ordered, v'.inside)) v' s

-- From a decoder in the middle of a frame, `decode` answers on every input with an error, a wait or
-- a request: no index is out of bounds, nothing is subtracted below zero, and its loops end. It waits
-- only while the input is shorter than the limit of a frame. A request has at least one argument, not
-- more than the limit of arguments nor longer ones than the limit of a bulk, and takes at least one
-- byte from the front of the input and at most the limit of a frame; the decoder starts afresh.
pub decode-Answers :
    (d : Decoder) (input : Bytes)
    → IsDecoding d input
    → Answers (HasDecoded d.limits input) (decode d input)
unfolding decode
decode-Answers d input v = decode_loop-Answers (length input + 1) d input (omega arith) v refl

pub fresh-IsDecoding : (limits : Limits) (input : Bytes) → IsDecoding (fresh limits) input
unfolding IsSpans IsCounted IsMeasured
fresh-IsDecoding limits input = record {
  ordered = omega arith;
  inside = omega arith;
  framed = omega arith;
  read = tt;
  counted = (refl, refl);
  measured = tt;
}

-- A decoder that waits can go on with more input.
pub append-IsDecoding :
    (d : Decoder) (input more : Bytes) → IsDecoding d input → IsDecoding d (input ++ more)
append-IsDecoding d input more v = record {
  ordered = v.ordered;
  inside = omega (arith, v.inside, length-append input more);
  framed = v.framed;
  read = v.read;
  counted = v.counted;
  measured = v.measured;
}
