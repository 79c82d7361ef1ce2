-- ===== src/Server/Reading.antt =====
-- `next_request` ends, keeps the input within the limit of a frame, and reads on from a request.
use mathlib.Core.Path.{subst}
use recall.Prelude.{
  ℕ, zero, suc, ◌+◌, ◌-◌, ◌≤◌, ◌<◌, ◌≡◌, refl, Bool, true, false, List, [], ◌∷◌, ◌++◌, Bytes, codes,
  leb, ◌==◌, if◌then◌else◌, length, take, drop, arith, length-append, length-drop, Bool-cases, inl,
  inr,
}
use recall.Run.{Run, Returns, returned, Returns-branch, Returns-weaken, Answers, value, refused}
use recall.Protocol.Limits.{Limits}
use recall.Protocol.Decoder.{Decoder, Request, Decoded, fresh, decode}
use recall.Protocol.Decoder.Parts.{IsDecoding}
use recall.Protocol.Decoder.Safe.{IsRequest}
use recall.Protocol.Decoder.Total.{
  HasDecoded, wanting, taken, decode-Answers, fresh-IsDecoding, append-IsDecoding,
}
use recall.Server.{
  Event, received, deadline, broken, stopping, Next, request, finished, protocol_failure,
  io_failure, blocked, NextState, minimum, unread, read_more, after_decode, next_loop, pending,
  next_request,
}

-- An answer after which the connection ends.
pub data IsEnd : Next → Type 0 where
  is_finished : IsEnd finished
  is_protocol_failure : (message : Bytes) → IsEnd (protocol_failure message)
  is_io_failure : (timed_out : Bool) → IsEnd (io_failure timed_out)
  is_blocked : IsEnd blocked

-- What `next_request` promises: a request within the limits, after which the decoder can go on with
-- an input within the limit of a frame and less is left to read; or the end of the connection.
pub data HasNext (limits : Limits) (left : ℕ) : NextState → Type 0 where
  got :
      (r : Request) (d : Decoder) (input : Bytes) (events : List Event)
      → IsRequest limits r
      → IsDecoding d input
      → d.limits ≡ limits
      → length input ≤ limits.max_frame_bytes
      → length input + pending events < left
      → HasNext limits left (request r, d, input, events)
  over :
      (n : Next) (d : Decoder) (input : Bytes) (events : List Event)
      → IsEnd n
      → length input ≤ limits.max_frame_bytes
      → HasNext limits left (n, d, input, events)

length-take_le : (n : ℕ) (bytes : Bytes) → length (take n bytes) ≤ n
length-take_le zero bytes = omega arith
length-take_le (suc n) [] = omega arith
length-take_le (suc n) (b ∷ bytes) = omega (arith, length-take_le n bytes)

length-take-drop :
    (n : ℕ) (bytes : Bytes) → length (take n bytes) + length (drop n bytes) ≡ length bytes
length-take-drop zero bytes = omega arith
length-take-drop (suc n) [] = omega arith
length-take-drop (suc n) (b ∷ bytes) = omega (arith, length-take-drop n bytes)

-- A read takes bytes from the events to the input, and one at least.
unread-less :
    (count : ℕ) (bytes : Bytes) (rest : List Event)
    → 0 < count
    → 0 < length bytes
    → (pending (unread count bytes rest) < pending (received bytes ∷ rest))
      × (length (take count bytes) + pending (unread count bytes rest)
          ≤ pending (received bytes ∷ rest))
unfolding pending
unread-less count bytes rest h k = elim (Bool-cases (leb (length bytes) count)) [
  | inl all ↦
      rw all
        (omega (arith, length-take-drop count bytes), omega (arith, length-take-drop count bytes))
  | inr some_left ↦
      rw some_left
        (omega (arith, k, h, length-drop count bytes), omega (arith, length-take-drop count bytes))
]

-- A smaller bound on what is left holds of a larger one.
HasNext-less :
    {limits : Limits} {r : NextState} (a b : ℕ) → a ≤ b → HasNext limits a r → HasNext limits b r
HasNext-less a b h (got r d input events x v e within less) =
    got r d input events x v e within (omega (arith, h, less))
HasNext-less a b h (over n d input events ends within) = over n d input events ends within

-- The round after this one, on fuel that is enough.
Continues : (limits : Limits) → ℕ → (Decoder → Bytes → List Event → Run NextState) → Type 0
Continues limits fuel again =
    (d : Decoder) (input : Bytes) (events : List Event)
    → pending events < fuel
    → IsDecoding d input
    → d.limits ≡ limits
    → length input ≤ limits.max_frame_bytes
    → Returns (HasNext limits (length input + pending events)) (again d input events)

module _ (limits : Limits) (fuel : ℕ) (again : Decoder → Bytes → List Event → Run NextState)
    (more : Continues limits fuel again) where
  read_more-HasNext :
      (remaining : ℕ) (d : Decoder) (input : Bytes) (events : List Event)
      → 0 < remaining
      → length input + remaining ≤ limits.max_frame_bytes
      → pending events < suc fuel
      → IsDecoding d input
      → d.limits ≡ limits
      → Returns
          (HasNext limits (length input + pending events))
          (read_more again remaining d input events)
  unfolding read_more pending Continues
  read_more-HasNext remaining d input [] h k f v e =
      returned (over blocked d input [] is_blocked (omega arith))
  read_more-HasNext remaining d input (stopping ∷ rest) h k f v e =
      returned (over finished d input rest is_finished (omega arith))
  read_more-HasNext remaining d input (deadline ∷ rest) h k f v e =
      returned (over (io_failure true) d input rest (is_io_failure true) (omega arith))
  read_more-HasNext remaining d input (broken ∷ rest) h k f v e =
      returned (over (io_failure false) d input rest (is_io_failure false) (omega arith))
  read_more-HasNext remaining d input (received bytes ∷ rest) h k f v e =
      Returns-branch (length bytes == 0) (λ b. returned (end_of_stream (length input == 0)))
        λ b.
          let some_bytes : 0 < length bytes = ground (arith, b) in
          let (less, moved) = unread-less remaining bytes rest h some_bytes in
          let taken_some = length-take_le remaining bytes in
          let whole = length-append input (take remaining bytes) in
          Returns-weaken
            (more d (input ++ take remaining bytes) (unread remaining bytes rest)
              (omega (arith, f, less)) (append-IsDecoding d input (take remaining bytes) v) e
              (omega (arith, k, whole, taken_some)))
            λ r next. HasNext-less _ _ (omega (arith, whole, moved)) next
    where
      end_of_stream :
          (b : Bool)
          → HasNext limits
              (length input + pending (received bytes ∷ rest))
              (if b then finished else protocol_failure (codes "truncated request"), d, input, rest)
      end_of_stream true = over finished d input rest is_finished (omega arith)
      end_of_stream false = over _ d input rest (is_protocol_failure _) (omega arith)

  after_decode-HasNext :
      (d : Decoder) (input : Bytes) (events : List Event) (q : Run Decoded)
      → pending events < suc fuel
      → length input ≤ limits.max_frame_bytes
      → Answers (HasDecoded limits input) q
      → Returns
          (HasNext limits (length input + pending events))
          (after_decode limits.max_frame_bytes again d input events q)
  unfolding after_decode
  after_decode-HasNext d input events _ f k (refused message) =
      returned (over _ d input events (is_protocol_failure message) k)
  after_decode-HasNext d input events _ f k (value (wanting d' v e room)) =
      Returns-branch (minimum (limits.max_frame_bytes - length input) 8192 == 0)
        (λ b. returned (over _ d' input events (is_protocol_failure _) k))
        λ b.
          read_more-HasNext (minimum (limits.max_frame_bytes - length input) 8192) d' input events
            (ground (arith, b)) (ground (arith, k)) f v e
  after_decode-HasNext d input events _ f k (value (taken r x some_bytes inside)) = returned (
      got r (fresh limits) (drop r.wire_bytes input) events x
        (fresh-IsDecoding limits (drop r.wire_bytes input)) refl
        (omega (arith, k, length-drop r.wire_bytes input))
        (omega (arith, some_bytes, inside, length-drop r.wire_bytes input)))

next_loop-HasNext :
    (limits : Limits) (fuel : ℕ) → Continues limits fuel (next_loop fuel limits.max_frame_bytes)
unfolding next_loop Continues
next_loop-HasNext limits zero d input events f v e k = absurd (omega arith)
next_loop-HasNext limits (suc fuel) d input events f v e k =
    after_decode-HasNext limits fuel (next_loop fuel limits.max_frame_bytes)
      (next_loop-HasNext limits fuel) d input events (decode d input) f k
      (subst (λ l. Answers (HasDecoded l input) (decode d input)) e (decode-Answers d input v))

-- From a decoder that can go on, with an input within the limit of a frame, `next_request` ends
-- without a panic on any events: with a request that keeps all limits, after which the decoder can go
-- on, the input is still within the limit of a frame, and fewer bytes and events are left; or with the
-- end of the connection, the input within the limit too.
pub next_request-HasNext :
    (limits : Limits) (d : Decoder) (input : Bytes) (events : List Event)
    → IsDecoding d input
    → d.limits ≡ limits
    → length input ≤ limits.max_frame_bytes
    → Returns
        (HasNext limits (length input + pending events))
        (next_request limits.max_frame_bytes d input events)
unfolding next_request Continues
next_request-HasNext limits d input events v e k =
    next_loop-HasNext limits (pending events + 1) d input events (omega arith) v e k
