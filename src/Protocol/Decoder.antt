-- ===== src/Protocol/Decoder.antt =====
-- The request decoder of crates/recall-protocol/src/lib.rs. `decode` takes the decoder and the input
-- and returns both, changed; after an error the connection closes, so that nothing of them is kept.
pub mod Header
pub mod Parts
pub mod Safe
pub mod Total
mod Tests
use recall.Prelude.{
  ℕ, zero, suc, ◌+◌, ◌-◌, ◌*◌, ◌^◌, Bool, true, false, not, ◌&&◌, ◌||◌, Option, none, some, List,
  [], ◌∷◌, ◌++◌, map, Bytes, bytes_eq, codes, ltb, leb, ◌==◌, if◌then◌else◌, length, take, drop,
}
use recall.Run.{Run, ok, err, panic, out_of_fuel, ◌>>=◌, or_else, checked_minus, at}
use recall.Protocol.{checked_add, and_then, crlf}
use recall.Protocol.Limits.{Limits, validate_limits}

pub record Decoder : Type 0 where
  pub limits : Limits
  pub cursor : ℕ
  pub scan : ℕ
  pub argument_count : Option ℕ
  pub bulk_length : Option ℕ
  pub spans : List (ℕ × ℕ)

pub record Request : Type 0 where
  pub arguments : List Bytes
  pub wire_bytes : ℕ

abbrev pub fresh : Limits → Decoder
fresh limits = record {
  limits = limits;
  cursor = 0;
  scan = 0;
  argument_count = none;
  bulk_length = none;
  spans = [];
}

-- `Decoder::new`
unfoldable pub new : Limits → Run Decoder
new limits = validate_limits limits >>= λ valid. ok (fresh limits)

-- The slice `input[from..to]`, which panics out of bounds.
unfoldable pub slice : Bytes → ℕ → ℕ → Run Bytes
slice input from to =
    if leb from to && leb to (length input) then ok (take (to - from) (drop from input)) else panic

-- What one round of the loop of `header_end` does: it ends with an answer, or moves on.
unfoldable pub header_step : Decoder → Bytes → Run (Option (Option ℕ))
header_step d input =
    if ltb (d.scan + 1) (length input)
    then (do
      width ← checked_minus d.scan d.cursor
      if ltb d.limits.max_header_bytes (width + 2) || ltb d.limits.max_frame_bytes (d.scan + 2)
          then err (codes "protocol header exceeds configured limit")
          else do
            here ← at input d.scan
            after ← at input (d.scan + 1)
            if here == 13 && after == 10
                then ok (some (some d.scan))
                else if here == 10
                then err (codes "invalid protocol line ending")
                else ok none)
    else if leb d.limits.max_header_bytes (length input - d.cursor)
        || leb d.limits.max_frame_bytes (length input)
    then err (codes "unterminated or excessive protocol header")
    else ok (some none)

-- `header_end`, on fuel.
unfoldable pub header_loop : ℕ → Decoder → Bytes → Run (Option ℕ × Decoder)
header_loop zero d input = out_of_fuel
header_loop (suc fuel) d input = do
  answer ← header_step d input
  elim answer [
    | some end ↦ ok (end, d)
    | none ↦ header_loop fuel (record d { scan = d.scan + 1 }) input
  ]

unfoldable pub header_end : Decoder → Bytes → Run (Option ℕ × Decoder)
header_end d input = header_loop (length input + 1) d input

-- `length.checked_mul(10).and_then(|value| value.checked_add(digit))`
unfoldable pub push_digit : ℕ → ℕ → Option ℕ
push_digit total digit =
    if ltb (total * 10) (2 ^ 64) then checked_add (total * 10) (digit - 48) else none

-- The loop of `length_header`.
unfoldable pub read_length : Bytes → ℕ → Run ℕ
read_length [] total = ok total
read_length (digit ∷ rest) total =
    if leb 48 digit && leb digit 57
    then (do
      total' ← or_else (push_digit total digit) (err (codes "RESP2 length overflow"))
      read_length rest total')
    else err (codes "invalid RESP2 length")

unfoldable pub length_header : Decoder → Bytes → (end prefix : ℕ) → Run ℕ
length_header d input end prefix =
    if leb end (d.cursor + 1) then err (codes "expected a nonnegative RESP2 length") else do
      first ← at input d.cursor
      if not (first == prefix)
          then err (codes "expected a nonnegative RESP2 length")
          else slice input (d.cursor + 1) end >>= λ digits. read_length digits 0

abbrev pub advance_header : Decoder → ℕ → Decoder
advance_header d end = record d { cursor = end + 2; scan = end + 2 }

-- The first part of a round of `decode`: whether the number of arguments is known.
unfoldable pub decode_count : Decoder → Bytes → Run (Bool × Decoder)
decode_count d input = elim d.argument_count [
  | some count ↦ ok (true, d)
  | none ↦ do
    (answer, d') ← header_end d input
    elim answer [
      | none ↦ ok (false, d')
      | some end ↦ do
        count ← length_header d' input end b'*'
        if count == 0 || ltb d'.limits.max_arguments count
            then err (codes "invalid or excessive argument count")
            else ok (true, advance_header (record d' { argument_count = some count }) end)
    ]
]

-- The second part: whether the length of the argument is known.
unfoldable pub decode_length : Decoder → Bytes → Run (Bool × Decoder)
decode_length d input = elim d.bulk_length [
  | some length ↦ ok (true, d)
  | none ↦ do
    (answer, d') ← header_end d input
    elim answer [
      | none ↦ ok (false, d')
      | some end ↦ do
        length ← length_header d' input end b'$'
        if ltb d'.limits.max_bulk_bytes length
            then err (codes "bulk argument exceeds configured limit")
            else ok (true, record (advance_header d' end) { bulk_length = some length })
    ]
]

unfoldable pub collect : Bytes → List (ℕ × ℕ) → Run (List Bytes)
collect input [] = ok []
collect input ((from, to) ∷ rest) = do
  argument ← slice input from to
  arguments ← collect input rest
  ok (argument ∷ arguments)

-- What a round of `decode` ends with.
pub data Progress : Type 0 where
  waiting : Progress
  another : Progress
  complete : Request → Progress

abbrev pub all_spans : Decoder → Bool
all_spans d = elim d.argument_count [ none ↦ false | some count ↦ length d.spans == count ]

-- The end of the round that has its argument.
unfoldable pub decode_end : Decoder → Bytes → Run (Progress × Decoder × Bytes)
decode_end d input =
    if all_spans d
    then (do
      arguments ← collect input d.spans
      let request : Request = record { arguments = arguments; wire_bytes = d.cursor }
      let reset = record d { cursor = 0; scan = 0; argument_count = none; spans = [] }
      if leb d.cursor (length input)
          then ok (complete request, reset, drop d.cursor input)
          else panic)
    else ok (another, d, input)

-- The third part: the argument itself.
unfoldable pub decode_body : Decoder → Bytes → Run (Progress × Decoder × Bytes)
decode_body d input = do
  length' ← or_else d.bulk_length panic
  end ←
      or_else (and_then (checked_add d.cursor length') λ end. checked_add end 2)
        (err (codes "frame length overflow"))
  if ltb d.limits.max_frame_bytes end
      then err (codes "request exceeds configured limit")
      else if ltb (length input) end
      then ok (waiting, d, input)
      else do
        last ← checked_minus end 2
        mark ← slice input last end
        if not (bytes_eq mark crlf)
            then err (codes "bulk argument is not CRLF terminated")
            else decode_end
                (record d {
                  spans = d.spans ++ (d.cursor, last) ∷ [];
                  cursor = end;
                  scan = end;
                  bulk_length = none;
                })
                input

-- A round of the loop of `decode`.
unfoldable pub decode_round : Decoder → Bytes → Run (Progress × Decoder × Bytes)
decode_round d input = do
  (counted, d') ← decode_count d input
  if not counted then ok (waiting, d', input) else do
    (measured, d'') ← decode_length d' input
    if not measured then ok (waiting, d'', input) else decode_body d'' input

abbrev pub Decoded : Type 0
Decoded = Option Request × Decoder × Bytes

unfoldable pub decode_loop : ℕ → Decoder → Bytes → Run Decoded
decode_loop zero d input = out_of_fuel
decode_loop (suc fuel) d input = do
  (progress, d', input') ← decode_round d input
  elim progress [
    | waiting ↦ ok (none, d', input')
    | complete request ↦ ok (some request, d', input')
    | another ↦ decode_loop fuel d' input'
  ]

-- `decode`; each round that goes on has read an argument, so the input bounds the rounds.
unfoldable pub decode : Decoder → Bytes → Run Decoded
decode d input = decode_loop (length input + 1) d input
