-- ===== src/Command.antt =====
-- The command surface of crates/recall-core/src/command.rs: the operations on data, the keys and
-- the payload of each, and the canonical integers.
pub mod Integer
pub mod Specs
pub mod Options
pub mod Parse
mod Tests
use recall.Prelude.{
  ℕ, ◌+◌, Bool, true, false, ◌||◌, Option, none, some, List, [], ◌∷◌, map, Bytes, bytes_eq, String,
  codes, ltb, if◌then◌else◌, ◌==◌, length,
}
use recall.Prelude.Int.{ℤ}
use recall.Decimal.{int_to_string, parse_i64}
use recall.Run.{Run, ok, err}

pub data Condition : Type 0 where
  always if_absent if_present : Condition

pub data Expiry : Type 0 where
  clear keep : Expiry
  after_milliseconds : ℤ → Expiry

pub data Operation : Type 0 where
  get : Bytes → Operation
  set : (key value : Bytes) → Condition → Expiry → Operation
  increment : (key : Bytes) → (amount : ℤ) → (subtract : Bool) → Operation
  delete : List Bytes → Operation
  exists : List Bytes → Operation
  multi_get : List Bytes → Operation
  multi_set : List (Bytes × Bytes) → Operation
  expire : (key : Bytes) → (milliseconds : ℤ) → Operation
  ttl : (key : Bytes) → (milliseconds : Bool) → Operation
  persist : Bytes → Operation

-- `Operation::keys`
unfoldable pub keys : Operation → List Bytes
keys (get key) = key ∷ []
keys (set key value condition expiry) = key ∷ []
keys (increment key amount subtract) = key ∷ []
keys (delete ks) = ks
keys (exists ks) = ks
keys (multi_get ks) = ks
keys (multi_set pairs) = map (λ p. p.0) pairs
keys (expire key milliseconds) = key ∷ []
keys (ttl key milliseconds) = key ∷ []
keys (persist key) = key ∷ []

abbrev pub sum : List ℕ → ℕ
sum [] = 0
sum (n ∷ ns) = n + sum ns

-- `Operation::payload_bytes`
unfoldable pub payload_bytes : Operation → ℕ
unfolding keys
payload_bytes (set key value condition expiry) = length key + length value
payload_bytes (multi_set pairs) = sum (map (λ p. length p.0 + length p.1) pairs)
payload_bytes operation = sum (map length (keys operation))

abbrev pub not_an_integer : Bytes
not_an_integer = codes "ERR value is not an integer or out of range"

-- `.filter(|parsed| parsed.to_string().as_bytes() == value)`
abbrev pub canonical : Bytes → Option ℤ → Run ℤ
canonical value none = err not_an_integer
canonical value (some parsed) =
    if bytes_eq (int_to_string parsed) value then ok parsed else err not_an_integer

-- `integer`. A byte above 127 is no digit, so what is not UTF-8 fails in the parse.
unfoldable pub integer : Bytes → Run ℤ
integer value =
    if length value == 0 || ltb 20 (length value)
    then err not_an_integer
    else canonical value (parse_i64 value)
