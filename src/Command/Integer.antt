-- ===== src/Command/Integer.antt =====
-- `integer` accepts the canonical decimal of each `i64`, and nothing else.
use recall.Prelude.{
  ◌≡◌, ◌↔◌, true, Option, none, some, Bytes, bytes_eq, bytes_eq_iff, arith, length, Bool-cases, inl,
  inr, ltb, ◌==◌, ◌||◌,
}
use recall.Prelude.Int.{ℤ, in_i64}
use recall.Decimal.{int_to_string, parse_i64}
use recall.Decimal.Parse.{
  parse_i64-int_to_string, parse_i64-in_i64, length-int_to_string-le, length-int_to_string-pos,
}
use recall.Run.{ok, Answers, value, refused, Answers-known, Answers-weaken}
use recall.Command.{integer, canonical}

-- The decimal of an `i64` is accepted, with its value.
pub integer-int_to_string : (z : ℤ) → in_i64 z ≡ true → integer (int_to_string z) ≡ ok z
unfolding integer
integer-int_to_string z h = ground (
  arith,
  parse_i64-int_to_string z h,
  length-int_to_string-le z h,
  length-int_to_string-pos z,
  bytes_eq_iff (int_to_string z) (int_to_string z),
)

-- What is accepted is the decimal of its value, which is an `i64`.
pub integer-canonical :
    (v : Bytes) (z : ℤ) → integer v ≡ ok z → (in_i64 z ≡ true) × (int_to_string z ≡ v)
unfolding integer
integer-canonical v z h = (
  ground (arith, bytes_eq_iff (int_to_string z) v, parse_i64-in_i64 v z),
  ground (arith, bytes_eq_iff (int_to_string z) v),
)

-- `integer` accepts a text with the value `z` exactly if `z` is an `i64` and the text is the decimal
-- that `to_string` writes of it.
pub integer_iff :
    (v : Bytes) (z : ℤ) → (integer v ≡ ok z) ↔ ((in_i64 z ≡ true) × (int_to_string z ≡ v))
integer_iff v z =
    (integer-canonical v z, λ (fits, same). rw (← same) (integer-int_to_string z fits))

canonical-Answers : (v : Bytes) (o : Option ℤ) → Answers (λ n. Unit {0}) (canonical v o)
canonical-Answers v none = refused _
canonical-Answers v (some n) = elim (Bool-cases (bytes_eq (int_to_string n) v)) [
  | inl same ↦ rw same (value tt)
  | inr other ↦ rw other (refused _)
]

-- `integer` answers with a number or an error on every input.
pub integer-Answers : (v : Bytes) → Answers (λ n. Unit {0}) (integer v)
unfolding integer
integer-Answers v = elim (Bool-cases (length v == 0 || ltb 20 (length v))) [
  | inl long ↦ rw long (refused _)
  | inr short ↦ rw short (canonical-Answers v (parse_i64 v))
]

-- What `integer` accepts is an `i64`.
pub integer-in_i64 : (v : Bytes) → Answers (λ n. in_i64 n ≡ true) (integer v)
integer-in_i64 v =
    Answers-weaken (Answers-known (integer-Answers v)) λ n e. (integer-canonical v n e).0
