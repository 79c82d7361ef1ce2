-- ===== src/Decimal/Parse.antt =====
-- Parsing what `to_string` wrote of an `i64`.
use recall.Prelude.{
  ℕ, ◌∙◌, suc, ◌≤◌, ◌<◌, ◌≡◌, Bool, true, false, if◌then◌else◌, Option, none, some, [], ◌∷◌, Bytes,
  arith, length, ◌==◌,
}
use recall.Prelude.Int.{ℤ, pos, negsuc, sub_ℕ, pos_part, neg_part, checked, in_i64, checked-some}
use recall.Decimal.{to_string, int_to_string, digits_value, parse_i64}
use recall.Decimal.Digits.{digits_value-to_string, length-to_string-pos, length-to_string-le}

parse_i64-digits :
    (xs : Bytes) (n : ℕ)
    → 0 < length xs
    → digits_value 0 xs ≡ some n
    → parse_i64 xs ≡ checked (pos n)
unfolding parse_i64
parse_i64-digits [] n p h = absurd (omega arith)
parse_i64-digits (c ∷ []) n p h = rw (h, parse_i64)
parse_i64-digits (c ∷ d ∷ rest) n p h = rw (h, parse_i64) (ground (arith, head_is_digit))
  where
    head_is_digit : (48 ≤ c) × (c ≤ 57)
    head_is_digit = unfold digits_value in ground (arith, h)

parse_i64-minus :
    (xs : Bytes) (n : ℕ)
    → 0 < length xs
    → digits_value 0 xs ≡ some n
    → parse_i64 (45 ∷ xs) ≡ checked (sub_ℕ 0 n)
unfolding parse_i64
parse_i64-minus [] n p h = absurd (omega arith)
parse_i64-minus (d ∷ rest) n p h = rw (h, parse_i64)

-- Every `i64` is read back from its decimal.
pub parse_i64-int_to_string : (z : ℤ) → in_i64 z ≡ true → parse_i64 (int_to_string z) ≡ some z
unfolding int_to_string checked
parse_i64-int_to_string (pos n) h =
    rw (parse_i64-digits (to_string n) n (length-to_string-pos n) (digits_value-to_string n)) (rw h)
parse_i64-int_to_string (negsuc n) h =
    parse_i64-minus (to_string (suc n)) (suc n) (length-to_string-pos (suc n))
      (digits_value-to_string (suc n))
    ∙ ground (arith, h)

pub length-int_to_string-le : (z : ℤ) → in_i64 z ≡ true → length (int_to_string z) ≤ 20
unfolding int_to_string in_i64 pos_part neg_part
length-int_to_string-le (pos n) h = ground (arith, length-to_string-le n 18)
length-int_to_string-le (negsuc n) h = ground (arith, length-to_string-le (suc n) 18)

pub length-int_to_string-pos : (z : ℤ) → 0 < length (int_to_string z)
unfolding int_to_string
length-int_to_string-pos (pos n) = length-to_string-pos n
length-int_to_string-pos (negsuc n) = omega arith

abbrev signed : Option ℕ → (ℕ → ℤ) → Option ℤ
signed o f = elim o [ none ↦ none | some n ↦ checked (f n) ]

signed_range : (o : Option ℕ) (f : ℕ → ℤ) (z : ℤ) → signed o f ≡ some z → in_i64 z ≡ true
signed_range none f z h = cc h
signed_range (some n) f z h = (checked-some (f n) z h).1

by_sign :
    (minus plus : Bool) (o o' : Option ℕ) (z : ℤ)
    → (if minus then signed o (sub_ℕ 0) else if plus then signed o pos else signed o' pos) ≡ some z
    → in_i64 z ≡ true
by_sign true plus o o' z h = signed_range o (sub_ℕ 0) z h
by_sign false true o o' z h = signed_range o pos z h
by_sign false false o o' z h = signed_range o' pos z h

-- What is parsed is in range.
pub parse_i64-in_i64 : (v : Bytes) (z : ℤ) → parse_i64 v ≡ some z → in_i64 z ≡ true
unfolding parse_i64
parse_i64-in_i64 [] z h = cc h
parse_i64-in_i64 (c ∷ []) z h = signed_range (digits_value 0 (c ∷ [])) pos z h
parse_i64-in_i64 (c ∷ d ∷ rest) z h =
    by_sign (c == 45) (c == 43) (digits_value 0 (d ∷ rest)) (digits_value 0 (c ∷ d ∷ rest)) z h
