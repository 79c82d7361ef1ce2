-- ===== src/Decimal.antt =====
-- Numbers in decimal: the standard library's `to_string` and `parse::<i64>`, and the counting loop
-- `decimal_digits` of crates/recall-protocol/src/lib.rs. The fuel of a loop that divides by ten is
-- the number itself and one more.
pub mod Digits
pub mod Parse
use recall.Prelude.{
  ℕ, zero, suc, ◌+◌, ◌-◌, ◌*◌, ◌/◌, ◌%◌, ◌^◌, Bool, ◌&&◌, Option, none, some, List, [], ◌∷◌, ◌++◌,
  Bytes, ltb, leb, ◌==◌, if◌then◌else◌,
}
use recall.Prelude.Int.{ℤ, pos, negsuc, sub_ℕ, pos_part, neg_part, checked, in_i64}

unfoldable pub show_loop : ℕ → ℕ → Bytes
show_loop zero n = []
show_loop (suc fuel) n =
    let more = show_loop fuel (n / 10) ++ (48 + n % 10) ∷ [] in
    if ltb n 10 then (48 + n) ∷ [] else more

-- `to_string` of an unsigned number.
unfoldable pub to_string : ℕ → Bytes
unfolding show_loop
to_string n = show_loop (suc n) n

-- `to_string` of an `i64`.
unfoldable pub int_to_string : ℤ → Bytes
int_to_string (pos n) = to_string n
int_to_string (negsuc n) = 45 ∷ to_string (suc n)

-- `unsigned_abs`
abbrev pub unsigned_abs : ℤ → ℕ
unsigned_abs z = pos_part z + neg_part z

unfoldable pub digits_loop : ℕ → ℕ → ℕ → ℕ
digits_loop zero value digits = digits
digits_loop (suc fuel) value digits =
    let more = digits_loop fuel (value / 10) (digits + 1) in if leb 10 value then more else digits

-- `decimal_digits`
unfoldable pub decimal_digits : ℕ → ℕ
unfolding digits_loop
decimal_digits value = digits_loop (suc value) value 1

is_ascii_digit : ℕ → Bool
is_ascii_digit c = leb 48 c && leb c 57

-- The value of a row of digits after those that gave `acc`.
unfoldable pub digits_value : ℕ → Bytes → Option ℕ
unfolding is_ascii_digit
digits_value acc [] = some acc
digits_value acc (c ∷ rest) =
    let more = digits_value (acc * 10 + (c - 48)) rest in if is_ascii_digit c then more else none

-- `str::parse::<i64>`: a sign or none, at least one digit, and a value in range.
unfoldable pub parse_i64 : Bytes → Option ℤ
parse_i64 [] = none
parse_i64 (c ∷ []) = elim (digits_value 0 (c ∷ [])) [ none ↦ none | some n ↦ checked (pos n) ]
parse_i64 (c ∷ d ∷ rest) =
    if c == 45
    then elim (digits_value 0 (d ∷ rest)) [ none ↦ none | some n ↦ checked (sub_ℕ 0 n) ]
    else if c == 43
    then elim (digits_value 0 (d ∷ rest)) [ none ↦ none | some n ↦ checked (pos n) ]
    else elim (digits_value 0 (c ∷ d ∷ rest)) [ none ↦ none | some n ↦ checked (pos n) ]
