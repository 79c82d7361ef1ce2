-- ===== src/Decimal/Digits.antt =====
-- What `to_string` writes: its length, and that reading the digits gives the number back.
use recall.Prelude.{
  ℕ, zero, suc, ◌+◌, ◌-◌, ◌*◌, ◌/◌, ◌%◌, ◌^◌, ◌≤◌, ◌<◌, ◌≡◌, ◌∙◌, ap, Bool-cases, inl, inr, some,
  [], ◌∷◌, ◌++◌, Bytes, arith, ltb, length, length-append,
}
use native.Mathlib.Nat.{pow-suc}
use recall.Decimal.{show_loop, to_string, digits_loop, decimal_digits, digits_value}

length-show_loop :
    (fuel n digits : ℕ)
    → n < fuel
    → digits_loop fuel n digits + 1 ≡ length (show_loop fuel n) + digits
unfolding show_loop digits_loop
length-show_loop zero n digits h = absurd (omega arith)
length-show_loop (suc fuel) n digits h = elim (Bool-cases (ltb n 10)) [
  | inl small ↦ ground arith
  | inr large ↦ ground (
    arith,
    large,
    length-append (show_loop fuel (n / 10)) ((48 + n % 10) ∷ []),
    length-show_loop fuel (n / 10) (digits + 1),
  )
]

-- `decimal_digits` counts the digits that `to_string` writes.
pub length-to_string : (n : ℕ) → length (to_string n) ≡ decimal_digits n
unfolding to_string decimal_digits
length-to_string n = omega (arith, length-show_loop (suc n) n 1 (omega arith))

length-show_loop-le : (fuel n k : ℕ) → n < fuel → n < 10 ^ suc k → length (show_loop fuel n) ≤ suc k
unfolding show_loop
length-show_loop-le zero n k h b = absurd (omega arith)
length-show_loop-le (suc fuel) n zero h b = ground arith
length-show_loop-le (suc fuel) n (suc k) h b = elim (Bool-cases (ltb n 10)) [
  | inl small ↦ ground arith
  | inr large ↦ ground (
    arith,
    large,
    pow-suc 10 (suc k),
    length-append (show_loop fuel (n / 10)) ((48 + n % 10) ∷ []),
    length-show_loop-le fuel (n / 10) k,
  )
]

digits_value-append :
    (acc : ℕ) (xs : Bytes) (c m : ℕ)
    → digits_value acc xs ≡ some m
    → c < 10
    → digits_value acc (xs ++ (48 + c) ∷ []) ≡ some (m * 10 + c)
unfolding digits_value
digits_value-append acc [] c m h p = ground arith
digits_value-append acc (x ∷ xs) c m h p =
    ground (arith, digits_value-append (acc * 10 + (x - 48)) xs c m)

digits_value-show_loop : (fuel n : ℕ) → n < fuel → digits_value 0 (show_loop fuel n) ≡ some n
unfolding show_loop digits_value
digits_value-show_loop zero n h = absurd (omega arith)
digits_value-show_loop (suc fuel) n h = elim (Bool-cases (ltb n 10)) [
  | inl small ↦ ground arith
  | inr large ↦ rw large (
      digits_value-append 0 (show_loop fuel (n / 10)) (n % 10) (n / 10)
        (digits_value-show_loop fuel (n / 10) (ground arith)) (omega arith)
      ∙ ap some (omega arith))
]

pub digits_value-to_string : (n : ℕ) → digits_value 0 (to_string n) ≡ some n
unfolding to_string
digits_value-to_string n = digits_value-show_loop (suc n) n (omega arith)

pub length-to_string-pos : (n : ℕ) → 0 < length (to_string n)
unfolding to_string
length-to_string-pos n = ground (arith, length-append (show_loop n (n / 10)) ((48 + n % 10) ∷ []))

pub length-to_string-le : (n k : ℕ) → n < 10 ^ suc k → length (to_string n) ≤ suc k
unfolding to_string
length-to_string-le n k h = length-show_loop-le (suc n) n k (omega arith) h
