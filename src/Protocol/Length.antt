-- ===== src/Protocol/Length.antt =====
-- `encoded_len` against `encode`.
use recall.Prelude.{
  ℕ, suc, ◌+◌, ◌^◌, ◌<◌, ◌≡◌, refl, Option, none, some, [], ◌∷◌, ◌++◌, Bytes, arith, ltb,
  if◌then◌else◌, length, length-append, codes,
}
use recall.Prelude.Int.{ℤ, pos, negsuc, pos_part, neg_part}
use recall.Decimal.{to_string, int_to_string, decimal_digits, unsigned_abs}
use recall.Decimal.Digits.{length-to_string}
use recall.Protocol.{
  Reply, simple, error, integer, bulk, array, Replies, nil, cons, count, checked_add,
  one_if_negative, encoded_len, fold_len, encode, encode_all, crlf,
}

-- The number of bytes that a reply takes on the wire.
mutual
  pub size : Reply → ℕ
  size (simple value) = length value + 3
  size (error value) = length value + 3
  size (integer value) = length (int_to_string value) + 3
  size (bulk none) = 5
  size (bulk (some value)) = length (to_string (length value)) + length value + 5
  size (array values) = length (to_string (count values)) + 3 + size_all values

  pub size_all : Replies → ℕ
  size_all nil = 0
  size_all (cons value rest) = size value + size_all rest

length-frame :
    (output : Bytes) (c : ℕ) (body : Bytes)
    → length (((output ++ c ∷ []) ++ body) ++ crlf) ≡ length output + length body + 3
length-frame output c body = omega (
  arith,
  length-append ((output ++ c ∷ []) ++ body) crlf,
  length-append (output ++ c ∷ []) body,
  length-append output (c ∷ []),
)

mutual
  unfolding encode encode_all size size_all

  length-encode : (r : Reply) (output : Bytes) → length (encode r output) ≡ length output + size r
  length-encode (simple value) output = omega (arith, length-frame output b'+' value)
  length-encode (error value) output = omega (arith, length-frame output b'-' value)
  length-encode (integer value) output =
      omega (arith, length-frame output b':' (int_to_string value))
  length-encode (bulk none) output =
      omega (arith, length-append (output ++ codes "$-1") crlf, length-append output (codes "$-1"))
  length-encode (bulk (some value)) output =
      let header = ((output ++ b'$' ∷ []) ++ to_string (length value)) ++ crlf in
      omega (
        arith,
        length-frame output b'$' (to_string (length value)),
        length-append header value,
        length-append (header ++ value) crlf,
      )
  length-encode (array values) output = omega (
    arith,
    length-frame output b'*' (to_string (count values)),
    length-encode_all values (((output ++ b'*' ∷ []) ++ to_string (count values)) ++ crlf),
  )

  length-encode_all :
      (rs : Replies) (output : Bytes) → length (encode_all rs output) ≡ length output + size_all rs
  length-encode_all nil output = omega arith
  length-encode_all (cons value rest) output =
      omega (arith, length-encode value output, length-encode_all rest (encode value output))

abbrev pub within : ℕ → Option ℕ
within n = if ltb n (2 ^ 64) then some n else none

length-int_to_string :
    (z : ℤ) → length (int_to_string z) ≡ decimal_digits (unsigned_abs z) + one_if_negative z
unfolding int_to_string pos_part neg_part
length-int_to_string (pos n) = ground (arith, length-to_string n)
length-int_to_string (negsuc n) = ground (arith, length-to_string (suc n))

mutual
  unfolding encoded_len fold_len size size_all checked_add

  encoded_len-size : (r : Reply) → encoded_len r ≡ within (size r)
  encoded_len-size (simple value) = refl
  encoded_len-size (error value) = refl
  encoded_len-size (integer value) = ground (arith, length-int_to_string value)
  encoded_len-size (bulk none) = ground arith
  encoded_len-size (bulk (some value)) = ground (arith, length-to_string (length value))
  encoded_len-size (array values) = ground (
    arith,
    length-to_string (count values),
    fold_len-size values (length (to_string (count values)) + 3),
  )

  fold_len-size :
      (rs : Replies) (total : ℕ) → total < 2 ^ 64 → fold_len rs total ≡ within (total + size_all rs)
  fold_len-size nil total h = ground arith
  fold_len-size (cons value rest) total h =
      ground (arith, encoded_len-size value, fold_len-size rest (total + size value))

-- `encoded_len` is the number of bytes that `encode` appends, and `none` exactly where that number
-- does not fit a `usize`.
pub encoded_len-encode :
    (r : Reply) (output : Bytes)
    → (encoded_len r ≡ within (size r)) × (length (encode r output) ≡ length output + size r)
encoded_len-encode r output = (encoded_len-size r, length-encode r output)
