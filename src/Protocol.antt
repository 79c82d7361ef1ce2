-- ===== src/Protocol.antt =====
-- Replies of crates/recall-protocol/src/lib.rs: the values, their encoding, and the length that is
-- computed before anything is written. `encode` takes the output buffer and returns it, longer.
pub mod Length
pub mod Limits
pub mod Decoder
mod Tests
use recall.Prelude.{
  ℕ, suc, ◌+◌, ◌^◌, Option, none, some, List, [], ◌∷◌, ◌++◌, Bytes, String, codes, ltb,
  if◌then◌else◌, length,
}
use recall.Prelude.Int.{ℤ, pos, ltb_ℤ}
use recall.Decimal.{to_string, int_to_string, decimal_digits, unsigned_abs}

-- `Vec<Reply>` is declared beside `Reply`, since one holds the other.
mutual
  pub data Reply : Type 0 where
    simple : Bytes → Reply
    error : Bytes → Reply
    integer : ℤ → Reply
    bulk : Option Bytes → Reply
    array : Replies → Reply

  pub data Replies : Type 0 where
    nil : Replies
    cons : Reply → Replies → Replies

-- `Reply::ok`
abbrev pub ok_reply : Reply
ok_reply = simple (codes "OK")

abbrev pub replies : List Reply → Replies
replies [] = nil
replies (r ∷ rs) = cons r (replies rs)

abbrev pub count : Replies → ℕ
count nil = 0
count (cons r rs) = suc (count rs)

-- `checked_add` on `usize`
unfoldable pub checked_add : ℕ → ℕ → Option ℕ
checked_add a b = if ltb (a + b) (2 ^ 64) then some (a + b) else none

abbrev pub and_then : Option ℕ → (ℕ → Option ℕ) → Option ℕ
and_then none f = none
and_then (some n) f = f n

abbrev pub one_if_negative : ℤ → ℕ
one_if_negative z = if ltb_ℤ z (pos 0) then 1 else 0

unfoldable mutual
  pub encoded_len : Reply → Option ℕ
  encoded_len (simple value) = checked_add (length value) 3
  encoded_len (error value) = checked_add (length value) 3
  encoded_len (integer value) =
      checked_add (decimal_digits (unsigned_abs value)) (3 + one_if_negative value)
  encoded_len (bulk none) = some 5
  encoded_len (bulk (some value)) =
      and_then (checked_add (decimal_digits (length value)) 5)
        λ header. checked_add header (length value)
  encoded_len (array values) =
      and_then (checked_add (decimal_digits (count values)) 3) λ total. fold_len values total

  -- the `try_fold` over the values
  pub fold_len : Replies → ℕ → Option ℕ
  fold_len nil total = some total
  fold_len (cons value rest) total =
      and_then (encoded_len value)
        λ n. and_then (checked_add total n) λ total'. fold_len rest total'

abbrev pub crlf : Bytes
crlf = 13 ∷ 10 ∷ []

unfoldable mutual
  pub encode : Reply → Bytes → Bytes
  encode (simple value) output = ((output ++ b'+' ∷ []) ++ value) ++ crlf
  encode (error value) output = ((output ++ b'-' ∷ []) ++ value) ++ crlf
  encode (integer value) output = ((output ++ b':' ∷ []) ++ int_to_string value) ++ crlf
  encode (bulk none) output = (output ++ codes "$-1") ++ crlf
  encode (bulk (some value)) output =
      ((((output ++ b'$' ∷ []) ++ to_string (length value)) ++ crlf) ++ value) ++ crlf
  encode (array values) output =
      encode_all values (((output ++ b'*' ∷ []) ++ to_string (count values)) ++ crlf)

  -- the loop over the values
  pub encode_all : Replies → Bytes → Bytes
  encode_all nil output = output
  encode_all (cons value rest) output = encode_all rest (encode value output)
