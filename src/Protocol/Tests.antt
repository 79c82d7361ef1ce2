-- ===== src/Protocol/Tests.antt =====
-- Encodings of replies, and the theorem on their length at a concrete reply.
use recall.Prelude.{◌+◌, ◌≡◌, refl, none, some, [], ◌∷◌, ◌++◌, codes, length}
use recall.Prelude.Int.{negsuc, pos_part, neg_part}
use recall.Decimal.{int_to_string, to_string, decimal_digits}
use recall.Protocol.{
  Reply, integer, bulk, array, replies, crlf, checked_add, encoded_len, fold_len, encode,
  encode_all,
}
use recall.Protocol.Length.{size, within, encoded_len-encode}

-- An array of -1 and nothing.
abbrev two : Reply
two = array (replies (integer (negsuc 0) ∷ bulk none ∷ []))

two_encoded : encode two [] ≡ (((codes "*2" ++ crlf) ++ codes ":-1") ++ crlf) ++ codes "$-1" ++ crlf
unfolding encode encode_all int_to_string to_string
two_encoded = refl

two_length : encoded_len two ≡ some 14
unfolding encoded_len fold_len checked_add decimal_digits pos_part neg_part
two_length = refl

encoded_len-encode_example :
    (encoded_len two ≡ within (size two)) × (length (encode two crlf) ≡ length crlf + size two)
encoded_len-encode_example = encoded_len-encode two crlf
