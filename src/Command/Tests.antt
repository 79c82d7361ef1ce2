-- ===== src/Command/Tests.antt =====
-- Canonical integers at the ends of the range, and what is refused.
use recall.Prelude.{◌≡◌, refl, ◌↔◌, true, [], ◌∷◌, map, String, bytes_eq, codes}
use recall.Prelude.Int.{negsuc, i64_min, i64_max, pos_part, neg_part, in_i64, checked}
use recall.Decimal.{int_to_string, to_string, digits_value, parse_i64}
use recall.Run.{ok, err}
use recall.Command.{integer, not_an_integer}
use recall.Command.Integer.{integer_iff}

integer_bounds :
    (integer (codes "-9223372036854775808") ≡ ok i64_min)
    × (integer (codes "9223372036854775807") ≡ ok i64_max)
unfolding integer parse_i64 digits_value checked in_i64 pos_part neg_part int_to_string to_string
    bytes_eq
integer_bounds = (refl, refl)

integer_refused :
    map (λ s. integer (codes s)) ("" ∷ "-0" ∷ "+1" ∷ "01" ∷ " 1" ∷ "9223372036854775808" ∷ [])
    ≡ map (λ (s : String). err not_an_integer) ("" ∷ "" ∷ "" ∷ "" ∷ "" ∷ "" ∷ [])
unfolding integer parse_i64 digits_value checked in_i64 pos_part neg_part int_to_string to_string
    bytes_eq
integer_refused = refl

integer_iff_example :
    (integer (codes "-5") ≡ ok (negsuc 4))
    ↔ ((in_i64 (negsuc 4) ≡ true) × (int_to_string (negsuc 4) ≡ codes "-5"))
integer_iff_example = integer_iff (codes "-5") (negsuc 4)
