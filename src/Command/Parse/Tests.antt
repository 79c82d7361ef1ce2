-- ===== src/Command/Parse/Tests.antt =====
-- Commands that the parser accepts and refuses, and the theorem on it at a concrete request.
use recall.Prelude.{◌≡◌, ◌⊎◌, arith, refl, [], ◌∷◌, List, Bytes, bytes_eq, codes, String}
use recall.Prelude.Int.{pos, pos_part, neg_part, in_i64, checked, checked_mul, ◌*ℤ◌}
use recall.Decimal.{int_to_string, to_string, digits_value, parse_i64}
use recall.Run.{ok, err, Answers}
use recall.Command.{Condition, Expiry, Operation, integer, keys}
use recall.Command.Specs.{specs, find_spec, text, eq_ignore_ascii_case, wrong_arity}
use recall.Command.Options.{
  ParseLimits, data_command, parse_set, set_loop, set_step, set_duration, syntax_error,
  invalid_expire,
}
use recall.Command.Options.Safe.{IsSound, IsFormed, HasRange, IsExpiry}
use recall.Command.Parse.{parse, parse_named, within_limits, value_too_large, wrong_number}
use recall.Command.Parse.Accepted.{IsAccepted, parse-Answers, any_longer-none, value_too_large-none}
use recall.Command.Parse.Discovery.{IsUnknown, IsKnown, discovery_agrees}
use recall.Command.Parse.Print.{arguments_of, parse-arguments_of}

abbrev limits : ParseLimits
limits = record { max_key_bytes = 4; max_value_bytes = 8; max_client_metadata_bytes = 16 }

abbrev words : List String → List Bytes
words [] = []
words (w ∷ ws) = codes w ∷ words ws

set_accepted :
    parse (words ("SET" ∷ "k" ∷ "v" ∷ "Nx" ∷ "EX" ∷ "10" ∷ [])) limits
    ≡ ok (
        data_command (
          Operation.set
            (codes "k")
            (codes "v")
            Condition.if_absent
            (Expiry.after_milliseconds (pos 10000))))
unfolding parse parse_named parse_set set_loop set_step set_duration specs find_spec text
    eq_ignore_ascii_case wrong_arity integer parse_i64 digits_value checked checked_mul ◌*ℤ◌ in_i64
    pos_part neg_part int_to_string to_string bytes_eq within_limits value_too_large keys
set_accepted = refl

set_refused :
    (parse (words ("SET" ∷ "k" ∷ "v" ∷ "NX" ∷ "XX" ∷ [])) limits ≡ err syntax_error)
    × (parse (words ("SET" ∷ "k" ∷ "v" ∷ "PX" ∷ "0" ∷ [])) limits
        ≡ err (invalid_expire (codes "set")))
    × (parse (words ("get" ∷ "a" ∷ "b" ∷ [])) limits
        ≡ err (codes "ERR wrong number of arguments for 'get' command"))
    × (parse (words ("GET" ∷ "abcde" ∷ [])) limits ≡ err (codes "ERR key exceeds configured limit"))
unfolding parse parse_named parse_set set_loop set_step set_duration specs find_spec text
    eq_ignore_ascii_case wrong_arity integer parse_i64 digits_value checked checked_mul ◌*ℤ◌ in_i64
    pos_part neg_part int_to_string to_string bytes_eq within_limits value_too_large keys
    wrong_number
set_refused = (refl, refl, refl, refl)

parse-Answers_example :
    Answers
      (IsSound (IsAccepted limits) limits)
      (parse (words ("MSET" ∷ "a" ∷ "1" ∷ "b" ∷ "2" ∷ [])) limits)
parse-Answers_example = parse-Answers (words ("MSET" ∷ "a" ∷ "1" ∷ "b" ∷ "2" ∷ [])) limits

abbrev timed : Operation
timed =
    Operation.set (codes "k") (codes "v") Condition.if_absent (Expiry.after_milliseconds (pos 10))

timed-IsFormed : IsFormed timed
unfolding keys HasRange IsExpiry in_i64 pos_part neg_part
timed-IsFormed = record { keyed = omega arith; ranged = (ground arith, refl) }

timed-IsAccepted : IsAccepted limits timed
unfolding keys value_too_large
timed-IsAccepted = record {
  formed = timed-IsFormed;
  key_sizes = any_longer-none 4 (codes "k" ∷ []) refl;
  value_sizes = value_too_large-none timed 8 refl;
}

parse-arguments_of_example : parse (arguments_of timed) limits ≡ ok (data_command timed)
parse-arguments_of_example = parse-arguments_of timed limits timed-IsAccepted

discovery_agrees_example :
    IsUnknown limits (codes "GET") (codes "k" ∷ []) ⊎ IsKnown limits (codes "GET") (codes "k" ∷ [])
discovery_agrees_example = discovery_agrees limits (codes "GET") (codes "k" ∷ [])
