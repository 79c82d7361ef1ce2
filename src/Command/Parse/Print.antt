-- ===== src/Command/Parse/Print.antt =====
-- Writing an operation as the arguments of a request, and reading it back with `parse`.
use recall.Prelude.{
  ℕ, suc, ◌*◌, ◌%◌, ◌≤◌, ◌≡◌, refl, ap, true, false, some, List, [], ◌∷◌, ◌++◌, Bytes, bytes_eq,
  arith, codes, length, get_elem?, ltb, ◌==◌,
}
use recall.Prelude.Int.{ℤ, pos, leb_ℤ, ◌<ℤ◌}
use recall.Decimal.{int_to_string}
use recall.Run.{ok}
use recall.Command.{Condition, Expiry, Operation, keys}
use recall.Command.Integer.{integer-int_to_string}
use recall.Command.Specs.{specs, find_spec, text, eq_ignore_ascii_case, wrong_arity}
use recall.Command.Options.{ParseLimits, data_command, parse_set, set_loop, set_step, set_duration}
use recall.Command.Options.Safe.{HasRange, IsExpiry}
use recall.Command.Parse.{
  chunks, amount_of, increment_of, expire_of, parse_named, within_limits, value_too_large,
  any_longer, parse,
}
use recall.Command.Parse.Accepted.{IsAccepted, written}

condition_words : Condition → List Bytes
condition_words Condition.always = []
condition_words Condition.if_absent = codes "NX" ∷ []
condition_words Condition.if_present = codes "XX" ∷ []

expiry_words : Expiry → List Bytes
expiry_words Expiry.clear = []
expiry_words Expiry.keep = codes "KEEPTTL" ∷ []
expiry_words (Expiry.after_milliseconds n) = codes "PX" ∷ int_to_string n ∷ []

unfoldable pub pair_words : List (Bytes × Bytes) → List Bytes
pair_words [] = []
pair_words ((key, v) ∷ rest) = key ∷ v ∷ pair_words rest

-- A request for the operation, with amounts and durations in full.
unfoldable pub arguments_of : Operation → List Bytes
unfolding condition_words expiry_words pair_words
arguments_of (Operation.get key) = codes "GET" ∷ key ∷ []
arguments_of (Operation.set key v condition expiry) =
    codes "SET" ∷ key ∷ v ∷ condition_words condition ++ expiry_words expiry
arguments_of (Operation.increment key amount true) =
    codes "DECRBY" ∷ key ∷ int_to_string amount ∷ []
arguments_of (Operation.increment key amount false) =
    codes "INCRBY" ∷ key ∷ int_to_string amount ∷ []
arguments_of (Operation.delete ks) = codes "DEL" ∷ ks
arguments_of (Operation.exists ks) = codes "EXISTS" ∷ ks
arguments_of (Operation.multi_get ks) = codes "MGET" ∷ ks
arguments_of (Operation.multi_set pairs) = codes "MSET" ∷ pair_words pairs
arguments_of (Operation.expire key milliseconds) =
    codes "PEXPIRE" ∷ key ∷ int_to_string milliseconds ∷ []
arguments_of (Operation.ttl key true) = codes "PTTL" ∷ key ∷ []
arguments_of (Operation.ttl key false) = codes "TTL" ∷ key ∷ []
arguments_of (Operation.persist key) = codes "PERSIST" ∷ key ∷ []

any_longer-false :
    (limit : ℕ) (ks : List Bytes)
    → ((i : ℕ) (k : Bytes) → get_elem? ks i ≡ some k → length k ≤ limit)
    → any_longer limit ks ≡ false
any_longer-false limit [] h = refl
any_longer-false limit (k ∷ ks) h =
    ground (arith, h 0 k refl, any_longer-false limit ks (λ i. h (suc i)))

value_too_large-false :
    (operation : Operation) (limit : ℕ)
    → any_longer limit (written operation) ≡ false
    → value_too_large operation limit ≡ false
unfolding value_too_large written
value_too_large-false (Operation.set key v condition expiry) limit h = ground arith
value_too_large-false (Operation.multi_set pairs) limit h = h
value_too_large-false (Operation.get key) limit h = refl
value_too_large-false (Operation.increment key amount b) limit h = refl
value_too_large-false (Operation.delete ks) limit h = refl
value_too_large-false (Operation.exists ks) limit h = refl
value_too_large-false (Operation.multi_get ks) limit h = refl
value_too_large-false (Operation.expire key n) limit h = refl
value_too_large-false (Operation.ttl key b) limit h = refl
value_too_large-false (Operation.persist key) limit h = refl

within_limits-accepted :
    (limits : ParseLimits) (operation : Operation)
    → IsAccepted limits operation
    → within_limits limits (data_command operation) ≡ ok (data_command operation)
unfolding within_limits
within_limits-accepted limits operation x =
    rw
      (
        any_longer-false limits.max_key_bytes (keys operation) x.key_sizes,
        value_too_large-false operation limits.max_value_bytes
            (any_longer-false limits.max_value_bytes (written operation) x.value_sizes),
      )
      refl

chunks-pair_words : (pairs : List (Bytes × Bytes)) → chunks (pair_words pairs) ≡ pairs
unfolding chunks pair_words
chunks-pair_words [] = refl
chunks-pair_words ((key, v) ∷ rest) = ap (λ r. (key, v) ∷ r) (chunks-pair_words rest)

length-pair_words : (pairs : List (Bytes × Bytes)) → length (pair_words pairs) ≡ 2 * length pairs
unfolding pair_words
length-pair_words [] = refl
length-pair_words ((key, v) ∷ rest) = omega (arith, length-pair_words rest)

positive : (n : ℤ) → pos 0 <ℤ n → leb_ℤ n (pos 0) ≡ false
positive n h = ground arith

-- The loop of `SET` on the words of a condition and an expiry.
parse_set-words :
    (key v : Bytes) (condition : Condition) (expiry : Expiry)
    → HasRange (Operation.set key v condition expiry)
    → parse_set (arguments_of (Operation.set key v condition expiry))
      ≡ ok (Operation.set key v condition expiry)
unfolding parse_set set_loop set_step set_duration arguments_of eq_ignore_ascii_case bytes_eq
    HasRange IsExpiry
parse_set-words key v Condition.always Expiry.clear x = refl
parse_set-words key v Condition.if_absent Expiry.clear x = refl
parse_set-words key v Condition.if_present Expiry.clear x = refl
parse_set-words key v Condition.always Expiry.keep x = refl
parse_set-words key v Condition.if_absent Expiry.keep x = refl
parse_set-words key v Condition.if_present Expiry.keep x = refl
parse_set-words key v Condition.always (Expiry.after_milliseconds n) x =
    rw (integer-int_to_string n x.1, positive n x.0) refl
parse_set-words key v Condition.if_absent (Expiry.after_milliseconds n) x =
    rw (integer-int_to_string n x.1, positive n x.0) refl
parse_set-words key v Condition.if_present (Expiry.after_milliseconds n) x =
    rw (integer-int_to_string n x.1, positive n x.0) refl

two_or_more : (n : ℕ) → ltb (suc (suc n)) 2 ≡ false
two_or_more n = ground arith

three_or_more : (n : ℕ) → ltb (suc (suc (suc n))) 3 ≡ false
three_or_more n = ground arith

odd : (pairs : List (Bytes × Bytes)) → (suc (suc (suc (length (pair_words pairs)))) % 2 == 1) ≡ true
odd pairs = ground (arith, length-pair_words pairs)

-- A request that is written for an operation is parsed as that operation, where its numbers are in
-- range, it has a key, and its keys and values are within the limits.
pub parse-arguments_of :
    (operation : Operation) (limits : ParseLimits)
    → IsAccepted limits operation
    → parse (arguments_of operation) limits ≡ ok (data_command operation)
unfolding parse specs find_spec text eq_ignore_ascii_case bytes_eq wrong_arity arguments_of
    parse_named increment_of amount_of expire_of HasRange keys chunks
parse-arguments_of (Operation.get key) limits x =
    within_limits-accepted limits (Operation.get key) x
parse-arguments_of (Operation.set key v condition expiry) limits x =
    rw
      (
        three_or_more (length (condition_words condition ++ expiry_words expiry)),
        parse_set-words key v condition expiry x.formed.ranged,
      )
      (within_limits-accepted limits (Operation.set key v condition expiry) x)
parse-arguments_of (Operation.increment key amount true) limits x =
    rw (integer-int_to_string amount x.formed.ranged)
      (within_limits-accepted limits (Operation.increment key amount true) x)
parse-arguments_of (Operation.increment key amount false) limits x =
    rw (integer-int_to_string amount x.formed.ranged)
      (within_limits-accepted limits (Operation.increment key amount false) x)
parse-arguments_of (Operation.delete (k ∷ ks)) limits x =
    rw (two_or_more (length ks)) (within_limits-accepted limits (Operation.delete (k ∷ ks)) x)
parse-arguments_of (Operation.delete []) limits x = absurd (omega (arith, x.formed.keyed))
parse-arguments_of (Operation.exists (k ∷ ks)) limits x =
    rw (two_or_more (length ks)) (within_limits-accepted limits (Operation.exists (k ∷ ks)) x)
parse-arguments_of (Operation.exists []) limits x = absurd (omega (arith, x.formed.keyed))
parse-arguments_of (Operation.multi_get (k ∷ ks)) limits x =
    rw (two_or_more (length ks)) (within_limits-accepted limits (Operation.multi_get (k ∷ ks)) x)
parse-arguments_of (Operation.multi_get []) limits x = absurd (omega (arith, x.formed.keyed))
parse-arguments_of (Operation.multi_set []) limits x = absurd (omega (arith, x.formed.keyed))
parse-arguments_of (Operation.multi_set ((key, v) ∷ rest)) limits x =
    rw (three_or_more (length (pair_words rest)), odd rest, chunks-pair_words rest)
      (within_limits-accepted limits (Operation.multi_set ((key, v) ∷ rest)) x)
parse-arguments_of (Operation.expire key milliseconds) limits x =
    rw (integer-int_to_string milliseconds x.formed.ranged)
      (within_limits-accepted limits (Operation.expire key milliseconds) x)
parse-arguments_of (Operation.ttl key true) limits x =
    within_limits-accepted limits (Operation.ttl key true) x
parse-arguments_of (Operation.ttl key false) limits x =
    within_limits-accepted limits (Operation.ttl key false) x
parse-arguments_of (Operation.persist key) limits x =
    within_limits-accepted limits (Operation.persist key) x
