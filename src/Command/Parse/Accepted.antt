-- ===== src/Command/Parse/Accepted.antt =====
-- `parse` answers every request, and what it accepts is a well-formed command within the limits.
use recall.Prelude.{
  ℕ, zero, suc, refl, ◌≤◌, ◌≡◌, false, some, List, [], ◌∷◌, Bytes, arith, codes, length, Bool-cases,
  inl, inr, get_elem?,
}
use recall.Run.{Answers, value, refused, Answers-then, Answers-branch, or_else, err}
use recall.Command.{Operation, keys}
use recall.Command.Specs.{CommandSpec, specs, find_spec, text, wrong_arity, eq_ignore_ascii_case}
use recall.Command.Options.{ParseLimits, Command, data_command}
use recall.Command.Parse.{within_limits, value_too_large, values, any_longer, parse}
use recall.Command.Options.Safe.{IsFormed, IsSound}
use recall.Command.Parse.Named.{parse_named-Answers, arity_of}

-- The values that an operation writes as they came.
unfoldable pub written : Operation → List Bytes
written (Operation.set key text condition expiry) = text ∷ []
written (Operation.multi_set pairs) = values pairs
written _ = []

-- What an accepted operation promises to the store: it has a key, its numbers are in range, and its
-- keys and values are within the limits.
pub record IsAccepted (limits : ParseLimits) (operation : Operation) : Type 0 where
  pub formed : IsFormed operation
  pub key_sizes :
      (i : ℕ) (key : Bytes)
      → get_elem? (keys operation) i ≡ some key
      → length key ≤ limits.max_key_bytes
  pub value_sizes :
      (i : ℕ) (text : Bytes)
      → get_elem? (written operation) i ≡ some text
      → length text ≤ limits.max_value_bytes

pub any_longer-none :
    (limit : ℕ) (ks : List Bytes)
    → any_longer limit ks ≡ false
    → (i : ℕ) (k : Bytes) → get_elem? ks i ≡ some k
    → length k ≤ limit
any_longer-none limit [] h i k e = ground arith
any_longer-none limit (x ∷ ks) h zero k e = ground arith
any_longer-none limit (x ∷ ks) h (suc i) k e = any_longer-none limit ks (ground arith) i k e

pub value_too_large-none :
    (operation : Operation) (limit : ℕ)
    → value_too_large operation limit ≡ false
    → (i : ℕ) (text : Bytes) → get_elem? (written operation) i ≡ some text
    → length text ≤ limit
unfolding value_too_large written
value_too_large-none (Operation.set key v condition expiry) limit h i text e =
    any_longer-none limit (v ∷ []) (ground arith) i text e
value_too_large-none (Operation.multi_set pairs) limit h i text e =
    any_longer-none limit (values pairs) h i text e
value_too_large-none (Operation.get key) limit h i text e = ground arith
value_too_large-none (Operation.increment key amount b) limit h i text e = ground arith
value_too_large-none (Operation.delete ks) limit h i text e = ground arith
value_too_large-none (Operation.exists ks) limit h i text e = ground arith
value_too_large-none (Operation.multi_get ks) limit h i text e = ground arith
value_too_large-none (Operation.expire key n) limit h i text e = ground arith
value_too_large-none (Operation.ttl key b) limit h i text e = ground arith
value_too_large-none (Operation.persist key) limit h i text e = ground arith

within_limits-Answers :
    (limits : ParseLimits) (c : Command)
    → IsSound IsFormed limits c
    → Answers (IsSound (IsAccepted limits) limits) (within_limits limits c)
unfolding within_limits IsSound
within_limits-Answers limits (data_command operation) x =
    Answers-branch (any_longer limits.max_key_bytes (keys operation)) (λ b. refused _)
      λ b.
        Answers-branch (value_too_large operation limits.max_value_bytes) (λ c. refused _)
          λ c. value (record {
            formed = x;
            key_sizes = any_longer-none limits.max_key_bytes (keys operation) b;
            value_sizes = value_too_large-none operation limits.max_value_bytes c;
          })
within_limits-Answers limits (Command.ping o) x = value x
within_limits-Answers limits (Command.echo o) x = value x
within_limits-Answers limits Command.quit x = value x
within_limits-Answers limits (Command.auth u p) x = value x
within_limits-Answers limits (Command.hello protocol auth name) x = value x
within_limits-Answers limits (Command.select n) x = value x
within_limits-Answers limits (Command.client c) x = value x
within_limits-Answers limits (Command.metadata c) x = value x
within_limits-Answers limits (Command.info o) x = value x

-- Each entry of the table has the arity that its name stands for.
HasArities : (entries : List CommandSpec) → Type 0
HasArities [] = Unit
HasArities (s ∷ rest) = (s.arity ≡ arity_of s.name) × HasArities rest

infixr 5 ◌also◌
abbrev ◌also◌ : {A B : Type 0} → A → B → A × B
a also b = (a, b)

specs-HasArities : HasArities specs
unfolding HasArities specs arity_of
specs-HasArities =
    refl also refl also refl also refl also refl also refl also refl also refl also refl also refl
    also refl also refl also refl also refl also refl also refl also refl also refl also refl
    also refl also refl also refl also refl also refl also tt

find_spec-arity :
    (entries : List CommandSpec) (name : Bytes)
    → HasArities entries
    → Answers
        (λ s. s.arity ≡ arity_of s.name)
        (or_else (find_spec entries name) (err (codes "ERR unknown command")))
unfolding find_spec HasArities
find_spec-arity [] name h = refused _
find_spec-arity (s ∷ rest) name (here, later) =
    elim (Bool-cases (eq_ignore_ascii_case name (text s.name))) [
      | inl found ↦ rw found (value here)
      | inr other ↦ rw other (find_spec-arity rest name later)
    ]

-- `parse` answers every list of arguments with a command or an error: it never panics on an index
-- and its loops end. A command on data that it accepts has a key, has its numbers in the range of an
-- i64 and its deadline ahead, and keeps within the limits on keys and values; a client name that it
-- accepts is visible text within its limit; a database number is an i64.
pub parse-Answers :
    (a : List Bytes) (limits : ParseLimits)
    → Answers (IsSound (IsAccepted limits) limits) (parse a limits)
unfolding parse
parse-Answers [] limits = refused _
parse-Answers (name ∷ rest) limits =
    Answers-then (find_spec-arity specs name specs-HasArities) λ s known.
      Answers-branch (wrong_arity s.arity (length (name ∷ rest))) (λ b. refused _)
        λ b.
          Answers-then
            (parse_named-Answers s.name (name ∷ rest) limits (omega arith) (rw (← known) b))
            λ c x. within_limits-Answers limits c x
