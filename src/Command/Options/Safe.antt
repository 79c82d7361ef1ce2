-- ===== src/Command/Options/Safe.antt =====
-- The option loops of the parser end, read no index out of bounds, and answer with options in
-- range; what a command promises once it is parsed.
use recall.Prelude.{
  ℕ, zero, suc, ◌+◌, ◌-◌, ◌≤◌, ◌<◌, ◌≡◌, true, false, Option, none, some, List, [], ◌∷◌, Bytes,
  arith, codes, length, String, get_elem?, ltb, ◌==◌, ◌||◌, ◌&&◌, not,
}
use recall.Prelude.Int.{ℤ, pos, ◌<ℤ◌, in_i64, checked_mul, checked-some, leb_ℤ}
use recall.Run.{Answers, value, refused, Answers-then, Answers-branch, Answers-or_else}
use recall.Command.{Condition, Expiry, Operation, keys}
use recall.Command.Integer.{integer-in_i64}
use recall.Command.Specs.{eq_ignore_ascii_case}
use recall.Command.Options.{
  ParseLimits, ClientCommand, Command, data_command, SetState, is_always, is_clear, is_none,
  HelloState, arg, in_seconds, set_duration, set_step, set_loop, parse_set, client_name,
  not_printable, hello_auth, hello_name, hello_step, hello_loop, protocol_of, parse_hello,
}

pub arg-Answers : (a : List Bytes) (i : ℕ) → i < length a → Answers (λ v. Unit {0}) (arg a i)
arg-Answers [] i h = absurd (omega arith)
arg-Answers (x ∷ a) zero h = value tt
arg-Answers (x ∷ a) (suc i) h = arg-Answers a i (omega arith)

-- A deadline that `SET` asks for lies ahead, within an `i64`.
unfoldable pub IsExpiry : Expiry → Type 0
IsExpiry (Expiry.after_milliseconds n) = (pos 0 <ℤ n) × (in_i64 n ≡ true)
IsExpiry _ = Unit

pub in_seconds-Answers :
    (b : _) (name : Bytes) (n : ℤ)
    → in_i64 n ≡ true
    → Answers (λ d. in_i64 d ≡ true) (in_seconds b name n)
unfolding checked_mul
in_seconds-Answers true name n h = Answers-or_else _ _ λ d e. (checked-some _ d e).1
in_seconds-Answers false name n h = value h

set_duration-Answers :
    (a : List Bytes) (option : Bytes) (s : SetState)
    → s.index < length a
    → Answers (λ r. (s.index < r.index) × IsExpiry r.expiry) (set_duration a option s)
unfolding set_duration IsExpiry
set_duration-Answers a option s h =
    Answers-branch (not (is_clear s.expiry) || s.index + 1 == length a) (λ b. refused _)
      λ b. Answers-then (arg-Answers a (s.index + 1) (ground arith)) λ text _.
        Answers-then (integer-in_i64 text) λ n fits.
          Answers-then
            (in_seconds-Answers (eq_ignore_ascii_case option (codes "ex")) (codes "set") n fits)
            λ d range.
              Answers-branch (leb_ℤ d (pos 0)) (λ b. refused _)
                λ late.
                  let after : s.index < s.index + 1 + 1 = omega arith in
                  let good : IsExpiry (Expiry.after_milliseconds d) = (ground arith, range) in
                  value (after, good)

set_step-Answers :
    (a : List Bytes) (s : SetState)
    → s.index < length a
    → IsExpiry s.expiry
    → Answers (λ r. (s.index < r.index) × IsExpiry r.expiry) (set_step a s)
unfolding set_step IsExpiry
set_step-Answers a s h x =
    let next : s.index < s.index + 1 = omega arith in
    Answers-then (arg-Answers a s.index h) λ option _.
      let is = λ (word : String). eq_ignore_ascii_case option (codes word) in
      Answers-branch (is "nx" || is "xx")
        (λ b. Answers-branch (is_always s.condition) (λ c. value (next, x)) (λ c. refused _))
        λ b.
          Answers-branch (is "keepttl")
            (λ c. Answers-branch (is_clear s.expiry) (λ d. value (next, tt)) (λ d. refused _))
            λ c.
              Answers-branch (is "ex" || is "px") (λ d. set_duration-Answers a option s h)
                (λ d. refused _)

set_loop-Answers :
    (fuel : ℕ) (a : List Bytes) (s : SetState)
    → length a - s.index < fuel
    → IsExpiry s.expiry
    → Answers (λ r. IsExpiry r.expiry) (set_loop fuel a s)
unfolding set_loop
set_loop-Answers zero a s h x = absurd (omega arith)
set_loop-Answers (suc fuel) a s h x =
    Answers-branch (ltb s.index (length a))
      (λ b.
        Answers-then (set_step-Answers a s (ground arith) x)
          λ s' (later, x'). set_loop-Answers fuel a s' (ground arith) x')
      (λ b. value x)

-- What is known of an operation before the limits are checked: it has a key, and its numbers are in
-- range.
unfoldable pub HasRange : Operation → Type 0
HasRange (Operation.set key text condition expiry) = IsExpiry expiry
HasRange (Operation.increment key amount subtract) = in_i64 amount ≡ true
HasRange (Operation.expire key milliseconds) = in_i64 milliseconds ≡ true
HasRange _ = Unit

pub record IsFormed (operation : Operation) : Type 0 where
  pub keyed : 0 < length (keys operation)
  pub ranged : HasRange operation

-- A client name that can stand in a line of output.
pub record IsName (limits : ParseLimits) (name : Bytes) : Type 0 where
  pub short : length name ≤ limits.max_client_metadata_bytes
  pub visible : (i b : ℕ) → get_elem? name i ≡ some b → (33 ≤ b) × (b ≤ 126)

unfoldable pub IsNamed : ParseLimits → Option Bytes → Type 0
IsNamed limits none = Unit
IsNamed limits (some name) = IsName limits name

-- What a command promises besides its operation on data.
unfoldable pub IsSound : (data_promise : Operation → Type 0) → ParseLimits → Command → Type 0
IsSound promise limits (data_command operation) = promise operation
IsSound promise limits (Command.select n) = in_i64 n ≡ true
IsSound promise limits (Command.client (ClientCommand.set_name name)) = IsName limits name
IsSound promise limits (Command.client (ClientCommand.set_info b name)) = IsName limits name
IsSound promise limits (Command.hello protocol auth name) = IsNamed limits name
IsSound promise limits _ = Unit

pub parse_set-Answers : (a : List Bytes) → 2 < length a → Answers IsFormed (parse_set a)
unfolding parse_set keys IsExpiry HasRange
parse_set-Answers a h =
    Answers-then
      (set_loop-Answers (length a) a
        (record { index = 3; condition = Condition.always; expiry = Expiry.clear }) (omega arith)
        tt)
      λ s x. Answers-then (arg-Answers a 1 (omega arith)) λ key _.
        Answers-then (arg-Answers a 2 (omega arith))
          λ text _. let one : 0 < 1 = omega arith in value (record { keyed = one; ranged = x })

printable-visible :
    (name : Bytes)
    → not_printable name ≡ false
    → (i b : ℕ) → get_elem? name i ≡ some b
    → (33 ≤ b) × (b ≤ 126)
printable-visible [] h i b e = ground arith
printable-visible (c ∷ name) h zero b e = ground arith
printable-visible (c ∷ name) h (suc i) b e = printable-visible name (ground arith) i b e

pub client_name-Answers :
    (name : Bytes) (limits : ParseLimits)
    → Answers (λ _. IsName limits name) (client_name name limits)
unfolding client_name
client_name-Answers name limits =
    Answers-branch (ltb limits.max_client_metadata_bytes (length name) || not_printable name)
      (λ b. refused _)
      λ b.
        let short : length name ≤ limits.max_client_metadata_bytes = ground arith in
        value (record { short = short; visible = printable-visible name (ground arith) })

protocol_of-Answers : (o : Option Bytes) → Answers (λ _. Unit {0}) (protocol_of o)
protocol_of-Answers none = value tt
protocol_of-Answers (some v) = Answers-then (integer-in_i64 v) λ n _. value tt

hello_step-Answers :
    (a : List Bytes) (limits : ParseLimits) (s : HelloState)
    → s.index < length a
    → IsNamed limits s.name
    → Answers (λ r. (s.index < r.index) × IsNamed limits r.name) (hello_step a limits s)
unfolding hello_step hello_auth hello_name IsNamed
hello_step-Answers a limits s h x =
    let past : s.index < s.index + 3 = omega arith in
    let next : s.index < s.index + 2 = omega arith in
    Answers-then (arg-Answers a s.index h) λ option _.
      Answers-branch
        (eq_ignore_ascii_case option (codes "auth")
          && is_none s.auth
          && ltb (s.index + 2) (length a))
        (λ b. Answers-then (arg-Answers a (s.index + 1) (ground arith)) λ username _.
          Answers-then (arg-Answers a (s.index + 2) (ground arith)) λ password _. value (past, x))
        λ b.
          Answers-branch
            (eq_ignore_ascii_case option (codes "setname")
              && is_none s.name
              && ltb (s.index + 1) (length a))
            (λ c.
              Answers-then (arg-Answers a (s.index + 1) (ground arith)) λ name _.
                Answers-then (client_name-Answers name limits) λ _ good. value (next, good))
            (λ c. refused _)

hello_loop-Answers :
    (fuel : ℕ) (a : List Bytes) (limits : ParseLimits) (s : HelloState)
    → length a - s.index < fuel
    → IsNamed limits s.name
    → Answers (λ r. IsNamed limits r.name) (hello_loop fuel a limits s)
unfolding hello_loop
hello_loop-Answers zero a limits s h x = absurd (omega arith)
hello_loop-Answers (suc fuel) a limits s h x =
    Answers-branch (ltb s.index (length a))
      (λ b.
        Answers-then (hello_step-Answers a limits s (ground arith) x)
          λ s' (later, x'). hello_loop-Answers fuel a limits s' (ground arith) x')
      (λ b. value x)

pub parse_hello-Answers :
    (a : List Bytes) (limits : ParseLimits)
    → 0 < length a
    → Answers (IsSound IsFormed limits) (parse_hello a limits)
unfolding parse_hello IsSound IsNamed
parse_hello-Answers a limits h = Answers-then (protocol_of-Answers (get_elem? a 1)) λ protocol _.
    Answers-then
      (hello_loop-Answers (length a) a limits (record { index = 2; auth = none; name = none })
        (omega arith) tt)
      λ s x. value x
