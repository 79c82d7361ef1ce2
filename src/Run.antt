-- ===== src/Run.antt =====
-- How a call of the program ends, and rules for the calls that return.
use mathlib.Core.Path.{subst}
use recall.Prelude.{
  ℕ, ◌-◌, ◌≤◌, leb, arith, List, get_elem?, ◌≡◌, refl, Bool, true, false, Option, none, some, Bytes,
  if◌then◌else◌,
}

-- The endings of a call: a panic, the model's fuel running out, an error with its message, and a
-- returned value.
pub data Run {ℓ} (V : Type ℓ) : Type ℓ where
  panic : Run V
  out_of_fuel : Run V
  err : (message : Bytes) → Run V
  ok : (value : V) → Run V

-- `Option::ok_or`: the value, or the ending that stands for its absence.
abbrev pub or_else {ℓ} : {V : Type ℓ} → Option V → Run V → Run V
or_else none otherwise = otherwise
or_else (some v) otherwise = ok v

-- The `?` operator: the rest of the call runs on the value, and any other ending is the ending of
-- the whole call.
infixl 5 ◌>>=◌
abbrev pub ◌>>=◌ {ℓ κ} : {V : Type ℓ} {W : Type κ} → Run V → (V → Run W) → Run W
panic >>= rest = panic
out_of_fuel >>= rest = out_of_fuel
err message >>= rest = err message
ok v >>= rest = rest v

-- A subtraction on `usize` that must not go below zero.
unfoldable pub checked_minus : ℕ → ℕ → Run ℕ
checked_minus a b = if leb b a then ok (a - b) else panic

pub checked_minus-ok : (a b : ℕ) → b ≤ a → checked_minus a b ≡ ok (a - b)
unfolding checked_minus
checked_minus-ok a b h = ground arith

-- An index into a vector or a slice, which panics out of bounds.
abbrev pub at {ℓ} : {V : Type ℓ} → List V → ℕ → Run V
at xs i = or_else (get_elem? xs i) panic

-- The call returns a value, of which `P` holds.
pub data Returns {ℓ κ} {V : Type ℓ} (P : V → Type κ) : Run V → Type (ℓ ⊔ κ) where
  returned : {v : V} → P v → Returns P (ok v)

-- The call returns such a value, or an error; it neither panics nor runs out of fuel.
pub data Answers {ℓ κ} {V : Type ℓ} (P : V → Type κ) : Run V → Type (ℓ ⊔ κ) where
  value : {v : V} → P v → Answers P (ok v)
  refused : (e : Bytes) → Answers P (err e)

module _ {ℓ κ} {V : Type ℓ} {P : V → Type κ} where
  -- The value behind a call that returns one.
  pub Returns-result : {call : Run V} → Returns P call → (v : V) × (call ≡ ok v) × P v
  Returns-result (returned p) = (_, refl, p)

  -- A call that returns, with the equation for its value.
  pub Returns-known : {call : Run V} → Returns P call → Returns (λ v. call ≡ ok v) call
  Returns-known (returned p) = returned refl

  pub Returns-branch :
      {this that : Run V} (test : Bool)
      → (test ≡ true → Returns P this)
      → (test ≡ false → Returns P that)
      → Returns P (if test then this else that)
  Returns-branch false _ at_false = at_false refl
  Returns-branch true at_true _ = at_true refl

  module _ {ℓ' κ'} {W : Type ℓ'} {Q : W → Type κ'} where
    pub Returns-then :
        {call : Run V} {rest : V → Run W}
        → Returns P call
        → ((v : V) → P v → Returns Q (rest v))
        → Returns Q (call >>= rest)
    Returns-then (returned p) next = next _ p

  pub Returns-weaken {κ'} :
      {Q : V → Type κ'} {call : Run V} → Returns P call → ((v : V) → P v → Q v) → Returns Q call
  Returns-weaken (returned p) next = returned (next _ p)

module _ {ℓ κ} {V : Type ℓ} {P : V → Type κ} where
  pub Answers-then {ℓ' κ'} :
      {W : Type ℓ'} {Q : W → Type κ'} {call : Run V} {rest : V → Run W}
      → Answers P call
      → ((v : V) → P v → Answers Q (rest v))
      → Answers Q (call >>= rest)
  Answers-then (value p) next = next _ p
  Answers-then (refused e) next = refused e

  pub Answers-branch :
      {this that : Run V} (test : Bool)
      → (test ≡ true → Answers P this)
      → (test ≡ false → Answers P that)
      → Answers P (if test then this else that)
  Answers-branch false _ at_false = at_false refl
  Answers-branch true at_true _ = at_true refl

  -- `ok_or`: an absent value refuses the call.
  pub Answers-or_else :
      (o : Option V) (e : Bytes) → ((v : V) → o ≡ some v → P v) → Answers P (or_else o (err e))
  Answers-or_else none e _ = refused e
  Answers-or_else (some v) e h = value (h v refl)

  -- A call that answers, with the equation for its value.
  pub Answers-known : {call : Run V} → Answers P call → Answers (λ v. call ≡ ok v) call
  Answers-known (value p) = value refl
  Answers-known (refused e) = refused e

  pub Answers-weaken {κ'} :
      {Q : V → Type κ'} {call : Run V} → Answers P call → ((v : V) → P v → Q v) → Answers Q call
  Answers-weaken (value p) next = value (next _ p)
  Answers-weaken (refused e) next = refused e

-- If the call returns a value, `P` holds of it; it may also end otherwise.
pub data IfReturns {ℓ κ} {V : Type ℓ} (P : V → Type κ) : Run V → Type (ℓ ⊔ κ) where
  holds : {v : V} → P v → IfReturns P (ok v)
  fails : (e : Bytes) → IfReturns P (err e)
  panics : IfReturns P panic
  runs_out : IfReturns P out_of_fuel

module _ {ℓ κ} {V : Type ℓ} {P : V → Type κ} where
  pub IfReturns-then {ℓ' κ'} :
      {W : Type ℓ'} {Q : W → Type κ'} {call : Run V} {rest : V → Run W}
      → IfReturns P call
      → ((v : V) → P v → IfReturns Q (rest v))
      → IfReturns Q (call >>= rest)
  IfReturns-then (holds p) next = next _ p
  IfReturns-then (fails e) next = fails e
  IfReturns-then panics next = panics
  IfReturns-then runs_out next = runs_out

  pub IfReturns-branch :
      {this that : Run V} (test : Bool)
      → (test ≡ true → IfReturns P this)
      → (test ≡ false → IfReturns P that)
      → IfReturns P (if test then this else that)
  IfReturns-branch false _ at_false = at_false refl
  IfReturns-branch true at_true _ = at_true refl

  -- An index or an `expect` that succeeds.
  pub IfReturns-or_panic :
      (o : Option V) → ((v : V) → o ≡ some v → P v) → IfReturns P (or_else o panic)
  IfReturns-or_panic none _ = panics
  IfReturns-or_panic (some v) h = holds (h v refl)

  pub Returns-IfReturns : {call : Run V} → Returns P call → IfReturns P call
  Returns-IfReturns (returned p) = holds p

  pub IfReturns-value : {call : Run V} → IfReturns P call → {v : V} → call ≡ ok v → P v
  IfReturns-value (holds {v = w} p) {v} e = let same : w ≡ v = cc in subst P same p
  IfReturns-value (fails m) e = cc
  IfReturns-value panics e = cc
  IfReturns-value runs_out e = cc

-- Any call, with the equation for the value that it may return.
pub IfReturns-known {ℓ} : {V : Type ℓ} (call : Run V) → IfReturns (λ v. call ≡ ok v) call
IfReturns-known (ok v) = holds refl
IfReturns-known (err e) = fails e
IfReturns-known panic = panics
IfReturns-known out_of_fuel = runs_out
