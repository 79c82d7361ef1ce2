-- ===== src/Prelude/Int.antt =====
-- Signed integers over the native numbers, under the library's names, and the `i64` operations of
-- the source: checked and saturating arithmetic, with division that rounds towards zero.
use Prim.Native.Nat.{ℕ, suc, ◌+◌, ◌-◌, ◌*◌, ◌/◌, ◌%◌, ◌^◌, ◌≤◌, ◌<◌}
use mathlib.Core.Path.{◌≡◌, refl}
use mathlib.Core.Bool.{Bool, true, false, ◌&&◌}
use mathlib.Core.Option.{Option, none, some}
use native.Mathlib.Omega.{arith}
use recall.Prelude.Tests.{ltb, leb, if◌then◌else◌}

-- `negsuc n` is -(n + 1).
pub data ℤ : Type 0 where
  pos : ℕ → ℤ
  negsuc : ℕ → ℤ

unfoldable pub pos_part : ℤ → ℕ
pos_part (pos n) = n
pos_part (negsuc n) = 0

unfoldable pub neg_part : ℤ → ℕ
neg_part (pos n) = 0
neg_part (negsuc n) = suc n

-- a - b, as an integer.
abbrev pub sub_ℕ : ℕ → ℕ → ℤ
sub_ℕ a b = if leb b a then pos (a - b) else negsuc (b - a - 1)

infixl 65 ◌+ℤ◌ ◌-ℤ◌
infixl 70 ◌*ℤ◌
infix 50 ◌≤ℤ◌ ◌<ℤ◌
unfoldable pub ◌+ℤ◌ : ℤ → ℤ → ℤ
unfolding pos_part neg_part
a +ℤ b = sub_ℕ (pos_part a + pos_part b) (neg_part a + neg_part b)

unfoldable pub ◌-ℤ◌ : ℤ → ℤ → ℤ
unfolding pos_part neg_part
a -ℤ b = sub_ℕ (pos_part a + neg_part b) (neg_part a + pos_part b)

unfoldable pub ◌*ℤ◌ : ℤ → ℤ → ℤ
unfolding pos_part neg_part
a *ℤ b =
    sub_ℕ (pos_part a * pos_part b + neg_part a * neg_part b)
      (pos_part a * neg_part b + neg_part a * pos_part b)

abbrev pub ◌≤ℤ◌ : ℤ → ℤ → Type 0
a ≤ℤ b = pos_part a + neg_part b ≤ pos_part b + neg_part a

abbrev pub ◌<ℤ◌ : ℤ → ℤ → Type 0
a <ℤ b = pos_part a + neg_part b < pos_part b + neg_part a

abbrev pub leb_ℤ : ℤ → ℤ → Bool
leb_ℤ a b = leb (pos_part a + neg_part b) (pos_part b + neg_part a)

abbrev pub ltb_ℤ : ℤ → ℤ → Bool
ltb_ℤ a b = ltb (pos_part a + neg_part b) (pos_part b + neg_part a)

-- One lemma for each operation lets `omega` work with the operations shut.
pub +ℤ_parts :
    (a b : ℤ)
    → pos_part (a +ℤ b) + neg_part a + neg_part b ≡ neg_part (a +ℤ b) + pos_part a + pos_part b
unfolding ◌+ℤ◌
+ℤ_parts a b = ground arith

pub -ℤ_parts :
    (a b : ℤ)
    → pos_part (a -ℤ b) + neg_part a + pos_part b ≡ neg_part (a -ℤ b) + pos_part a + neg_part b
unfolding ◌-ℤ◌
-ℤ_parts a b = ground arith

pub eq_of_parts : (a b : ℤ) → pos_part a + neg_part b ≡ pos_part b + neg_part a → a ≡ b
unfolding pos_part neg_part
eq_of_parts a b h = ground arith

pub pos_parts : (n : ℕ) → (pos_part (pos n) ≡ n) × (neg_part (pos n) ≡ 0)
unfolding pos_part neg_part
pos_parts n = (refl, refl)

pub ruleset int_laws = (arith, +ℤ_parts, -ℤ_parts, eq_of_parts)

abbrev pub i64_min : ℤ
i64_min = negsuc (2 ^ 63 - 1)

abbrev pub i64_max : ℤ
i64_max = pos (2 ^ 63 - 1)

unfoldable pub in_i64 : ℤ → Bool
in_i64 a = leb (pos_part a) (2 ^ 63 - 1) && leb (neg_part a) (2 ^ 63)

-- `a.checked_add(b)` and its kin: `none` on overflow.
unfoldable pub checked : ℤ → Option ℤ
checked a = if in_i64 a then some a else none

unfoldable pub checked_add : ℤ → ℤ → Option ℤ
checked_add a b = checked (a +ℤ b)

unfoldable pub checked_sub : ℤ → ℤ → Option ℤ
checked_sub a b = checked (a -ℤ b)

unfoldable pub checked_mul : ℤ → ℤ → Option ℤ
checked_mul a b = checked (a *ℤ b)

unfoldable pub saturating_sub : ℤ → ℤ → ℤ
saturating_sub a b =
    let d = a -ℤ b in
    if ltb (2 ^ 63 - 1) (pos_part d)
    then i64_max
    else if ltb (2 ^ 63) (neg_part d)
    then i64_min
    else d

-- `/` and `%` by a positive constant, rounding towards zero.
unfoldable pub div : ℤ → ℕ → ℤ
div (pos a) n = pos (a / n)
div (negsuc a) n = sub_ℕ 0 (suc a / n)

unfoldable pub rem : ℤ → ℕ → ℤ
rem (pos a) n = pos (a % n)
rem (negsuc a) n = sub_ℕ 0 (suc a % n)

pub checked-some : (a d : ℤ) → checked a ≡ some d → (a ≡ d) × (in_i64 d ≡ true)
unfolding checked
checked-some a d h = ground arith

-- A sum with a positive number is larger.
pub checked_add-later :
    (a b d : ℤ) → checked_add a b ≡ some d → ltb_ℤ (pos 0) b ≡ true → leb_ℤ d a ≡ false
unfolding checked_add
checked_add-later a b d h p = ground (arith, checked-some (a +ℤ b) d h, +ℤ_parts a b, pos_parts 0)
