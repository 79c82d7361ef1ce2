-- ===== src/Settings/Read.antt =====
-- What the numbers of crates/recall-server/src/settings.rs stand for, and that they are read so.
use recall.Prelude.{
  ℕ, ◌+◌, ◌-◌, ◌*◌, ◌^◌, ◌≤◌, ◌<◌, ◌≡◌, refl, sym, ◌∙◌, true, not, ◌||◌, none, some, [], ◌∷◌, Bytes,
  ltb, ◌==◌, length, arith, Bool-cases, Option-cases, inl, inr, if◌then◌else◌,
}
use recall.Run.{Run, ok, err, ◌>>=◌}
use recall.Settings.{number, mib, parse_digits, all_digits}

-- The decimal value, after a number that was read before.
unfoldable pub decimal : Bytes → ℕ → ℕ
decimal [] n = n
decimal (b ∷ rest) n = decimal rest (n * 10 + (b - 48))

unfoldable pub AllDigits : Bytes → Type 0
AllDigits [] = Unit
AllDigits (b ∷ rest) = (48 ≤ b) × (b ≤ 57) × AllDigits rest

-- The text is the decimal of a number that fits a usize.
pub record IsNumber (v : Bytes) (n : ℕ) : Type 0 where
  pub filled : 0 < length v
  pub digits : AllDigits v
  pub worth : decimal v 0 ≡ n
  pub fits : n < 2 ^ 64

-- The text is the decimal of a number of MiB, and the bytes of them fit a usize.
pub record IsMib (v : Bytes) (n : ℕ) : Type 0 where
  pub units : ℕ
  pub written : IsNumber v units
  pub bytes : n ≡ units * 1048576
  pub fits : n < 2 ^ 64

-- A text is read as what it stands for, or refused where it stands for nothing.
pub data Reads {A : Type 0} (P : A → Type 0) : Run A → Type 0 where
  reads : {a : A} → P a → Reads P (ok a)
  unreadable : (e : Bytes) → ((a : A) → ¬ P a) → Reads P (err e)

all_digits-AllDigits : (v : Bytes) → all_digits v ≡ true → AllDigits v
unfolding all_digits AllDigits
all_digits-AllDigits [] h = tt
all_digits-AllDigits (b ∷ v) h =
    (ground (arith, h), ground (arith, h), all_digits-AllDigits v (ground (arith, h)))

AllDigits-all_digits : (v : Bytes) → AllDigits v → all_digits v ≡ true
unfolding all_digits AllDigits
AllDigits-all_digits [] h = refl
AllDigits-all_digits (b ∷ v) h = ground (arith, h.0, h.1, AllDigits-all_digits v h.2)

decimal-le : (v : Bytes) (n : ℕ) → n ≤ decimal v n
unfolding decimal
decimal-le [] n = omega arith
decimal-le (b ∷ v) n = omega (arith, decimal-le v (n * 10 + (b - 48)))

parse_digits-some :
    (v : Bytes) (n m : ℕ)
    → n < 2 ^ 64
    → parse_digits v n ≡ some m
    → (decimal v n ≡ m) × (m < 2 ^ 64)
unfolding parse_digits decimal
parse_digits-some [] n m h e = (cc, ground (arith, h, e))
parse_digits-some (b ∷ v) n m h e =
    parse_digits-some v (n * 10 + (b - 48)) m (ground (arith, e)) (ground (arith, e))

parse_digits-none : (v : Bytes) (n : ℕ) → parse_digits v n ≡ none → 2 ^ 64 ≤ decimal v n
unfolding parse_digits decimal
parse_digits-none [] n e = cc
parse_digits-none (b ∷ v) n e = elim (Bool-cases (ltb (n * 10 + (b - 48)) (2 ^ 64))) [
  | inl fits ↦ parse_digits-none v (n * 10 + (b - 48)) (ground (arith, e, fits))
  | inr over ↦ ground (arith, over, decimal-le v (n * 10 + (b - 48)))
]

pub number-Reads : (key v : Bytes) → Reads (IsNumber v) (number key v)
unfolding number
number-Reads key v = elim (Bool-cases (length v == 0 || not (all_digits v))) [
  | inl bad ↦
      rw bad (unreadable _ λ n h. ground (arith, bad, h.filled, AllDigits-all_digits v h.digits))
  | inr good ↦ rw good (elim (Option-cases (parse_digits v 0)) [
    | inl over ↦
        rw over (unreadable _ λ n h. omega (arith, parse_digits-none v 0 over, h.worth, h.fits))
    | inr (n, e) ↦ rw e (
        reads (record {
          filled = ground (arith, good);
          digits = all_digits-AllDigits v (ground (arith, good));
          worth = (parse_digits-some v 0 n (omega arith) e).0;
          fits = (parse_digits-some v 0 n (omega arith) e).1;
        }))
  ])
]

IsMib-from :
    (v message : Bytes) {q : Run ℕ}
    → Reads (IsNumber v) q
    → Reads (IsMib v) (
        q >>= λ n. if ltb (n * (1024 * 1024)) (2 ^ 64) then ok (n * (1024 * 1024)) else err message)
IsMib-from v message (unreadable e never) = unreadable e λ n h. never h.units h.written
IsMib-from v message (reads {a = n} h) = elim (Bool-cases (ltb (n * (1024 * 1024)) (2 ^ 64))) [
  | inl fits ↦
      rw fits (
        reads (record { units = n; written = h; bytes = omega arith; fits = ground (arith, fits) }))
  | inr over ↦ rw over (
      unreadable message λ m i.
        let same : i.units ≡ n = sym i.written.worth ∙ h.worth in
        ground (arith, same, i.bytes, i.fits, over))
]

pub mib-Reads : (key v : Bytes) → Reads (IsMib v) (mib key v)
unfolding mib
mib-Reads key v = IsMib-from v _ (number-Reads key v)
