-- ===== src/Prelude/Lists.antt =====
-- Lists measured and indexed by native numbers, under the library's names.
use Prim.Native.Nat.{ℕ, zero, suc, ◌+◌, ◌-◌, ◌≤◌, ◌<◌}
use mathlib.Core.Path.{◌≡◌, refl, ap, ◌∙◌}
use mathlib.Core.List.{List, [], ◌∷◌, ◌++◌}
use mathlib.Core.Bool.{false}
use mathlib.Core.Option.{Option, none, some}
use native.Mathlib.Omega.{arith}
use recall.Prelude.Tests.{◌==◌, if◌then◌else◌}

module _ {ℓ} {A : Type ℓ} where
  abbrev pub length : List A → ℕ
  length [] = 0
  length (x ∷ xs) = suc (length xs)

  abbrev pub get_elem? : List A → ℕ → Option A
  get_elem? [] i = none
  get_elem? (x ∷ xs) zero = some x
  get_elem? (x ∷ xs) (suc i) = get_elem? xs i

  -- A write out of bounds changes nothing.
  abbrev pub set : List A → ℕ → A → List A
  set [] i v = []
  set (x ∷ xs) zero v = v ∷ xs
  set (x ∷ xs) (suc i) v = x ∷ set xs i v

  abbrev pub take : ℕ → List A → List A
  take zero xs = []
  take (suc n) [] = []
  take (suc n) (x ∷ xs) = x ∷ take n xs

  abbrev pub drop : ℕ → List A → List A
  drop zero xs = xs
  drop (suc n) [] = []
  drop (suc n) (x ∷ xs) = drop n xs

  pub length-append : (xs ys : List A) → length (xs ++ ys) ≡ length xs + length ys
  length-append [] ys = omega arith
  length-append (x ∷ xs) ys = omega (arith, length-append xs ys)

module _ {ℓ} {A : Type ℓ} where
  pub length-set : (xs : List A) (i : ℕ) (v : A) → length (set xs i v) ≡ length xs
  length-set [] i v = refl
  length-set (x ∷ xs) zero v = refl
  length-set (x ∷ xs) (suc i) v = ap suc (length-set xs i v)

module _ {ℓ} {A : Type ℓ} where
  pub get_elem?-set_there :
      (xs : List A) (i : ℕ) {old : A} (v : A)
      → get_elem? xs i ≡ some old
      → get_elem? (set xs i v) i ≡ some v
  get_elem?-set_there [] i v e = cc
  get_elem?-set_there (x ∷ xs) zero v e = refl
  get_elem?-set_there (x ∷ xs) (suc i) v e = get_elem?-set_there xs i v e

  pub get_elem?-set_elsewhere :
      (xs : List A) (i j : ℕ) (v : A) → (i == j) ≡ false → get_elem? (set xs i v) j ≡ get_elem? xs j
  get_elem?-set_elsewhere [] i j v n = refl
  get_elem?-set_elsewhere (x ∷ xs) zero zero v n = absurd (ground (arith, n))
  get_elem?-set_elsewhere (x ∷ xs) zero (suc j) v n = refl
  get_elem?-set_elsewhere (x ∷ xs) (suc i) zero v n = refl
  get_elem?-set_elsewhere (x ∷ xs) (suc i) (suc j) v n =
      get_elem?-set_elsewhere xs i j v (ground (arith, n))

-- Reads, writes and exchanges at an index; a read out of bounds gives the default `d`.
module _ {ℓ} {A : Type ℓ} where
  unfoldable pub get_or : List A → ℕ → A → A
  get_or [] i d = d
  get_or (x ∷ xs) zero d = x
  get_or (x ∷ xs) (suc i) d = get_or xs i d

  pub get_elem?-get_or :
      (xs : List A) (i : ℕ) (d : A) → i < length xs → get_elem? xs i ≡ some (get_or xs i d)
  unfolding get_or
  get_elem?-get_or [] i d h = absurd (omega arith)
  get_elem?-get_or (x ∷ xs) zero d h = refl
  get_elem?-get_or (x ∷ xs) (suc i) d h = get_elem?-get_or xs i d (omega arith)

  pub get_or-set :
      (xs : List A) (i j : ℕ) (v d : A)
      → i < length xs
      → get_or (set xs i v) j d ≡ (if i == j then v else get_or xs j d)
  unfolding get_or
  get_or-set [] i j v d h = absurd (omega arith)
  get_or-set (x ∷ xs) zero zero v d h = ground arith
  get_or-set (x ∷ xs) (suc i) (suc j) v d h = ground (arith, get_or-set xs i j v d)
  get_or-set (x ∷ xs) i j v d h = ground arith

  pub get_or-append :
      (xs ys : List A) (i : ℕ) (d : A) → i < length xs → get_or (xs ++ ys) i d ≡ get_or xs i d
  unfolding get_or
  get_or-append [] ys i d h = absurd (omega arith)
  get_or-append (x ∷ xs) ys zero d h = refl
  get_or-append (x ∷ xs) ys (suc i) d h = get_or-append xs ys i d (omega arith)

  pub get_or-append_last : (xs : List A) (x d : A) → get_or (xs ++ x ∷ []) (length xs) d ≡ x
  unfolding get_or
  get_or-append_last [] x d = refl
  get_or-append_last (y ∷ xs) x d = get_or-append_last xs x d

  pub get_or-take :
      (n : ℕ) (xs : List A) (i : ℕ) (d : A) → i < n → get_or (take n xs) i d ≡ get_or xs i d
  unfolding get_or
  get_or-take zero xs i d h = absurd (omega arith)
  get_or-take (suc n) [] i d h = refl
  get_or-take (suc n) (x ∷ xs) zero d h = refl
  get_or-take (suc n) (x ∷ xs) (suc i) d h = get_or-take n xs i d (omega arith)

  pub length-drop : (n : ℕ) (xs : List A) → length (drop n xs) ≡ length xs - n
  length-drop zero xs = omega arith
  length-drop (suc n) [] = omega arith
  length-drop (suc n) (x ∷ xs) = omega (arith, length-drop n xs)

  pub length-take : (n : ℕ) (xs : List A) → n ≤ length xs → length (take n xs) ≡ n
  length-take zero xs h = refl
  length-take (suc n) [] h = absurd (omega arith)
  length-take (suc n) (x ∷ xs) h = omega (arith, length-take n xs)

  -- `Vec::swap` for indices in range.
  unfoldable pub exchange : List A → ℕ → ℕ → A → List A
  unfolding get_or
  exchange xs i j d = set (set xs i (get_or xs j d)) j (get_or xs i d)

  pub length-exchange : (xs : List A) (i j : ℕ) (d : A) → length (exchange xs i j d) ≡ length xs
  unfolding exchange
  length-exchange xs i j d =
      length-set (set xs i (get_or xs j d)) j (get_or xs i d) ∙ length-set xs i (get_or xs j d)

  pub get_or-exchange :
      (xs : List A) (i j c : ℕ) (d : A)
      → i < length xs
      → j < length xs
      → get_or (exchange xs i j d) c d
        ≡ (if j == c then get_or xs i d else if i == c then get_or xs j d else get_or xs c d)
  unfolding exchange
  get_or-exchange xs i j c d hi hj = rw (
    get_or-set (set xs i (get_or xs j d)) j c (get_or xs i d) d
        (rw (length-set xs i (get_or xs j d)) hj),
    get_or-set xs i c (get_or xs j d) d hi,
  )
