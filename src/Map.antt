-- ===== src/Map.antt =====
-- The hash maps of the program (`std::collections::HashMap`), as association lists. The order in
-- which a map is walked is the order of the list; the source leaves it open.
pub mod Laws
use recall.Prelude.{
  ℕ, ◌+◌, ◌≡◌, Bool, true, false, Option, none, some, List, [], ◌∷◌, Eq, if◌then◌else◌, length,
}

abbrev pub Map {ℓ κ} : Type ℓ → Type κ → Type (ℓ ⊔ κ)
Map K V = List (K × V)

module _ {ℓ κ} {K : Type ℓ} {V : Type κ} ⦃e : Eq K⦄ where
  unfoldable pub get : K → Map K V → Option V
  get k [] = none
  get k ((j, v) ∷ m) = if e.beq j k then some v else get k m

  unfoldable pub remove : K → Map K V → Map K V
  remove k [] = []
  remove k ((j, v) ∷ m) = let rest = remove k m in if e.beq j k then rest else (j, v) ∷ rest

  unfoldable pub insert : K → V → Map K V → Map K V
  unfolding remove
  insert k v m = (k, v) ∷ remove k m

  -- No key stands twice.
  abbrev pub Distinct : Map K V → Type κ
  Distinct [] = Unit
  Distinct ((k, v) ∷ m) = (get k m ≡ none) × Distinct m

-- The sum of a weight over the entries.
unfoldable pub total {ℓ κ} : {K : Type ℓ} {V : Type κ} → (K → V → ℕ) → Map K V → ℕ
total w [] = 0
total w ((k, v) ∷ m) = w k v + total w m

-- The weight of the entry that a lookup finds.
abbrev pub weight_at {ℓ κ} : {K : Type ℓ} {V : Type κ} → (K → V → ℕ) → K → Option V → ℕ
weight_at w k none = 0
weight_at w k (some v) = w k v
