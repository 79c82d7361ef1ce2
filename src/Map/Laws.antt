-- ===== src/Map/Laws.antt =====
-- Laws of the maps: lookup after insert and remove, distinct keys, and sums over the entries.
use recall.Prelude.{ℕ, ◌+◌, ◌≡◌, refl, none, some, [], ◌∷◌, Eq, if◌then◌else◌, length, arith}
use recall.Map.{Map, get, remove, insert, Distinct, total, weight_at}

module _ {ℓ κ} {K : Type ℓ} {V : Type κ} ⦃e : Eq K⦄ where
  pub get-remove :
      (k j : K) (m : Map K V) → get j (remove k m) ≡ (if e.beq k j then none else get j m)
  unfolding get remove
  get-remove k j [] = ground arith
  get-remove k j ((i, v) ∷ m) =
      ground (arith, get-remove k j m, e.beq_iff i k, e.beq_iff i j, e.beq_iff k j)

  pub get-insert :
      (k j : K) (v : V) (m : Map K V)
      → get j (insert k v m) ≡ (if e.beq k j then some v else get j m)
  unfolding get insert
  get-insert k j v m = ground (arith, get-remove k j m)

  pub remove-Distinct : (k : K) (m : Map K V) → Distinct m → Distinct (remove k m)
  unfolding remove
  remove-Distinct k [] d = d
  remove-Distinct k ((j, v) ∷ m) d =
      ground (arith, remove-Distinct k m d.1, get-remove k j m, e.beq_iff j k, e.beq_iff k j)

  pub insert-Distinct : (k : K) (v : V) (m : Map K V) → Distinct m → Distinct (insert k v m)
  unfolding insert
  insert-Distinct k v m d = (ground (arith, get-remove k k m, e.beq_iff k k), remove-Distinct k m d)

module _ {ℓ κ} {K : Type ℓ} {V : Type κ} ⦃e : Eq K⦄ where
  remove_absent : (k : K) (m : Map K V) → get k m ≡ none → remove k m ≡ m
  unfolding remove get
  remove_absent k [] h = refl
  remove_absent k ((j, v) ∷ m) h = ground (arith, remove_absent k m)

  pub total-remove :
      (w : K → V → ℕ) (k : K) (m : Map K V)
      → Distinct m
      → total w (remove k m) + weight_at w k (get k m) ≡ total w m
  unfolding remove get total
  total-remove w k [] d = refl
  total-remove w k ((j, v) ∷ m) d =
      ground (arith, total-remove w k m d.1, remove_absent k m, e.beq_iff j k)

  pub total-insert :
      (w : K → V → ℕ) (k : K) (v : V) (m : Map K V)
      → Distinct m
      → total w (insert k v m) + weight_at w k (get k m) ≡ total w m + w k v
  unfolding insert total
  total-insert w k v m d = omega (arith, total-remove w k m d)

  pub length-remove :
      (k : K) (m : Map K V)
      → Distinct m
      → length (remove k m) + weight_at (λ _ _. 1) k (get k m) ≡ length m
  unfolding remove get
  length-remove k [] d = refl
  length-remove k ((j, v) ∷ m) d =
      ground (arith, length-remove k m d.1, remove_absent k m, e.beq_iff j k)

  pub length-insert :
      (k : K) (v : V) (m : Map K V)
      → Distinct m
      → length (insert k v m) + weight_at (λ _ _. 1) k (get k m) ≡ length m + 1
  unfolding insert
  length-insert k v m d = omega (arith, length-remove k m d)
