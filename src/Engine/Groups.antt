-- ===== src/Engine/Groups.antt =====
-- Grouping items by owner: the owners ascend, and the group of each owner has the items of that
-- owner, each as often as it is given and in the order given.
use recall.Prelude.{
  ℕ, suc, ◌+◌, ◌≤◌, ◌≡◌, refl, List, [], ◌∷◌, ◌++◌, arith, length, length-append, Bool-cases, inl,
  inr, ◌==◌, ltb, Option, none, some, false, ◌<◌, ap, sym, ◌∙◌, if◌then◌else◌,
}
use recall.Engine.{Groups, push, group}

module _ {ℓ} {A : Type ℓ} where
  -- All items of a list satisfy `P`.
  unfoldable pub Every {κ} : (A → Type κ) → List A → Type κ
  Every P [] = Unit
  Every P (x ∷ xs) = P x × Every P xs

  pub Every-append {κ} :
      (P : A → Type κ) (xs : List A) (x : A) → Every P xs → P x → Every P (xs ++ x ∷ [])
  unfolding Every
  Every-append P [] x h p = (p, tt)
  Every-append P (y ∷ ys) x h p = (h.0, Every-append P ys x h.1 p)

  -- The owners lie above a bound and ascend, and each item satisfies `P` with its owner.
  unfoldable pub Grouped {κ} : (ℕ → A → Type κ) → ℕ → Groups A → Type κ
  Grouped P low [] = Unit
  Grouped P low ((o, items) ∷ rest) = (low ≤ o) × Every (P o) items × Grouped P (suc o) rest

  push-Grouped {κ} :
      (P : ℕ → A → Type κ) (low owner : ℕ) (item : A) (groups : Groups A)
      → low ≤ owner
      → P owner item
      → Grouped P low groups
      → Grouped P low (push owner item groups)
  unfolding push Grouped Every
  push-Grouped P low owner item [] h p g = (h, (p, tt), tt)
  push-Grouped P low owner item ((o, items) ∷ rest) h p g = elim (Bool-cases (owner == o)) [
    | inl same ↦
        let e : owner ≡ o = ground (arith, same) in
        rw same (g.0, Every-append (P o) items item g.1 (rw (← e) p), g.2)
    | inr other ↦ elim (Bool-cases (ltb owner o)) [
      | inl less ↦ rw (other, less) (h, (p, tt), (ground (arith, less), g.1, g.2))
      | inr more ↦
          rw (other, more)
            (g.0, g.1, push-Grouped P (suc o) owner item rest (ground (arith, other, more)) p g.2)
    ]
  ]

  pub group-Grouped {κ} :
      (P : ℕ → A → Type κ) (owner_of : A → ℕ) (items : List A) (groups : Groups A)
      → Every (λ x. P (owner_of x) x) items
      → Grouped P 0 groups
      → Grouped P 0 (group owner_of items groups)
  unfolding group Every
  group-Grouped P owner_of [] groups h g = g
  group-Grouped P owner_of (x ∷ xs) groups h g =
      group-Grouped P owner_of xs (push (owner_of x) x groups) h.1
        (push-Grouped P 0 (owner_of x) x groups (omega arith) h.0 g)

  -- The number of items in all groups.
  unfoldable pub size : Groups A → ℕ
  size [] = 0
  size ((o, items) ∷ rest) = length items + size rest

  size-push :
      (owner : ℕ) (item : A) (groups : Groups A) → size (push owner item groups) ≡ size groups + 1
  unfolding push size
  size-push owner item [] = refl
  size-push owner item ((o, items) ∷ rest) =
      ground (arith, size-push owner item rest, length-append items (item ∷ []))

  pub size-group :
      (owner_of : A → ℕ) (items : List A) (groups : Groups A)
      → size (group owner_of items groups) ≡ size groups + length items
  unfolding group
  size-group owner_of [] groups = omega arith
  size-group owner_of (x ∷ xs) groups =
      omega (
        arith,
        size-group owner_of xs (push (owner_of x) x groups),
        size-push (owner_of x) x groups,
      )

  -- The group of an owner.
  unfoldable pub group_at : ℕ → Groups A → Option (List A)
  group_at o [] = none
  group_at o ((owner, items) ∷ rest) =
      let later = group_at o rest in if owner == o then some items else later

  -- The items of a list that belong to an owner.
  unfoldable pub share : (A → ℕ) → ℕ → List A → List A
  share owner_of o [] = []
  share owner_of o (x ∷ xs) =
      let later = share owner_of o xs in if owner_of x == o then x ∷ later else later

  -- A group and what comes to it; there is no empty group.
  unfoldable pub joined : Option (List A) → List A → Option (List A)
  joined none [] = none
  joined none (x ∷ xs) = some (x ∷ xs)
  joined (some items) xs = some (items ++ xs)

  joined-nil : (g : Option (List A)) → joined g [] ≡ g
  unfolding joined
  joined-nil none = refl
  joined-nil (some items) = ap some (append_nil items)
    where
      append_nil : (xs : List A) → xs ++ [] ≡ xs
      append_nil [] = refl
      append_nil (x ∷ xs) = ap (λ ys. x ∷ ys) (append_nil xs)

  joined-joined :
      (g : Option (List A)) (x : A) (xs : List A)
      → joined (joined g (x ∷ [])) xs ≡ joined g (x ∷ xs)
  unfolding joined
  joined-joined none x xs = refl
  joined-joined (some items) x xs = ap some (append_assoc items)
    where
      append_assoc : (ys : List A) → (ys ++ x ∷ []) ++ xs ≡ ys ++ x ∷ xs
      append_assoc [] = refl
      append_assoc (y ∷ ys) = ap (λ zs. y ∷ zs) (append_assoc ys)

  group_at-below {κ} :
      (P : ℕ → A → Type κ) (o low : ℕ) (groups : Groups A)
      → Grouped P low groups
      → o < low
      → group_at o groups ≡ none
  unfolding group_at Grouped
  group_at-below P o low [] g h = refl
  group_at-below P o low ((owner, items) ∷ rest) g h =
      let other : (owner == o) ≡ false = ground (arith, g.0, h) in
      rw other (group_at-below P o (suc owner) rest g.2 (omega (arith, g.0, h)))

  group_at-push {κ} :
      (P : ℕ → A → Type κ) (o low owner : ℕ) (item : A) (groups : Groups A)
      → Grouped P low groups
      → group_at o (push owner item groups)
        ≡ (if owner == o then joined (group_at o groups) (item ∷ []) else group_at o groups)
  unfolding group_at push Grouped joined
  group_at-push P o low owner item [] g = refl
  group_at-push P o low owner item ((p, items) ∷ rest) g = elim (Bool-cases (owner == p)) [
    | inl same ↦
        let e : owner ≡ p = ground (arith, same) in
        rw (same, e)
          (elim (Bool-cases (p == o)) [ inl here ↦ rw here refl | inr there ↦ rw there refl ])
    | inr other ↦ elim (Bool-cases (ltb owner p)) [
      | inl less ↦
          rw (other, less)
            (elim (Bool-cases (owner == o)) [
              | inl here ↦
                  let far : (p == o) ≡ false = ground (arith, here, less) in
                  let above : o < suc p = ground (arith, here, less) in
                  rw (here, far) (rw (group_at-below P o (suc p) rest g.2 above) refl)
              | inr there ↦ rw there refl
            ])
      | inr more ↦
          rw (other, more)
            (elim (Bool-cases (p == o)) [
              | inl here ↦
                  let far : (owner == o) ≡ false = ground (arith, here, other) in
                  rw (here, far) refl
              | inr there ↦ rw there (group_at-push P o (suc p) owner item rest g.2)
            ])
    ]
  ]

  -- Whatever the order of the owners, the group of each is its share of the items.
  pub group_at-group :
      (o : ℕ) (owner_of : A → ℕ) (items : List A) (groups : Groups A)
      → Grouped (λ _ _. Unit {0}) 0 groups
      → group_at o (group owner_of items groups)
        ≡ joined (group_at o groups) (share owner_of o items)
  unfolding group share
  group_at-group o owner_of [] groups g = sym (joined-nil (group_at o groups))
  group_at-group o owner_of (x ∷ xs) groups g =
      let rest =
        group_at-group o owner_of xs (push (owner_of x) x groups)
          (push-Grouped (λ _ _. Unit {0}) 0 (owner_of x) x groups (omega arith) tt g) in
      let pushed = group_at-push (λ _ _. Unit {0}) o 0 (owner_of x) x groups g in
      rest ∙ elim (Bool-cases (owner_of x == o)) [
        | inl here ↦ rw (pushed, here) (joined-joined (group_at o groups) x (share owner_of o xs))
        | inr there ↦ rw (pushed, there) refl
      ]
