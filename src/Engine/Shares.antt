-- ===== src/Engine/Shares.antt =====
-- The keys and pairs of a command that belong to one owner, read off the command, against the part of
-- that owner in what `split` of crates/recall-server/src/engine.rs builds.
use recall.Prelude.{
  ℕ, ◌+◌, ◌≡◌, refl, ap, Option, none, some, List, [], ◌∷◌, map, Bytes, ◌==◌, Bool-cases, inl, inr,
  if◌then◌else◌, ◌∙◌, arith,
}
use recall.Command.{Operation}
use recall.Engine.{
  route, Part, Groups, group, enumerate, key_part, pair_part, split_keys, split_pairs,
}
use recall.Engine.Groups.{Grouped, group_at, share, joined, group_at-group}

-- The part of an owner.
unfoldable pub part_at : ℕ → List Part → Option Part
part_at o [] = none
part_at o (part ∷ rest) = let later = part_at o rest in if part.owner == o then some part else later

module _ (hash : Bytes → ℕ) (owners o : ℕ) where
  -- The keys of an owner and where they stand in the command, from an index on.
  unfoldable pub own_keys : ℕ → List Bytes → List (Bytes × ℕ)
  own_keys index [] = []
  own_keys index (k ∷ ks) =
      let later = own_keys (index + 1) ks in
      if route hash owners k == o then (k, index) ∷ later else later

  -- The pairs of an owner.
  unfoldable pub own_pairs : List (Bytes × Bytes) → List (Bytes × Bytes)
  own_pairs [] = []
  own_pairs (p ∷ ps) =
      let later = own_pairs ps in if route hash owners p.0 == o then p ∷ later else later

  -- The part that an owner of keys is to get: the command on these keys, with their places. An owner
  -- of none gets no part.
  unfoldable pub keys_part : (List Bytes → Operation) → List (Bytes × ℕ) → Option Part
  keys_part operation [] = none
  keys_part operation (i ∷ items) = some (record {
    owner = o;
    operation = operation (i.0 ∷ map (λ j. j.0) items);
    positions = i.1 ∷ map (λ j. j.1) items;
  })

  unfoldable pub pairs_part : List (Bytes × Bytes) → Option Part
  pairs_part [] = none
  pairs_part (p ∷ pairs) =
      some (record { owner = o; operation = Operation.multi_set (p ∷ pairs); positions = [] })

  share-enumerate :
      (index : ℕ) (ks : List Bytes)
      → share (λ (i : Bytes × ℕ). route hash owners i.0) o (enumerate index ks) ≡ own_keys index ks
  unfolding share enumerate own_keys
  share-enumerate index [] = refl
  share-enumerate index (k ∷ ks) = rw (share-enumerate (index + 1) ks) refl

  share-pairs :
      (pairs : List (Bytes × Bytes))
      → share (λ (p : Bytes × Bytes). route hash owners p.0) o pairs ≡ own_pairs pairs
  unfolding share own_pairs
  share-pairs [] = refl
  share-pairs (p ∷ ps) = rw (share-pairs ps) refl

  -- A part built of the group of an owner.
  built : {A : Type 0} → (ℕ × List A → Part) → Option (List A) → Option Part
  built part none = none
  built part (some items) = some (part (o, items))

  part_at-map :
      {A : Type 0} (part : ℕ × List A → Part)
      → ((p : ℕ) (items : List A) → (part (p, items)).owner ≡ p)
      → (groups : Groups A) → part_at o (map part groups) ≡ built part (group_at o groups)
  unfolding part_at group_at built
  part_at-map part own [] = refl
  part_at-map part own ((p, items) ∷ groups) = elim (Bool-cases (p == o)) [
    | inl here ↦
        let test = ap (λ q. q == o) (own p items) ∙ here in
        let same : p ≡ o = ground (arith, here) in
        rw (test, here) (ap (λ q. some (part (q, items))) same)
    | inr there ↦
        let test = ap (λ q. q == o) (own p items) ∙ there in
        rw (test, there) (part_at-map part own groups)
  ]

  built-keys :
      (operation : List Bytes → Operation) (items : List (Bytes × ℕ))
      → built (key_part operation) (joined none items) ≡ keys_part operation items
  unfolding built joined keys_part
  built-keys operation [] = refl
  built-keys operation (i ∷ items) = refl

  built-pairs :
      (pairs : List (Bytes × Bytes)) → built pair_part (joined none pairs) ≡ pairs_part pairs
  unfolding built joined pairs_part
  built-pairs [] = refl
  built-pairs (p ∷ pairs) = refl

  pub part_at-split_keys :
      (operation : List Bytes → Operation) (ks : List Bytes)
      → part_at o (split_keys hash owners operation ks) ≡ keys_part operation (own_keys 0 ks)
  unfolding split_keys Grouped group_at
  part_at-split_keys operation ks =
      let owner_of = λ (i : Bytes × ℕ). route hash owners i.0 in
      part_at-map (key_part operation) (λ p items. refl) (group owner_of (enumerate 0 ks) [])
      ∙ ap (built (key_part operation)) (group_at-group o owner_of (enumerate 0 ks) [] tt)
      ∙ built-keys operation (share owner_of o (enumerate 0 ks))
      ∙ ap (keys_part operation) (share-enumerate 0 ks)

  pub part_at-split_pairs :
      (pairs : List (Bytes × Bytes))
      → part_at o (split_pairs hash owners pairs) ≡ pairs_part (own_pairs pairs)
  unfolding split_pairs Grouped group_at
  part_at-split_pairs pairs =
      let owner_of = λ (p : Bytes × Bytes). route hash owners p.0 in
      part_at-map pair_part (λ p items. refl) (group owner_of pairs [])
      ∙ ap (built pair_part) (group_at-group o owner_of pairs [] tt)
      ∙ built-pairs (share owner_of o pairs)
      ∙ ap pairs_part (share-pairs pairs)
