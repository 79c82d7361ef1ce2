-- ===== src/Engine/Routed.antt =====
-- The parts of a split command: each owner once and in ascending order, the keys of its own only, and
-- the place of each key in the command.
use recall.Prelude.{
  ℕ, suc, ◌+◌, ◌≤◌, ◌≡◌, refl, some, length, List, [], ◌∷◌, map, Bytes, arith, get_elem?, ap,
  Option, ◌<◌,
}
use recall.Run.{Run, Returns, returned, panic}
use recall.Command.{Operation, keys}
use recall.Engine.Groups.{Every, Grouped, group-Grouped, size, size-group}
use recall.Engine.Shares.{
  part_at, own_keys, own_pairs, keys_part, pairs_part, part_at-split_keys, part_at-split_pairs,
}
use recall.Engine.{
  route, Part, Groups, group, enumerate, key_part, pair_part, split_keys, split_pairs, split,
}

-- The keys stand at these places of the command.
unfoldable pub Placed : (command : List Bytes) → List Bytes → List ℕ → Type 0
Placed command [] [] = Unit
Placed command (k ∷ ks) (p ∷ ps) = (get_elem? command p ≡ some k) × Placed command ks ps
Placed command _ _ = ⊥

-- The owners ascend from a bound on, and all keys of a part belong to its owner.
unfoldable pub Routed : (hash : Bytes → ℕ) → (owners low : ℕ) → List Part → Type 0
Routed hash owners low [] = Unit
Routed hash owners low (part ∷ rest) =
    (low ≤ part.owner)
    × Every (λ k. route hash owners k ≡ part.owner) (keys part.operation)
    × Routed hash owners (suc part.owner) rest

-- The positions of each part are the places of its keys in the command.
unfoldable pub Aligned : (command : List Bytes) → List Part → Type 0
Aligned command = Every (λ part. Placed command (keys part.operation) part.positions)

module _ (hash : Bytes → ℕ) (owners : ℕ) where
  IsPlaced : (command : List Bytes) → ℕ → Bytes × ℕ → Type 0
  IsPlaced command o i = (route hash owners i.0 ≡ o) × (get_elem? command i.1 ≡ some i.0)

  enumerate-Every :
      (command rest : List Bytes) (index : ℕ)
      → ((j : ℕ) → get_elem? command (index + j) ≡ get_elem? rest j)
      → Every (λ i. IsPlaced command (route hash owners i.0) i) (enumerate index rest)
  unfolding Every enumerate IsPlaced
  enumerate-Every command [] index h = tt
  enumerate-Every command (k ∷ rest) index h = (
    (refl, shift0 command index (k ∷ rest) h),
    enumerate-Every command rest (index + 1) λ j. shift command index k rest h j,
  )
    where
      shift0 :
          (command : List Bytes) (index : ℕ) (rest : List Bytes)
          → ((j : ℕ) → get_elem? command (index + j) ≡ get_elem? rest j)
          → get_elem? command index ≡ get_elem? rest 0
      shift0 command index rest h = ground (arith, h 0)

      shift :
          (command : List Bytes) (index : ℕ) (k : Bytes) (rest : List Bytes)
          → ((j : ℕ) → get_elem? command (index + j) ≡ get_elem? (k ∷ rest) j)
          → (j : ℕ) → get_elem? command (index + 1 + j) ≡ get_elem? rest j
      shift command index k rest h j =
          let same : index + 1 + j ≡ index + suc j = omega arith in rw same (h (suc j))

  Every-keys :
      (command : List Bytes) (o : ℕ) (items : List (Bytes × ℕ))
      → Every (IsPlaced command o) items
      → Every (λ k. route hash owners k ≡ o) (map (λ i. i.0) items)
        × Placed command (map (λ i. i.0) items) (map (λ i. i.1) items)
  unfolding Every Placed IsPlaced
  Every-keys command o [] h = (tt, tt)
  Every-keys command o (i ∷ items) h =
      let rest = Every-keys command o items h.1 in ((h.0.0, rest.0), (h.0.1, rest.1))

  key_parts :
      (operation : List Bytes → Operation)
      → ((ks : List Bytes) → keys (operation ks) ≡ ks)
      → (command : List Bytes) (low : ℕ) (groups : Groups (Bytes × ℕ))
      → Grouped (IsPlaced command) low groups
      → Routed hash owners low (map (key_part operation) groups)
        × Aligned command (map (key_part operation) groups)
  unfolding Grouped Routed Aligned Every
  key_parts operation same command low [] g = (tt, tt)
  key_parts operation same command low ((o, items) ∷ groups) g =
      let here = Every-keys command o items g.1 in
      let rest = key_parts operation same command (suc o) groups g.2 in
      (
        (g.0, rw (same (map (λ i. i.0) items)) here.0, rest.0),
        (rw (same (map (λ i. i.0) items)) here.1, rest.1),
      )

  pair_keys :
      (o : ℕ) (pairs : List (Bytes × Bytes))
      → Every (λ p. route hash owners p.0 ≡ o) pairs
      → Every (λ k. route hash owners k ≡ o) (map (λ p. p.0) pairs)
  unfolding Every
  pair_keys o [] h = tt
  pair_keys o (p ∷ pairs) h = (h.0, pair_keys o pairs h.1)

  pair_parts :
      (low : ℕ) (groups : Groups (Bytes × Bytes))
      → Grouped (λ o p. route hash owners p.0 ≡ o) low groups
      → Routed hash owners low (map pair_part groups)
  unfolding Grouped Routed keys
  pair_parts low [] g = tt
  pair_parts low ((o, pairs) ∷ groups) g =
      (g.0, pair_keys o pairs g.1, pair_parts (suc o) groups g.2)

  own_owner :
      (pairs : List (Bytes × Bytes))
      → Every (λ p. route hash owners p.0 ≡ route hash owners p.0) pairs
  unfolding Every
  own_owner [] = tt
  own_owner (p ∷ pairs) = (refl, own_owner pairs)

-- The number of keys in all parts.
unfoldable pub count_keys : List Part → ℕ
count_keys [] = 0
count_keys (part ∷ rest) = length (keys part.operation) + count_keys rest

length-map_first :
    {B : Type 0} (items : List (Bytes × B)) → length (map (λ i. i.0) items) ≡ length items
length-map_first [] = refl
length-map_first (i ∷ items) = ap suc (length-map_first items)

length-enumerate : (ks : List Bytes) (index : ℕ) → length (enumerate index ks) ≡ length ks
unfolding enumerate
length-enumerate [] index = refl
length-enumerate (k ∷ ks) index = ap suc (length-enumerate ks (index + 1))

count-key_parts :
    (operation : List Bytes → Operation)
    → ((ks : List Bytes) → keys (operation ks) ≡ ks)
    → (groups : Groups (Bytes × ℕ)) → count_keys (map (key_part operation) groups) ≡ size groups
unfolding count_keys size
count-key_parts operation same [] = refl
count-key_parts operation same ((o, items) ∷ groups) =
    rw (same (map (λ i. i.0) items))
      (omega (arith, length-map_first items, count-key_parts operation same groups))

count-pair_parts :
    (groups : Groups (Bytes × Bytes)) → count_keys (map pair_part groups) ≡ size groups
unfolding count_keys size keys
count-pair_parts [] = refl
count-pair_parts ((o, pairs) ∷ groups) =
    omega (arith, length-map_first pairs, count-pair_parts groups)

-- What a split promises: owners in ascending order, each with keys of its own only; as many keys as
-- the command has; and for each owner the part that is due to it.
pub record IsSplit (hash : Bytes → ℕ) (owners : ℕ) (command : List Bytes) (due : ℕ → Option Part)
    (parts : List Part) : Type 0 where
  pub routed : Routed hash owners 0 parts
  pub count : count_keys parts ≡ length command
  pub shares : (o : ℕ) → part_at o parts ≡ due o

-- The part due to an owner of keys: the command on those of its keys that belong to the owner, in
-- their order and each as often as it is named, with their places; none where it has no key.
abbrev pub due_keys :
    (hash : Bytes → ℕ) → ℕ → (List Bytes → Operation) → List Bytes → ℕ → Option Part
due_keys hash owners operation ks o =
    keys_part hash owners o operation (own_keys hash owners o 0 ks)

-- The part due to an owner of pairs, without places.
abbrev pub due_pairs : (hash : Bytes → ℕ) → ℕ → List (Bytes × Bytes) → ℕ → Option Part
due_pairs hash owners pairs o = pairs_part hash owners o (own_pairs hash owners o pairs)

module _ (hash : Bytes → ℕ) (owners : ℕ) where
  pub split_keys-IsSplit :
      (operation : List Bytes → Operation)
      → ((ks : List Bytes) → keys (operation ks) ≡ ks)
      → (ks : List Bytes)
      → IsSplit hash owners ks
          (due_keys hash owners operation ks)
          (split_keys hash owners operation ks)
        × Aligned ks (split_keys hash owners operation ks)
  unfolding split_keys Grouped size
  split_keys-IsSplit operation same ks =
      let owner_of = λ (i : Bytes × ℕ). route hash owners i.0 in
      let grouped =
        group-Grouped (IsPlaced hash owners ks) owner_of (enumerate 0 ks) []
          (enumerate-Every hash owners ks ks 0 λ j. let e : 0 + j ≡ j = omega arith in rw e refl)
          tt in
      let done =
        key_parts hash owners operation same ks 0 (group owner_of (enumerate 0 ks) []) grouped in
      (
        record {
          routed = done.0;
          count = omega (
            arith,
            count-key_parts operation same (group owner_of (enumerate 0 ks) []),
            size-group owner_of (enumerate 0 ks) [],
            length-enumerate ks 0,
          );
          shares = λ o. part_at-split_keys hash owners o operation ks;
        },
        done.1,
      )

  pub split_pairs-IsSplit :
      (pairs : List (Bytes × Bytes))
      → IsSplit hash owners
          (map (λ p. p.0) pairs)
          (due_pairs hash owners pairs)
          (split_pairs hash owners pairs)
  unfolding split_pairs Grouped size
  split_pairs-IsSplit pairs =
      let owner_of = λ (p : Bytes × Bytes). route hash owners p.0 in
      record {
        routed = pair_parts hash owners 0 (group owner_of pairs []) (
            group-Grouped (λ o p. route hash owners p.0 ≡ o) owner_of pairs []
              (own_owner hash owners pairs) tt);
        count = omega (
          arith,
          count-pair_parts (group owner_of pairs []),
          size-group owner_of pairs [],
          length-map_first pairs,
        );
        shares = λ o. part_at-split_pairs hash owners o pairs;
      }

-- What a split of each command on several keys promises. The parts of MSET carry no positions.
unfoldable pub SplitWell : (hash : Bytes → ℕ) → (owners : ℕ) → Operation → Run (List Part) → Type 0
SplitWell hash owners (Operation.multi_set pairs) r =
    Returns (IsSplit hash owners (map (λ p. p.0) pairs) (due_pairs hash owners pairs)) r
SplitWell hash owners (Operation.delete ks) r =
    Returns
      (λ parts.
        IsSplit hash owners ks (due_keys hash owners Operation.delete ks) parts × Aligned ks parts)
      r
SplitWell hash owners (Operation.exists ks) r =
    Returns
      (λ parts.
        IsSplit hash owners ks (due_keys hash owners Operation.exists ks) parts × Aligned ks parts)
      r
SplitWell hash owners (Operation.multi_get ks) r =
    Returns
      (λ parts.
        IsSplit hash owners ks (due_keys hash owners Operation.multi_get ks) parts
        × Aligned ks parts)
      r
SplitWell hash owners _ r = r ≡ panic

-- Where there is an owner, DEL, EXISTS, MGET and MSET are split into parts whose owners ascend, so
-- that each owner is named once and in the order of reservation. The part of an owner is the same
-- command on exactly those keys, or pairs, of the command that belong to the owner, in their order
-- and each as often as it is given, and an owner of none has no part; the parts have as many keys
-- together as the command. The positions of a part of DEL, EXISTS or MGET are the places of its keys
-- in the command, and a part of MSET has none. An operation on one key is not split: that is fatal.
pub split-SplitWell :
    (hash : Bytes → ℕ) (owners : ℕ) (operation : Operation)
    → 0 < owners
    → SplitWell hash owners operation (split operation hash owners)
unfolding SplitWell split keys
split-SplitWell hash owners (Operation.multi_set pairs) some_owner =
    returned (split_pairs-IsSplit hash owners pairs)
split-SplitWell hash owners (Operation.delete ks) some_owner =
    returned (split_keys-IsSplit hash owners Operation.delete (λ ks. refl) ks)
split-SplitWell hash owners (Operation.exists ks) some_owner =
    returned (split_keys-IsSplit hash owners Operation.exists (λ ks. refl) ks)
split-SplitWell hash owners (Operation.multi_get ks) some_owner =
    returned (split_keys-IsSplit hash owners Operation.multi_get (λ ks. refl) ks)
split-SplitWell hash owners (Operation.get key) some_owner = refl
split-SplitWell hash owners (Operation.set key v condition expiry) some_owner = refl
split-SplitWell hash owners (Operation.increment key amount subtract) some_owner = refl
split-SplitWell hash owners (Operation.expire key milliseconds) some_owner = refl
split-SplitWell hash owners (Operation.ttl key milliseconds) some_owner = refl
split-SplitWell hash owners (Operation.persist key) some_owner = refl
