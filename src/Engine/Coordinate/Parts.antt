-- ===== src/Engine/Coordinate/Parts.antt =====
-- The parts of a split command suit `coordinate`: their owners exist and ascend, and their operations
-- are those that `combine` takes.
use mathlib.Core.Path.{subst}
use native.Mathlib.Nat.{mod-lt}
use recall.Prelude.{
  ℕ, suc, ◌<◌, ◌≡◌, refl, List, [], ◌∷◌, map, Bytes, ◌==◌, ltb, Bool-cases, inl, inr,
}
use recall.Run.{ok, IfReturns, holds, panics, IfReturns-value}
use recall.Command.{Operation, keys}
use recall.Engine.{
  Part, Groups, push, group, enumerate, key_part, pair_part, split_keys, split_pairs, split, route,
}
use recall.Engine.Groups.{Every}
use recall.Engine.Routed.{Placed, Routed, Aligned, split_keys-IsSplit, split_pairs-IsSplit}
use recall.Engine.Coordinate.Phases.{Ascends}
use recall.Engine.Coordinate.Combine.{Combines}

-- Every part is of an owner that exists.
abbrev pub Owned : ℕ → List Part → Type 0
Owned owners parts = Every (λ p. p.owner < owners) parts

Routed-Ascends :
    (hash : Bytes → ℕ) (owners low : ℕ) (parts : List Part)
    → Routed hash owners low parts
    → Ascends low parts
unfolding Routed Ascends
Routed-Ascends hash owners low [] r = tt
Routed-Ascends hash owners low (p ∷ ps) r = (r.0, Routed-Ascends hash owners (suc p.owner) ps r.2)

module _ {ℓ} {A : Type ℓ} (owners : ℕ) (owner_of : A → ℕ)
    (each : (x : A) → owner_of x < owners) where
  abbrev Below : Groups A → Type 0
  Below = Every (λ g. g.0 < owners)

  push-Below : (x : A) (groups : Groups A) → Below groups → Below (push (owner_of x) x groups)
  unfolding push Every
  push-Below x [] b = (each x, tt)
  push-Below x ((o, items) ∷ rest) b = elim (Bool-cases (owner_of x == o)) [
    | inl same ↦ rw same b
    | inr other ↦ elim (Bool-cases (ltb (owner_of x) o)) [
      | inl less ↦ rw (other, less) (each x, b)
      | inr more ↦ rw (other, more) (b.0, push-Below x rest b.1)
    ]
  ]

  group-Below :
      (items : List A) (groups : Groups A) → Below groups → Below (group owner_of items groups)
  unfolding group
  group-Below [] groups b = b
  group-Below (x ∷ xs) groups b =
      group-Below xs (push (owner_of x) x groups) (push-Below x groups b)

module _ (hash : Bytes → ℕ) (owners : ℕ) (some_owner : 0 < owners) where
  route-Below : (key : Bytes) → route hash owners key < owners
  unfolding route
  route-Below key = mod-lt (hash key) some_owner

  key_parts-Owned :
      (operation : List Bytes → Operation) (groups : Groups (Bytes × ℕ))
      → Every (λ g. g.0 < owners) groups
      → Owned owners (map (key_part operation) groups)
  unfolding Every
  key_parts-Owned operation [] b = tt
  key_parts-Owned operation ((o, items) ∷ rest) b = (b.0, key_parts-Owned operation rest b.1)

  pair_parts-Owned :
      (groups : Groups (Bytes × Bytes))
      → Every (λ g. g.0 < owners) groups
      → Owned owners (map pair_part groups)
  unfolding Every
  pair_parts-Owned [] b = tt
  pair_parts-Owned ((o, items) ∷ rest) b = (b.0, pair_parts-Owned rest b.1)

  split_keys-Owned :
      (operation : List Bytes → Operation) (ks : List Bytes)
      → Owned owners (split_keys hash owners operation ks)
  unfolding split_keys Every
  split_keys-Owned operation ks = key_parts-Owned operation _ (
      group-Below owners (λ (i : Bytes × ℕ). route hash owners i.0) (λ i. route-Below i.0)
        (enumerate 0 ks) [] tt)

  split_pairs-Owned : (pairs : List (Bytes × Bytes)) → Owned owners (split_pairs hash owners pairs)
  unfolding split_pairs Every
  split_pairs-Owned pairs = pair_parts-Owned _ (
      group-Below owners (λ (p : Bytes × Bytes). route hash owners p.0) (λ p. route-Below p.0) pairs
        [] tt)

  abbrev Made : (List Bytes → Operation) → Part → Type 0
  Made operation p = (js : List Bytes) × (p.operation ≡ operation js)

  split_keys-Made :
      (operation : List Bytes → Operation) (groups : Groups (Bytes × ℕ))
      → Every (Made operation) (map (key_part operation) groups)
  unfolding Every
  split_keys-Made operation [] = tt
  split_keys-Made operation ((o, items) ∷ rest) =
      ((map (λ i. i.0) items, refl), split_keys-Made operation rest)

  parts-Placed :
      (ks : List Bytes) (parts : List Part)
      → Every (Made Operation.multi_get) parts
      → Aligned ks parts
      → Every
          (λ p.
            (js : List Bytes) × (p.operation ≡ Operation.multi_get js) × Placed ks js p.positions)
          parts
  unfolding Every Aligned keys
  parts-Placed ks [] m a = tt
  parts-Placed ks (p ∷ ps) m a =
      let (js, e) = m.0 in
      ((js, e, subst (λ q. Placed ks (keys q) p.positions) e a.0), parts-Placed ks ps m.1 a.1)

-- What `coordinate` needs to know of the parts.
pub record Suits (operation : Operation) (owners : ℕ) (parts : List Part) : Type 0 where
  pub ascending : Ascends 0 parts
  pub owned : Owned owners parts
  pub combined : Combines operation parts

module _ (hash : Bytes → ℕ) (owners : ℕ) (some_owner : 0 < owners) where
  keys_suit :
      (operation : List Bytes → Operation) (ks : List Bytes)
      → ((ks : List Bytes) → keys (operation ks) ≡ ks)
      → Combines (operation ks) (split_keys hash owners operation ks)
      → Suits (operation ks) owners (split_keys hash owners operation ks)
  keys_suit operation ks same c = record {
    ascending =
        Routed-Ascends hash owners 0 _
          ((split_keys-IsSplit hash owners operation same ks).0.routed);
    owned = split_keys-Owned hash owners some_owner operation ks;
    combined = c;
  }

  split-IfReturns :
      (operation : Operation) → IfReturns (Suits operation owners) (split operation hash owners)
  unfolding split Combines keys split_keys
  split-IfReturns (Operation.multi_set pairs) = holds (record {
    ascending = Routed-Ascends hash owners 0 _ ((split_pairs-IsSplit hash owners pairs).routed);
    owned = split_pairs-Owned hash owners some_owner pairs;
    combined = tt;
  })
  split-IfReturns (Operation.delete ks) = holds (
      keys_suit Operation.delete ks (λ ks. refl)
        (split_keys-Made hash owners some_owner Operation.delete _))
  split-IfReturns (Operation.exists ks) = holds (
      keys_suit Operation.exists ks (λ ks. refl)
        (split_keys-Made hash owners some_owner Operation.exists _))
  split-IfReturns (Operation.multi_get ks) = holds (
      keys_suit Operation.multi_get ks (λ ks. refl)
        (parts-Placed hash owners some_owner ks _
          (split_keys-Made hash owners some_owner Operation.multi_get _)
          ((split_keys-IsSplit hash owners Operation.multi_get (λ ks. refl) ks).1)))
  split-IfReturns (Operation.get key) = panics
  split-IfReturns (Operation.set key value condition expiry) = panics
  split-IfReturns (Operation.increment key amount subtract) = panics
  split-IfReturns (Operation.expire key milliseconds) = panics
  split-IfReturns (Operation.ttl key milliseconds) = panics
  split-IfReturns (Operation.persist key) = panics

  -- A command that is split gets parts that suit it.
  pub split-Suits :
      (operation : Operation) (parts : List Part)
      → split operation hash owners ≡ ok parts
      → Suits operation owners parts
  split-Suits operation parts e = IfReturns-value (split-IfReturns operation) e
