-- ===== src/Engine.antt =====
-- How the engine of crates/recall-server/src/engine.rs routes keys to owners and splits a command on
-- several keys into a part for each owner. The hash is a parameter.
pub mod Groups
pub mod Routed
pub mod Shares
pub mod Owner
pub mod Coordinate
pub mod Admission
mod Tests
use recall.Prelude.{ℕ, ◌+◌, ◌%◌, List, [], ◌∷◌, ◌++◌, map, Bytes, ltb, ◌==◌, if◌then◌else◌}
use recall.Run.{Run, ok, panic}
use recall.Command.{Operation}

-- `route`; the number of owners is not zero.
unfoldable pub route : (hash : Bytes → ℕ) → (owners : ℕ) → Bytes → ℕ
route hash owners key = hash key % owners

pub record Part : Type 0 where
  pub owner : ℕ
  pub operation : Operation
  pub positions : List ℕ

-- The ordered map of `split`: the owners in ascending order, each with what it gets.
abbrev pub Groups {ℓ} : Type ℓ → Type ℓ
Groups A = List (ℕ × List A)

-- `groups.entry(owner).or_default()`, and the push on it
unfoldable pub push {ℓ} : {A : Type ℓ} → ℕ → A → Groups A → Groups A
push owner item [] = (owner, item ∷ []) ∷ []
push owner item ((o, items) ∷ rest) =
    let later = push owner item rest in
    if owner == o
    then (o, items ++ item ∷ []) ∷ rest
    else if ltb owner o
    then (owner, item ∷ []) ∷ (o, items) ∷ rest
    else (o, items) ∷ later

-- The loops of `split`, over what is left of the items.
unfoldable pub group {ℓ} : {A : Type ℓ} → (A → ℕ) → List A → Groups A → Groups A
group owner_of [] groups = groups
group owner_of (item ∷ rest) groups = group owner_of rest (push (owner_of item) item groups)

-- `keys.iter().enumerate()`, from an index on
unfoldable pub enumerate : ℕ → List Bytes → List (Bytes × ℕ)
enumerate index [] = []
enumerate index (key ∷ rest) = (key, index) ∷ enumerate (index + 1) rest

abbrev pub key_part : (List Bytes → Operation) → ℕ × List (Bytes × ℕ) → Part
key_part operation (owner, items) = record {
  owner = owner;
  operation = operation (map (λ i. i.0) items);
  positions = map (λ i. i.1) items;
}

abbrev pub pair_part : ℕ × List (Bytes × Bytes) → Part
pair_part (owner, pairs) = record {
  owner = owner;
  operation = Operation.multi_set pairs;
  positions = [];
}

unfoldable pub split_keys :
    (hash : Bytes → ℕ) → (owners : ℕ) → (List Bytes → Operation) → List Bytes → List Part
split_keys hash owners operation keys =
    map (key_part operation) (group (λ i. route hash owners i.0) (enumerate 0 keys) [])

unfoldable pub split_pairs : (hash : Bytes → ℕ) → (owners : ℕ) → List (Bytes × Bytes) → List Part
split_pairs hash owners pairs = map pair_part (group (λ p. route hash owners p.0) pairs [])

-- `split`; an operation on one key aborts the process.
unfoldable pub split : Operation → (hash : Bytes → ℕ) → (owners : ℕ) → Run (List Part)
split (Operation.multi_set pairs) hash owners = ok (split_pairs hash owners pairs)
split (Operation.delete keys) hash owners = ok (split_keys hash owners Operation.delete keys)
split (Operation.exists keys) hash owners = ok (split_keys hash owners Operation.exists keys)
split (Operation.multi_get keys) hash owners = ok (split_keys hash owners Operation.multi_get keys)
split _ hash owners = panic
