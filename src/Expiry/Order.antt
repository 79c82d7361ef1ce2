-- ===== src/Expiry/Order.antt =====
-- The heap order of the deadlines, and the shapes it takes while one timer is out of place.
use recall.Prelude.{ℕ, zero, suc, ◌<◌, ◌≡◌, ◌≢◌, List, arith, get_or, length}
use recall.Prelude.Int.{ℤ, ◌≤ℤ◌}
use recall.Expiry.{Timer, blank, parent}

abbrev pub due : List Timer → ℕ → ℤ
due a i = (get_or a i blank).deadline

-- No timer is due before its parent.
abbrev pub IsHeap : List Timer → Type 0
IsHeap a = (c : ℕ) → 0 < c → c < length a → due a (parent c) ≤ℤ due a c

-- The edges past `i`, from its parent to its children, are in order.
abbrev pub IsBridged : List Timer → ℕ → Type 0
IsBridged a i = (c : ℕ) → 0 < c → c < length a → parent c ≡ i → 0 < i → due a (parent i) ≤ℤ due a c

-- Only the edges at `i` may be out of order; where `B` holds, those below it are in order.
pub record RiseHole (B : Type 0) (a : List Timer) (i : ℕ) : Type 0 where
  pub inside : i < length a
  pub edges : (c : ℕ) → 0 < c → c < length a → c ≢ i → parent c ≢ i → due a (parent c) ≤ℤ due a c
  pub bridged : IsBridged a i
  pub below : B → (c : ℕ) → 0 < c → c < length a → parent c ≡ i → due a i ≤ℤ due a c

-- Only the edges below `i` may be out of order; where `B` holds, none is.
pub record SinkHole (B : Type 0) (a : List Timer) (i : ℕ) : Type 0 where
  pub inside : i < length a
  pub edges : (c : ℕ) → 0 < c → c < length a → parent c ≢ i → due a (parent c) ≤ℤ due a c
  pub bridged : IsBridged a i
  pub below : B → (c : ℕ) → 0 < c → c < length a → parent c ≡ i → due a i ≤ℤ due a c

root_below : (k : ℕ) (a : List Timer) (i : ℕ) → IsHeap a → i < k → i < length a → due a 0 ≤ℤ due a i
root_below zero a i h f p = absurd (omega arith)
root_below (suc k) a zero h f p = omega arith
root_below (suc k) a (suc i) h f p = omega (
  arith,
  h (suc i) (omega arith) p,
  root_below k a (parent (suc i)) h (omega arith) (omega arith),
)

-- The root of a heap is due first.
pub root_least : (a : List Timer) (i : ℕ) → IsHeap a → i < length a → due a 0 ≤ℤ due a i
root_least a i h p = root_below (suc i) a i h (omega arith) p
