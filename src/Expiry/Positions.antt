-- ===== src/Expiry/Positions.antt =====
-- The map of places: it names each timer's place in the heap, and nothing else. What the index
-- holds is the deadline of each key.
use recall.Prelude.{
  ℕ, ◌<◌, ◌≡◌, Option, some, List, Bytes, bytes_Eq, bytes_eq, bytes_eq_iff, arith, get_or, length,
  exchange, get_or-exchange, length-exchange, get_elem?-get_or, ◌==◌, if◌then◌else◌, Option-cases,
  inl, inr,
}
use mathlib.Core.Option
use recall.Prelude.Int.{ℤ}
use recall.Map.{get, insert}
use recall.Map.Laws.{get-insert}
use recall.Run.{ok}
use recall.Expiry.{Timer, ExpiryIndex, blank, load, swap}

abbrev pub key_at : List Timer → ℕ → Bytes
key_at a i = (get_or a i blank).key

pub record IsIndexed (e : ExpiryIndex) : Type 0 where
  pub keys : (i : ℕ) → i < length e.heap → get (key_at e.heap i) e.positions ≡ some i
  pub places :
      (k : Bytes) (i : ℕ) → get k e.positions ≡ some i → (i < length e.heap) × (key_at e.heap i ≡ k)

-- The deadline of a key, if it has a timer.
unfoldable pub deadline_of : ExpiryIndex → Bytes → Option ℤ
deadline_of e k = Option.map (λ i. (get_or e.heap i blank).deadline) (get k e.positions)

-- The same timers in other places.
pub record SameTimers (a b : ExpiryIndex) : Type 0 where
  pub size : length b.heap ≡ length a.heap
  pub deadlines : (k : Bytes) → deadline_of b k ≡ deadline_of a k

pub load-ok : (a : List Timer) (i : ℕ) → i < length a → load a i ≡ ok (get_or a i blank)
unfolding load
load-ok a i h = rw (get_elem?-get_or a i blank h)

abbrev pub swapped : ExpiryIndex → ℕ → ℕ → ExpiryIndex
swapped e l r =
    let heap = exchange e.heap l r blank in
    record {
      heap = heap;
      positions = insert (key_at heap r) r (insert (key_at heap l) l e.positions);
    }

module _ (e : ExpiryIndex) (l r : ℕ) (hl : l < length e.heap) (hr : r < length e.heap) where
  pub swap-ok : swap e l r ≡ ok (swapped e l r)
  unfolding swap exchange
  swap-ok =
      let size = length-exchange e.heap l r blank in
      rw (
        load-ok e.heap l hl,
        load-ok e.heap r hr,
        load-ok (exchange e.heap l r blank) l (omega (arith, size)),
        load-ok (exchange e.heap l r blank) r (omega (arith, size)),
      )

  -- The exchange, read by place.
  at :
      (c : ℕ)
      → get_or (exchange e.heap l r blank) c blank ≡ (
          if r == c
          then get_or e.heap l blank
          else if l == c
          then get_or e.heap r blank
          else get_or e.heap c blank)
  at c = get_or-exchange e.heap l r c blank hl hr

  key_left : key_at (swapped e l r).heap l ≡ key_at e.heap r
  key_left = ground (arith, at l)

  key_right : key_at (swapped e l r).heap r ≡ key_at e.heap l
  key_right = ground (arith, at r)

  get-swapped :
      (k : Bytes)
      → get k (swapped e l r).positions ≡ (
          if bytes_eq (key_at e.heap l) k
          then some r
          else if bytes_eq (key_at e.heap r) k
          then some l
          else get k e.positions)
  get-swapped k = rw (key_left, key_right, get-insert, get-insert)

  module _ (v : IsIndexed e) where
    pub swapped-keys :
        (i : ℕ)
        → i < length e.heap
        → get (key_at (swapped e l r).heap i) (swapped e l r).positions ≡ some i
    swapped-keys i h = rw get-swapped (
        ground (
          arith,
          at i,
          v.keys i h,
          v.keys l hl,
          v.keys r hr,
          bytes_eq_iff (key_at e.heap l) (key_at (swapped e l r).heap i),
          bytes_eq_iff (key_at e.heap r) (key_at (swapped e l r).heap i),
        ))

    swapped-places :
        (k : Bytes) (i : ℕ)
        → get k (swapped e l r).positions ≡ some i
        → (i < length e.heap) × (key_at (swapped e l r).heap i ≡ k)
    swapped-places k i h = ground (
      arith,
      get-swapped k,
      at i,
      v.places k i,
      v.keys l hl,
      v.keys r hr,
      bytes_eq_iff (key_at e.heap l) k,
      bytes_eq_iff (key_at e.heap r) k,
    )

    pub swapped-IsIndexed : IsIndexed (swapped e l r)
    swapped-IsIndexed =
        let size = length-exchange e.heap l r blank in
        record {
          keys = λ i h. swapped-keys i (rw (← size) h);
          places = λ k i h. let (p, q) = swapped-places k i h in (rw size p, q);
        }

    deadline_of-swapped : (k : Bytes) → deadline_of (swapped e l r) k ≡ deadline_of e k
    unfolding deadline_of
    deadline_of-swapped k =
        let keys_left = bytes_eq_iff (key_at e.heap l) k in
        let keys_right = bytes_eq_iff (key_at e.heap r) k in
        let by_key = get-swapped k in
        elim (Option-cases (get k e.positions)) [
          | inl absent ↦ ground (arith, by_key, v.keys l hl, v.keys r hr, keys_left, keys_right)
          | inr (i, found) ↦ ground (
            arith,
            by_key,
            at l,
            at r,
            at i,
            v.places k i found,
            v.keys l hl,
            v.keys r hr,
            keys_left,
            keys_right,
          )
        ]

    pub swapped-SameTimers : SameTimers e (swapped e l r)
    swapped-SameTimers = record {
      size = length-exchange e.heap l r blank;
      deadlines = deadline_of-swapped;
    }
