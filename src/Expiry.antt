-- ===== src/Expiry.antt =====
-- The index of deadlines, `ExpiryIndex` of crates/recall-core/src/expiry.rs: a binary min-heap of
-- timers in a vector, beside a map from each key to its place in the heap. Methods take the index
-- and return the new one; an index out of bounds panics.
pub mod Order
pub mod Positions
pub mod Sift
pub mod Update
pub mod Removal
mod Tests
use recall.Prelude.{
  ℕ, zero, suc, ◌+◌, ◌-◌, ◌*◌, ◌/◌, Bool, ◌&&◌, Option, none, some, List, [], ◌∷◌, ◌++◌, Bytes,
  bytes_Eq, ltb, leb, if◌then◌else◌, length, get_elem?, set, take,
}
use recall.Prelude.Int.{ℤ, pos, leb_ℤ, ltb_ℤ, pos_part, neg_part}
use recall.Map.{Map, get, insert, remove}
use recall.Run.{Run, ok, panic, out_of_fuel, ◌>>=◌, or_else}

pub record Timer : Type 0 where
  pub key : Bytes
  pub deadline : ℤ

pub record ExpiryIndex : Type 0 where
  pub heap : List Timer
  pub positions : Map Bytes ℕ

-- What a read out of bounds would give in the proofs.
abbrev pub blank : Timer
blank = record { key = []; deadline = pos 0 }

-- `new`; the reservation of capacity is the caller's.
abbrev pub new : ExpiryIndex
new = record { heap = []; positions = [] }

abbrev pub len : ExpiryIndex → ℕ
len e = length e.heap

-- `heap[i]`
unfoldable pub load : List Timer → ℕ → Run Timer
load a i = or_else (get_elem? a i) panic

-- `ExpiryIndex::swap`
unfoldable pub swap : ExpiryIndex → ℕ → ℕ → Run ExpiryIndex
swap e left right = do
  x ← load e.heap left
  y ← load e.heap right
  let heap = set (set e.heap left y) right x
  l ← load heap left
  r ← load heap right
  ok (record { heap = heap; positions = insert r.key right (insert l.key left e.positions) })

abbrev pub parent : ℕ → ℕ
parent c = (c - 1) / 2

-- `ExpiryIndex::up`, on fuel.
unfoldable pub up_loop : ℕ → ExpiryIndex → ℕ → Run (ExpiryIndex × ℕ)
up_loop zero e index = out_of_fuel
up_loop (suc fuel) e index =
    let rise = swap e (parent index) index >>= λ e'. up_loop fuel e' (parent index) in
    let step : Run (ExpiryIndex × ℕ) = do
      above ← load e.heap (parent index)
      here ← load e.heap index
      if leb_ℤ above.deadline here.deadline then ok (e, index) else rise
    in if ltb 0 index then step else ok (e, index)

unfoldable pub up : ExpiryIndex → ℕ → Run (ExpiryIndex × ℕ)
unfolding up_loop
up e index = up_loop (index + 1) e index

-- The child that `down` compares with: the left one, or a right one that is strictly earlier.
unfoldable pub earlier_child : List Timer → ℕ → Run ℕ
earlier_child heap index =
    let left = index * 2 + 1 in
    let right = left + 1 in
    if ltb right (length heap)
    then (do
      r ← load heap right
      l ← load heap left
      ok (if ltb_ℤ r.deadline l.deadline then right else left))
    else ok left

-- `ExpiryIndex::down`, on fuel.
unfoldable pub down_loop : ℕ → ExpiryIndex → ℕ → Run ExpiryIndex
down_loop zero e index = out_of_fuel
down_loop (suc fuel) e index =
    let step : Run ExpiryIndex = do
      child ← earlier_child e.heap index
      here ← load e.heap index
      below ← load e.heap child
      let sink = swap e index child >>= λ e'. down_loop fuel e' child
      if leb_ℤ here.deadline below.deadline then ok e else sink
    in if leb (length e.heap) (index * 2 + 1) then ok e else step

unfoldable pub down : ExpiryIndex → ℕ → Run ExpiryIndex
unfolding down_loop earlier_child
down e index = down_loop (length e.heap + 1) e index

-- `ExpiryIndex::set`
unfoldable pub set_timer : ExpiryIndex → Bytes → ℤ → Run ExpiryIndex
set_timer e key deadline = elim (get key e.positions) [
  | some index ↦ do
    t ← load e.heap index
    let e' = record e { heap = set e.heap index (record t { deadline = deadline }) }
    moved ← up e' index
    down moved.0 moved.1
  | none ↦ do
    let index = length e.heap
    let timer : Timer = record { key = key; deadline = deadline }
    moved ←
        up (record { heap = e.heap ++ timer ∷ []; positions = insert key index e.positions }) index
    ok moved.0
]

-- `Vec::swap_remove`: the last element takes the place of the one that leaves.
unfoldable pub swap_remove : List Timer → ℕ → Run (List Timer)
swap_remove heap index = do
  here ← load heap index
  last ← load heap (length heap - 1)
  ok (take (length heap - 1) (set heap index last))

-- `ExpiryIndex::remove`
unfoldable pub remove_timer : ExpiryIndex → Bytes → Run ExpiryIndex
remove_timer e key = elim (get key e.positions) [
  | none ↦ ok e
  | some index ↦ do
    let positions = remove key e.positions
    heap ← swap_remove e.heap index
    let moved_in : Run ExpiryIndex = do
      t ← load heap index
      moved ← up (record { heap = heap; positions = insert t.key index positions }) index
      down moved.0 moved.1
    if ltb index (length heap) then moved_in else ok (record { heap = heap; positions = positions })
]

-- `ExpiryIndex::expired`
unfoldable pub expired : ExpiryIndex → ℤ → Option Bytes
expired e now = elim e.heap [
  | [] ↦ none
  | timer ∷ rest ↦ if leb_ℤ timer.deadline now then some timer.key else none
]
