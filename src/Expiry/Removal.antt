-- ===== src/Expiry/Removal.antt =====
-- `remove` takes out one key's timer, and `expired` names a key that is due first.
use recall.Prelude.{
  ℕ, ◌+◌, ◌-◌, ◌<◌, ◌≡◌, refl, ◌∙◌, inl, inr, Option, none, some, List, Bytes, bytes_Eq, bytes_eq,
  bytes_eq_iff, arith, ◌==◌, get_or, set, take, length, get_or-set, length-set, get_or-take,
  length-take, if◌then◌else◌, Option-cases, ltb,
}
use recall.Prelude.Int.{ℤ, ◌≤ℤ◌, leb_ℤ}
use recall.Map.{get, insert, remove}
use recall.Map.Laws.{get-insert, get-remove}
use recall.Run.{ok, Returns, returned, Returns-weaken, Returns-branch}
use recall.Expiry.{Timer, ExpiryIndex, blank, parent, remove_timer, swap_remove, expired}
use recall.Expiry.Order.{due, IsHeap, RiseHole, root_least}
use recall.Expiry.Positions.{IsIndexed, deadline_of, key_at, load-ok}
use recall.Expiry.Update.{IsValid, one_if_some, Updated, settle}

module _ (e : ExpiryIndex) (v : IsValid e) (k : Bytes) (i : ℕ)
    (found : get k e.positions ≡ some i) where
  abbrev final : ℕ
  final = length e.heap - 1

  abbrev cut : List Timer
  cut = take final (set e.heap i (get_or e.heap final blank))

  inside : i < length e.heap
  inside = (v.indexed.places k i found).0

  swap_remove-ok : swap_remove e.heap i ≡ ok cut
  unfolding swap_remove
  swap_remove-ok = rw (load-ok e.heap i inside, load-ok e.heap final (omega (arith, inside)))

  size_cut : length cut ≡ final
  size_cut =
      length-take final (set e.heap i (get_or e.heap final blank))
        (omega (arith, length-set e.heap i (get_or e.heap final blank)))

  at :
      (c : ℕ)
      → c < final
      → get_or cut c blank ≡ (if i == c then get_or e.heap final blank else get_or e.heap c blank)
  at c h =
      rw (get_or-take final (set e.heap i (get_or e.heap final blank)) c blank h)
        (get_or-set e.heap i c (get_or e.heap final blank) blank inside)

  key_here : key_at e.heap i ≡ k
  key_here = (v.indexed.places k i found).1

  module _ (moves : i < final) where
    abbrev refilled : ExpiryIndex
    refilled = record { heap = cut; positions = insert (key_at cut i) i (remove k e.positions) }

    at_here : get_or cut i blank ≡ get_or e.heap final blank
    at_here = ground (arith, at i moves)

    get-refilled :
        (j : Bytes)
        → get j refilled.positions ≡ (
            if bytes_eq (key_at e.heap final) j
            then some i
            else if bytes_eq k j
            then none
            else get j e.positions)
    get-refilled j = ground (
      arith,
      at_here,
      get-insert (key_at cut i) j i (remove k e.positions),
      get-remove k j e.positions,
    )

    refilled-IsIndexed : IsIndexed refilled
    refilled-IsIndexed = record {
      keys = λ c h. ground (
        arith,
        get-refilled (key_at cut c),
        at c,
        size_cut,
        v.indexed.keys c,
        v.indexed.keys final,
        found,
        bytes_eq_iff (key_at e.heap final) (key_at cut c),
        bytes_eq_iff k (key_at cut c),
      );
      places = λ j c h. ground (
        arith,
        get-refilled j,
        at c,
        size_cut,
        v.indexed.places j c,
        found,
        key_here,
        inside,
        moves,
        bytes_eq_iff (key_at e.heap final) j,
        bytes_eq_iff k j,
      );
    }

    refilled-RiseHole : RiseHole ⊥ cut i
    refilled-RiseHole = record {
      inside = omega (arith, size_cut, moves);
      edges = λ c p q r s. ground (arith, at c, at (parent c), size_cut, v.ordered c);
      bridged = λ c p q r s.
          ground (arith, at c, at (parent i), size_cut, v.ordered c, v.ordered i, moves);
      below = λ b. absurd b;
    }

    deadline_of-refilled :
        (j : Bytes) → deadline_of refilled j ≡ (if bytes_eq k j then none else deadline_of e j)
    unfolding deadline_of
    deadline_of-refilled j = rw get-refilled (elim (Option-cases (get j e.positions)) [
      | inl absent ↦ ground (
        arith,
        at_here,
        bytes_eq_iff k j,
        bytes_eq_iff (key_at e.heap final) j,
        v.indexed.keys final,
        found,
      )
      | inr (c, there) ↦ ground (
        arith,
        at_here,
        at c,
        there,
        found,
        key_here,
        v.indexed.places j c there,
        v.indexed.keys final,
        bytes_eq_iff k j,
        bytes_eq_iff (key_at e.heap final) j,
      )
    ])

  module _ (stays : ¬ (i < final)) where
    abbrev shortened : ExpiryIndex
    shortened = record { heap = cut; positions = remove k e.positions }

    shortened-IsIndexed : IsIndexed shortened
    shortened-IsIndexed = record {
      keys = λ c h.
          rw get-remove (
            ground (arith, at c, size_cut, v.indexed.keys c, found, bytes_eq_iff k (key_at cut c)));
      places = λ j c h. ground (
        arith,
        get-remove k j e.positions,
        at c,
        size_cut,
        v.indexed.places j c,
        key_here,
        inside,
        bytes_eq_iff k j,
      );
    }

    shortened-IsHeap : IsHeap cut
    shortened-IsHeap = λ c p q. ground (arith, at c, at (parent c), size_cut, v.ordered c)

    deadline_of-shortened :
        (j : Bytes) → deadline_of shortened j ≡ (if bytes_eq k j then none else deadline_of e j)
    unfolding deadline_of
    deadline_of-shortened j = rw get-remove (elim (Option-cases (get j e.positions)) [
      | inl absent ↦ ground arith
      | inr (c, there) ↦ ground (
        arith,
        at c,
        there,
        found,
        key_here,
        inside,
        v.indexed.places j c there,
        bytes_eq_iff k j,
      )
    ])

  size_after :
      (a : List Timer)
      → length a ≡ length cut
      → length a + one_if_some (deadline_of e k) ≡ length e.heap + 0
  unfolding deadline_of
  size_after a h = rw found (omega (arith, size_cut, inside))

  remove_timer-existing : Returns (Updated e k none) (remove_timer e k)
  unfolding remove_timer
  remove_timer-existing =
      rw (found, remove_timer, swap_remove-ok)
        (Returns-branch (ltb i (length cut))
          (λ moves.
            let moved : i < final = ground (arith, size_cut) in
            rw (load-ok cut i (omega (arith, size_cut, moved))) (
              Returns-weaken
                (settle (refilled moved) i (refilled-IsIndexed moved) (refilled-RiseHole moved))
                λ r sunk. record {
                  valid = record { indexed = sunk.indexed; ordered = sunk.ordered };
                  deadlines = λ j. sunk.same.deadlines j ∙ deadline_of-refilled moved j;
                  size = size_after r.heap sunk.same.size;
                }))
          (λ last.
            let stays : ¬ (i < final) = ground (arith, size_cut) in
            returned (record {
              valid = record {
                indexed = shortened-IsIndexed stays;
                ordered = shortened-IsHeap stays;
              };
              deadlines = deadline_of-shortened stays;
              size = size_after cut refl;
            })))

-- On a valid index, `remove` ends without an index out of bounds, keeps the index valid, takes out
-- the key's deadline, if it has one, and changes no other.
pub remove_timer-Updated :
    (e : ExpiryIndex) → IsValid e → (k : Bytes) → Returns (Updated e k none) (remove_timer e k)
unfolding remove_timer
remove_timer-Updated e v k = elim (Option-cases (get k e.positions)) [
  | inl missing ↦
      rw (missing, remove_timer)
        (returned (record { valid = v; deadlines = nothing_there missing; size = no_less missing }))
  | inr (i, found) ↦ remove_timer-existing e v k i found
]
  where
    nothing_there :
        get k e.positions ≡ none
        → (j : Bytes) → deadline_of e j ≡ (if bytes_eq k j then none else deadline_of e j)
    nothing_there missing j = unfold deadline_of in ground (arith, missing, bytes_eq_iff k j)

    no_less :
        get k e.positions ≡ none → length e.heap + one_if_some (deadline_of e k) ≡ length e.heap + 0
    no_less missing = unfold deadline_of in rw missing

-- `expired` names a key that is due, and none is due earlier.
pub record IsEarliest (e : ExpiryIndex) (now : ℤ) (k : Bytes) : Type 0 where
  pub deadline : ℤ
  pub held : deadline_of e k ≡ some deadline
  pub late : deadline ≤ℤ now
  pub first : (j : Bytes) (d : ℤ) → deadline_of e j ≡ some d → deadline ≤ℤ d

-- What `expired` answers.
abbrev pub Names : ExpiryIndex → ℤ → Option Bytes → Type 0
Names e now (some k) = IsEarliest e now k
Names e now none = (j : Bytes) (d : ℤ) → deadline_of e j ≡ some d → ¬ (d ≤ℤ now)

module _ (e : ExpiryIndex) (v : IsValid e) where
  due_at :
      (j : Bytes) (d : ℤ)
      → deadline_of e j ≡ some d
      → (i : ℕ) × (i < length e.heap) × (due e.heap i ≡ d)
  unfolding deadline_of
  due_at j d h = elim (Option-cases (get j e.positions)) [
    | inl absent ↦ absurd (ground (arith, absent))
    | inr (i, there) ↦ (i, (v.indexed.places j i there).0, ground (arith, there))
  ]

  root_first : (j : Bytes) (d : ℤ) → deadline_of e j ≡ some d → due e.heap 0 ≤ℤ d
  root_first j d h =
      let (i, inside, same) = due_at j d h in rw (← same) (root_least e.heap i v.ordered inside)

  root_held : 0 < length e.heap → deadline_of e (key_at e.heap 0) ≡ some (due e.heap 0)
  unfolding deadline_of
  root_held h = rw (v.indexed.keys 0 h)

  expired_root :
      (now : ℤ)
      → expired e now ≡ (
          if ltb 0 (length e.heap)
          then (if leb_ℤ (due e.heap 0) now then some (key_at e.heap 0) else none)
          else none)
  unfolding expired get_or
  expired_root now = ground arith

  pub expired-some : (now : ℤ) (k : Bytes) → expired e now ≡ some k → IsEarliest e now k
  expired-some now k h =
      let root = expired_root now in
      record {
        deadline = due e.heap 0;
        held = ground (arith, root, root_held);
        late = ground (arith, root);
        first = root_first;
      }

  pub expired-none :
      (now : ℤ)
      → expired e now ≡ none
      → (j : Bytes) (d : ℤ) → deadline_of e j ≡ some d
      → ¬ (d ≤ℤ now)
  expired-none now h j d held late =
      let (i, inside, same) = due_at j d held in
      let root = expired_root now in let first = root_first j d held in ground (arith, root, first)

  -- On a valid index, `expired` names a key with a deadline that has passed and that no other
  -- deadline precedes, or nothing where no deadline has passed.
  pub expired_correct : (now : ℤ) → Names e now (expired e now)
  expired_correct now = by_answer (expired e now) refl
    where
      by_answer : (o : Option Bytes) → expired e now ≡ o → Names e now o
      by_answer none h = expired-none now h
      by_answer (some k) h = expired-some now k h
