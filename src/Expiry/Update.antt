-- ===== src/Expiry/Update.antt =====
-- `set`, `remove` and `expired` against what the index is for: a deadline for each key, and the
-- earliest of them.
use recall.Prelude.{
  ℕ, ◌+◌, ◌<◌, ◌≡◌, ◌∙◌, ◌⊎◌, inl, inr, Option, none, some, List, [], ◌∷◌, ◌++◌, Bytes, bytes_Eq,
  bytes_eq, bytes_eq_iff, arith, ◌==◌, get_or, set, length, get_or-set, length-set, get_or-append,
  get_or-append_last, length-append, if◌then◌else◌, Option-cases,
}
use recall.Prelude.Int.{ℤ}
use recall.Map.{get, insert}
use recall.Map.Laws.{get-insert}
use recall.Run.{◌>>=◌, Returns, returned, Returns-then, Returns-weaken}
use recall.Expiry.{Timer, ExpiryIndex, blank, parent, up, down, set_timer}
use recall.Expiry.Order.{IsHeap, RiseHole}
use recall.Expiry.Positions.{IsIndexed, deadline_of, key_at, load-ok}
use recall.Expiry.Sift.{Risen, Sunk, up_restores, down_restores}

-- Each timer has its place in the map, and the heap is in order.
pub record IsValid (e : ExpiryIndex) : Type 0 where
  pub indexed : IsIndexed e
  pub ordered : IsHeap e.heap

abbrev pub one_if_some {ℓ} : {A : Type ℓ} → Option A → ℕ
one_if_some none = 0
one_if_some (some a) = 1

-- `r` is `e` with the deadline of `k` replaced by `o`.
pub record Updated (e : ExpiryIndex) (k : Bytes) (o : Option ℤ) (r : ExpiryIndex) : Type 0 where
  pub valid : IsValid r
  pub deadlines : (j : Bytes) → deadline_of r j ≡ (if bytes_eq k j then o else deadline_of e j)
  pub size : length r.heap + one_if_some (deadline_of e k) ≡ length e.heap + one_if_some o

-- `up` and then `down` from a place where only the order is broken.
pub settle :
    (e : ExpiryIndex) (i : ℕ)
    → IsIndexed e
    → RiseHole ⊥ e.heap i
    → Returns (Sunk e) (up e i >>= λ moved. down moved.0 moved.1)
settle e i x v = Returns-then (up_restores e i x v) λ r risen.
    Returns-weaken (down_restores r.0 r.1 risen.indexed risen.hole) λ s sunk. record {
      indexed = sunk.indexed;
      same = record {
        size = sunk.same.size ∙ risen.same.size;
        deadlines = λ k. sunk.same.deadlines k ∙ risen.same.deadlines k;
      };
      ordered = sunk.ordered;
    }

module _ (e : ExpiryIndex) (v : IsValid e) (k : Bytes) (d : ℤ) where
  module _ (i : ℕ) (found : get k e.positions ≡ some i) where
    abbrev retimed : ExpiryIndex
    retimed = record e { heap = set e.heap i (record (get_or e.heap i blank) { deadline = d }) }

    inside : i < length e.heap
    inside = (v.indexed.places k i found).0

    at :
        (c : ℕ)
        → get_or retimed.heap c blank ≡ (
            if i == c
            then record (get_or e.heap i blank) { deadline = d }
            else get_or e.heap c blank)
    at c = get_or-set e.heap i c (record (get_or e.heap i blank) { deadline = d }) blank inside

    size_kept : length retimed.heap ≡ length e.heap
    size_kept = length-set e.heap i (record (get_or e.heap i blank) { deadline = d })

    retimed-IsIndexed : IsIndexed retimed
    retimed-IsIndexed = record {
      keys = λ c h. ground (arith, at c, size_kept, v.indexed.keys c);
      places = λ j c h. ground (arith, at c, size_kept, v.indexed.places j c);
    }

    retimed-RiseHole : RiseHole ⊥ retimed.heap i
    retimed-RiseHole = record {
      inside = omega (arith, size_kept, inside);
      edges = λ c p q r s. ground (arith, at c, at (parent c), size_kept, v.ordered c);
      bridged = λ c p q r s.
          ground (arith, at c, at (parent i), size_kept, v.ordered c, v.ordered i, inside);
      below = λ b. absurd b;
    }

    deadline_of-retimed :
        (j : Bytes) → deadline_of retimed j ≡ (if bytes_eq k j then some d else deadline_of e j)
    unfolding deadline_of
    deadline_of-retimed j = elim (Option-cases (get j e.positions)) [
      | inl absent ↦ ground (arith, found, bytes_eq_iff k j)
      | inr (c, there) ↦ ground (
        arith,
        found,
        bytes_eq_iff k j,
        at c,
        v.indexed.places k i found,
        v.indexed.places j c there,
      )
    ]

    set_timer-existing : Returns (Updated e k (some d)) (set_timer e k d)
    unfolding set_timer
    set_timer-existing =
        rw (found, set_timer, load-ok e.heap i inside)
          (Returns-weaken (settle retimed i retimed-IsIndexed retimed-RiseHole) λ r sunk. record {
            valid = record { indexed = sunk.indexed; ordered = sunk.ordered };
            deadlines = λ j. sunk.same.deadlines j ∙ deadline_of-retimed j;
            size = size_with r.heap (sunk.same.size ∙ size_kept);
          })
      where
        size_with :
            (a : List Timer)
            → length a ≡ length e.heap
            → length a + one_if_some (deadline_of e k) ≡ length e.heap + 1
        size_with a h = unfold deadline_of in rw found (omega arith)

  module _ (missing : get k e.positions ≡ none) where
    abbrev pushed : ExpiryIndex
    pushed = record {
      heap = e.heap ++ record { key = k; deadline = d } ∷ [];
      positions = insert k (length e.heap) e.positions;
    }

    size_grown : length pushed.heap ≡ length e.heap + 1
    size_grown = length-append e.heap (record { key = k; deadline = d } ∷ [])

    at_last : get_or pushed.heap (length e.heap) blank ≡ record { key = k; deadline = d }
    at_last = get_or-append_last e.heap (record { key = k; deadline = d }) blank

    at_old : (c : ℕ) → c < length e.heap → get_or pushed.heap c blank ≡ get_or e.heap c blank
    at_old c = get_or-append e.heap (record { key = k; deadline = d } ∷ []) c blank

    last_or_old : (c : ℕ) → c < length pushed.heap → (c ≡ length e.heap) ⊎ (c < length e.heap)
    last_or_old c h = omega (arith, size_grown)

    pushed-IsIndexed : IsIndexed pushed
    pushed-IsIndexed = record {
      keys = λ c h. elim (last_or_old c h) [
        | inl last ↦
            rw get-insert (ground (arith, last, at_last, bytes_eq_iff k (key_at pushed.heap c)))
        | inr old ↦ rw get-insert (
            ground
              (arith, at_old c old, bytes_eq_iff k (key_at pushed.heap c), v.indexed.keys c old))
      ];
      places = λ j c h. ground (
        arith,
        get-insert k j (length e.heap) e.positions,
        bytes_eq_iff k j,
        size_grown,
        at_last,
        at_old c,
        v.indexed.places j c,
      );
    }

    pushed-RiseHole : RiseHole Unit pushed.heap (length e.heap)
    pushed-RiseHole = record {
      inside = omega (arith, size_grown);
      edges = λ c p q r s. ground (arith, at_old c, at_old (parent c), size_grown, v.ordered c);
      bridged = λ c p q r s. absurd (omega (arith, size_grown));
      below = λ b c p q r. absurd (omega (arith, size_grown));
    }

    deadline_of-pushed :
        (j : Bytes) → deadline_of pushed j ≡ (if bytes_eq k j then some d else deadline_of e j)
    unfolding deadline_of
    deadline_of-pushed j = rw get-insert (elim (Option-cases (get j e.positions)) [
      | inl absent ↦ ground (arith, at_last)
      | inr (c, there) ↦
          ground (arith, missing, bytes_eq_iff k j, at_last, at_old c, v.indexed.places j c there)
    ])

    set_timer-fresh : Returns (Updated e k (some d)) (set_timer e k d)
    unfolding set_timer
    set_timer-fresh =
        rw (missing, set_timer)
          (Returns-then (up_restores pushed (length e.heap) pushed-IsIndexed pushed-RiseHole)
            λ r risen. returned (record {
              valid = record { indexed = risen.indexed; ordered = in_order r risen };
              deadlines = λ j. risen.same.deadlines j ∙ deadline_of-pushed j;
              size = size_with r.0.heap (risen.same.size ∙ size_grown);
            }))
      where
        in_order : (r : ExpiryIndex × ℕ) → Risen Unit pushed r → IsHeap r.0.heap
        in_order r risen =
            λ c p q. ground (arith, risen.hole.edges c p q, risen.hole.below tt c p q)

        size_with :
            (a : List Timer)
            → length a ≡ length e.heap + 1
            → length a + one_if_some (deadline_of e k) ≡ length e.heap + 1
        size_with a h = unfold deadline_of in rw missing (omega arith)

  -- On a valid index, `set` ends without an index out of bounds, keeps the index valid, gives the key
  -- its deadline and changes no other.
  pub set_timer-Updated : Returns (Updated e k (some d)) (set_timer e k d)
  set_timer-Updated = elim (Option-cases (get k e.positions)) [
    | inl missing ↦ set_timer-fresh missing
    | inr (i, found) ↦ set_timer-existing i found
  ]
