-- ===== src/Store/Valid.antt =====
-- The invariant of a shard, and the loop of `apply` on the table and the index together.
use recall.Prelude.{
  ℕ, ◌+◌, ◌≤◌, ◌≡◌, refl, ap, Option, none, some, [], ◌∷◌, Bytes, bytes_eq, bytes_Eq, arith, length,
  if◌then◌else◌,
}
use recall.Prelude.Int.{ℤ}
use recall.Map.{Map, get, Distinct, total, weight_at}
use recall.Map.Laws.{
  get-insert, get-remove, insert-Distinct, remove-Distinct, total-insert, total-remove,
}
use recall.Run.{Returns, returned, Returns-then, Returns-weaken}
use recall.Expiry.{ExpiryIndex, set_timer, remove_timer}
use recall.Expiry.Positions.{deadline_of}
use recall.Expiry.Update
use recall.Expiry.Update.{one_if_some, Updated, set_timer-Updated}
use recall.Expiry.Removal.{remove_timer-Updated}
use recall.Store.{Entry, Effects, Shard}
use recall.Store.Prepare.{expires_of}
use recall.Store.Apply.{Tables, apply_timer, apply_entry, apply_loop}

-- The payload that an entry accounts for.
abbrev pub weight : Bytes → Entry → ℕ
weight key entry = length key + length entry.value

-- One for an entry that expires.
abbrev pub timed : Bytes → Entry → ℕ
timed key entry = one_if_some entry.expires_at_ms

-- The table has no key twice, and the index has the deadline of each entry that expires.
pub record IsSynced (t : Tables) : Type 0 where
  pub distinct : Distinct t.entries
  pub index : Update.IsValid t.expiry
  pub deadlines : (k : Bytes) → deadline_of t.expiry k ≡ expires_of (get k t.entries)
  pub timers : length t.expiry.heap ≡ total timed t.entries

abbrev pub tables : Shard → Tables
tables s = record { entries = s.entries; expiry = s.expiry }

-- A shard is in sync, its payload is the sum over its entries, and it keeps within its limits.
pub record IsValid (s : Shard) : Type 0 where
  pub synced : IsSynced (tables s)
  pub accounted : s.payload_bytes ≡ total weight s.entries
  pub keys_within : length s.entries ≤ s.limits.max_keys
  pub payload_within : s.payload_bytes ≤ s.limits.max_payload_bytes

apply_timer-Updated :
    (e : ExpiryIndex) (k : Bytes) (effect : Option Entry)
    → Update.IsValid e
    → Returns (Updated e k (expires_of effect)) (apply_timer e k effect)
unfolding apply_timer
apply_timer-Updated e k none v = remove_timer-Updated e v k
apply_timer-Updated e k (some entry) v = by_deadline entry.expires_at_ms
  where
    by_deadline :
        (o : Option ℤ)
        → Returns (Updated e k o) (elim o [ none ↦ remove_timer e k | some d ↦ set_timer e k d ])
    by_deadline none = remove_timer-Updated e v k
    by_deadline (some d) = set_timer-Updated e v k d

-- The table after one effect.
pub get-apply_entry :
    (m : Map Bytes Entry) (k j : Bytes) (effect : Option Entry)
    → get j (apply_entry m k effect) ≡ (if bytes_eq k j then effect else get j m)
unfolding apply_entry
get-apply_entry m k j none = get-remove k j m
get-apply_entry m k j (some entry) = get-insert k j entry m

pub apply_entry-Distinct :
    (m : Map Bytes Entry) (k : Bytes) (effect : Option Entry)
    → Distinct m
    → Distinct (apply_entry m k effect)
unfolding apply_entry
apply_entry-Distinct m k none d = remove-Distinct k m d
apply_entry-Distinct m k (some entry) d = insert-Distinct k entry m d

pub total-apply_entry :
    (w : Bytes → Entry → ℕ) (m : Map Bytes Entry) (k : Bytes) (effect : Option Entry)
    → Distinct m
    → total w (apply_entry m k effect) + weight_at w k (get k m) ≡ total w m + weight_at w k effect
unfolding apply_entry
total-apply_entry w m k none d = omega (arith, total-remove w k m d)
total-apply_entry w m k (some entry) d = total-insert w k entry m d

-- The table after all effects.
unfoldable pub apply_entries : Effects → Map Bytes Entry → Map Bytes Entry
apply_entries [] m = m
apply_entries ((k, effect) ∷ rest) m = apply_entries rest (apply_entry m k effect)

timed_weight : (k : Bytes) (o : Option Entry) → weight_at timed k o ≡ one_if_some (expires_of o)
timed_weight k none = refl
timed_weight k (some entry) = refl

pub step-IsSynced :
    (t : Tables) (k : Bytes) (effect : Option Entry) (e : ExpiryIndex)
    → IsSynced t
    → Updated t.expiry k (expires_of effect) e
    → IsSynced (record { entries = apply_entry t.entries k effect; expiry = e })
step-IsSynced t k effect e v u = record {
  distinct = apply_entry-Distinct t.entries k effect v.distinct;
  index = u.valid;
  deadlines =
      λ j. ground (arith, u.deadlines j, get-apply_entry t.entries k j effect, v.deadlines j);
  timers = omega (
    arith,
    u.size,
    v.timers,
    total-apply_entry timed t.entries k effect v.distinct,
    timed_weight k effect,
    timed_weight k (get k t.entries),
    ap (one_if_some {A = ℤ}) (v.deadlines k),
  );
}

-- What the loop of `apply` leaves: the table with the effects put in, still in sync.
pub record Applied (effects : Effects) (t r : Tables) : Type 0 where
  pub synced : IsSynced r
  pub entries : r.entries ≡ apply_entries effects t.entries

pub apply_loop-Applied :
    (effects : Effects) (t : Tables)
    → IsSynced t
    → Returns (Applied effects t) (apply_loop effects t)
unfolding apply_loop apply_entries
apply_loop-Applied [] t v = returned (record { synced = v; entries = refl })
apply_loop-Applied ((k, effect) ∷ rest) t v =
    Returns-then (apply_timer-Updated t.expiry k effect v.index) λ e u.
      Returns-weaken
        (apply_loop-Applied rest (record { entries = apply_entry t.entries k effect; expiry = e })
          (step-IsSynced t k effect e v u))
        λ r done. record { synced = done.synced; entries = done.entries }
