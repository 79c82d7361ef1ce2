-- ===== src/Store/Apply.antt =====
-- `apply`, `execute` and `expire_due` of the shard: what changes it.
use recall.Prelude.{
  ℕ, zero, suc, ◌+◌, Bool, Option, none, some, [], ◌∷◌, Bytes, ltb, ◌==◌, if◌then◌else◌, length,
  bytes_Eq,
}
use recall.Prelude.Int.{ℤ}
use recall.Map.{Map, get, insert, remove}
use recall.Run.{Run, ok, panic, ◌>>=◌, checked_minus}
use recall.Protocol.{Reply}
use recall.Command.{Operation}
use recall.Expiry.{ExpiryIndex, set_timer, remove_timer, expired}
use recall.Store.{Entry, Effects, Prepared, Shard, u64_max, is_due}
use recall.Store.Prepare.{prepare}

-- The table and the index while the effects are put in.
pub record Tables : Type 0 where
  pub entries : Map Bytes Entry
  pub expiry : ExpiryIndex

-- The effect on the index of deadlines.
unfoldable pub apply_timer : ExpiryIndex → Bytes → Option Entry → Run ExpiryIndex
apply_timer expiry key none = remove_timer expiry key
apply_timer expiry key (some entry) = elim entry.expires_at_ms [
  | none ↦ remove_timer expiry key
  | some deadline ↦ set_timer expiry key deadline
]

unfoldable pub apply_entry : Map Bytes Entry → Bytes → Option Entry → Map Bytes Entry
apply_entry entries key none = remove key entries
apply_entry entries key (some entry) = insert key entry entries

-- The loop of `apply` over the effects.
unfoldable pub apply_loop : Effects → Tables → Run Tables
apply_loop [] t = ok t
apply_loop ((key, effect) ∷ rest) t = do
  expiry ← apply_timer t.expiry key effect
  apply_loop rest (record { entries = apply_entry t.entries key effect; expiry = expiry })

-- `checked_add(1).expect(..)` of the revision
unfoldable pub next_revision : ℕ → Run ℕ
next_revision revision = if ltb revision u64_max then ok (revision + 1) else panic

abbrev pub saturating_inc : ℕ → ℕ
saturating_inc n = if ltb n u64_max then n + 1 else n

-- `Shard::apply`
unfoldable pub apply : Shard → Prepared → Run (Reply × Shard)
apply s prepared =
    if s.revision == prepared.revision
    then (do
      tables ← apply_loop prepared.effects (record { entries = s.entries; expiry = s.expiry })
      revision ← next_revision s.revision
      ok (
        prepared.response,
        record s {
          entries = tables.entries;
          expiry = tables.expiry;
          payload_bytes = prepared.payload_after;
          revision = revision;
          applied_commands = saturating_inc s.applied_commands;
        },
      ))
    else panic

-- `Shard::execute`
unfoldable pub execute : (reserves : ℕ → Bool) → Shard → Operation → ℤ → Run (Reply × Shard)
execute reserves s operation now = do prepared ← prepare reserves s operation now; apply s prepared

-- One round of `expire_due`, for a key whose timer is overdue.
unfoldable pub expire_key : Shard → Bytes → ℤ → Run Shard
expire_key s key now = do
  expiry ← remove_timer s.expiry key
  elim (get key s.entries) [
    | none ↦ panic
    | some entry ↦
        if is_due entry.expires_at_ms now
        then (do
          payload ← checked_minus s.payload_bytes (length key + length entry.value)
          revision ← next_revision s.revision
          ok (record s {
            entries = remove key s.entries;
            expiry = expiry;
            payload_bytes = payload;
            revision = revision;
            expired_keys = saturating_inc s.expired_keys;
          }))
        else panic
  ]

-- The loop of `expire_due`, over the rounds that the budget leaves.
unfoldable pub expire_loop : (rounds : ℕ) → Shard → ℤ → ℕ → Run (ℕ × Shard)
expire_loop zero s now removed = ok (removed, s)
expire_loop (suc rounds) s now removed = elim (expired s.expiry now) [
  | none ↦ ok (removed, s)
  | some key ↦ expire_key s key now >>= λ s'. expire_loop rounds s' now (removed + 1)
]

-- `Shard::expire_due`
unfoldable pub expire_due : Shard → ℤ → ℕ → Run (ℕ × Shard)
expire_due s now budget = expire_loop budget s now 0
