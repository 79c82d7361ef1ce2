-- ===== src/Store.antt =====
-- The shard of crates/recall-core/src/store.rs: the table of entries that one owner thread holds,
-- its index of deadlines, and the accounting of its payload.
pub mod Prepare
pub mod Apply
pub mod Valid
pub mod Budget
pub mod View
pub mod Spec
pub mod Agrees
pub mod Respond
pub mod Loops
pub mod Promise
pub mod Install
pub mod Execute
pub mod Cleanup
pub mod Fresh
pub mod Tests
use recall.Prelude.{
  ℕ, ◌+◌, ◌^◌, ◌-◌, Bool, true, false, not, ◌&&◌, ◌||◌, Option, none, some, List, [], ◌∷◌, Bytes,
  String, codes, ltb, ◌==◌, if◌then◌else◌, length, bytes_Eq,
}
use recall.Prelude.Int.{ℤ, leb_ℤ}
use recall.Map.{Map, get, insert}
use recall.Run.{Run, ok, err}
use recall.Protocol.{Reply}
use recall.Expiry
use recall.Expiry.{ExpiryIndex}

pub record ShardLimits : Type 0 where
  pub max_keys : ℕ
  pub max_payload_bytes : ℕ
  pub max_reply_bytes : ℕ

pub record Entry : Type 0 where
  pub value : Bytes
  pub expires_at_ms : Option ℤ

-- What a command does to a key: `some` writes the entry, `none` takes it out.
abbrev pub Effects : Type 0
Effects = Map Bytes (Option Entry)

pub record Prepared : Type 0 where
  pub revision : ℕ
  pub effects : Effects
  pub payload_after : ℕ
  pub response : Reply

pub record ShardStats : Type 0 where
  pub keys : ℕ
  pub payload_bytes : ℕ
  pub expiring_keys : ℕ
  pub expired_keys : ℕ
  pub applied_commands : ℕ
  pub max_keys : ℕ
  pub max_payload_bytes : ℕ

pub record Shard : Type 0 where
  pub entries : Map Bytes Entry
  pub expiry : ExpiryIndex
  pub limits : ShardLimits
  pub payload_bytes : ℕ
  pub revision : ℕ
  pub expired_keys : ℕ
  pub applied_commands : ℕ

abbrev pub u64_max : ℕ
u64_max = 2 ^ 64 - 1

abbrev pub failure : String → Bytes
failure message = codes message

-- `Shard::new`; the first two arguments say whether the allocator grants the table and the index
-- room for a number of keys.
unfoldable pub new : (reserves_table reserves_index : ℕ → Bool) → ShardLimits → Run Shard
new reserves_table reserves_index limits =
    if limits.max_keys == 0 || (limits.max_payload_bytes == 0 || ltb limits.max_reply_bytes 64)
    then err (failure "ERR invalid shard limits")
    else if not (reserves_table limits.max_keys)
    then err (failure "OOM could not reserve key table")
    else if not (reserves_index limits.max_keys)
    then err (failure "OOM could not reserve expiration index")
    else ok (record {
      entries = [];
      expiry = Expiry.new;
      limits = limits;
      payload_bytes = 0;
      revision = 0;
      expired_keys = 0;
      applied_commands = 0;
    })

-- `Shard::stats`
unfoldable pub stats : Shard → ShardStats
stats s = record {
  keys = length s.entries;
  payload_bytes = s.payload_bytes;
  expiring_keys = Expiry.len s.expiry;
  expired_keys = s.expired_keys;
  applied_commands = s.applied_commands;
  max_keys = s.limits.max_keys;
  max_payload_bytes = s.limits.max_payload_bytes;
}

-- `expires_at_ms.is_some_and(|deadline| deadline <= now_ms)`
unfoldable pub is_due : Option ℤ → ℤ → Bool
is_due none now = false
is_due (some deadline) now = leb_ℤ deadline now

-- `observe`: the entry of a key that is not overdue; an overdue one is marked for removal.
unfoldable pub observe : Shard → Bytes → ℤ → Effects → Option Entry × Effects
observe s key now effects = elim (get key s.entries) [
  | none ↦ (none, effects)
  | some entry ↦
      if is_due entry.expires_at_ms now
      then (none, insert key none effects)
      else (some entry, effects)
]
