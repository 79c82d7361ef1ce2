-- ===== src/Config.antt =====
-- The checks of crates/recall-server/src/config.rs on a configuration, and the limits that each owner
-- gets of it. A duration is a number of nanoseconds.
pub mod Budget
pub mod Tests
use recall.Prelude.{
  ℕ, zero, suc, ◌+◌, ◌-◌, ◌*◌, ◌/◌, ◌%◌, ◌^◌, Bool, true, false, not, ◌&&◌, ◌||◌, Option, none,
  some, List, [], ◌∷◌, Bytes, bytes_eq, String, codes, ltb, leb, ◌==◌, if◌then◌else◌, length,
}
use recall.Run.{Run, ok, err, ◌>>=◌}
use recall.Command.Options.{ParseLimits}
use recall.Protocol.Limits.{Limits, validate_limits}
use recall.Store.{ShardLimits}

-- `IpAddr`, by its octets or its segments
pub data IpAddr : Type 0 where
  v4 : (a b c d : ℕ) → IpAddr
  v6 : List ℕ → IpAddr

abbrev pub is_loopback : IpAddr → Bool
is_loopback (v4 a b c d) = a == 127
is_loopback (v6 segments) = bytes_eq segments (0 ∷ 0 ∷ 0 ∷ 0 ∷ 0 ∷ 0 ∷ 0 ∷ 1 ∷ [])

pub record Config : Type 0 where
  pub bind : IpAddr
  pub workers : ℕ
  pub io_threads : ℕ
  pub max_connections : ℕ
  pub queue_capacity : ℕ
  pub queue_bytes : ℕ
  pub admission_timeout : ℕ
  pub read_timeout : ℕ
  pub write_timeout : ℕ
  pub expiry_interval : ℕ
  pub expiry_batch : ℕ
  pub max_payload_bytes : ℕ
  pub keys_per_worker : ℕ
  pub max_reply_bytes : ℕ
  pub protocol : Limits
  pub commands : ParseLimits
  pub password : Option Bytes

-- `(low..=high).contains(n)`
abbrev between : ℕ → ℕ → ℕ → Bool
between low high n = leb low n && leb n high

abbrev pub saturating_add : ℕ → ℕ → ℕ
saturating_add a b = if ltb (a + b) (2 ^ 64) then a + b else 2 ^ 64 - 1

unfoldable pub excessive_workers : Config → Bool
excessive_workers c =
    not (between 1 64 c.workers)
    || not (between 1 64 c.io_threads)
    || not (between 1 65536 c.max_connections)
    || not (between 1 65536 c.queue_capacity)
    || c.queue_bytes == 0
    || ltb (2 ^ 32 - 1) c.queue_bytes
    || c.keys_per_worker == 0
    || ltb 1048576 c.keys_per_worker
    || ltb c.max_payload_bytes c.workers

unfoldable pub no_time : Config → Bool
no_time c =
    c.admission_timeout == 0
    || c.read_timeout == 0
    || c.write_timeout == 0
    || c.expiry_interval == 0
    || c.expiry_batch == 0

unfoldable pub inconsistent : Config → Bool
inconsistent c =
    ltb (16 * 1024 * 1024) c.protocol.max_frame_bytes
    || ltb 4096 c.protocol.max_arguments
    || ltb c.protocol.max_bulk_bytes c.commands.max_key_bytes
    || ltb c.protocol.max_bulk_bytes c.commands.max_value_bytes
    || ltb 1024 c.commands.max_client_metadata_bytes
    || ltb c.max_reply_bytes (saturating_add c.commands.max_value_bytes 64)
    || ltb (64 * 1024 * 1024) c.max_reply_bytes

abbrev pub bad_password : Option Bytes → Bool
bad_password none = false
bad_password (some password) = length password == 0 || ltb 1024 (length password)

-- `Config::validate`
unfoldable pub validate : Config → Run (Unit {0})
validate c =
    if not (is_loopback c.bind)
    then err
        (codes "this milestone permits loopback binds only; transport security is not implemented")
    else if excessive_workers c
    then err (codes "invalid worker, connection, queue, key, or payload limit")
    else if no_time c
    then err (codes "timeouts and expiration budgets must be nonzero")
    else do
      protocol ← validate_limits c.protocol
      if inconsistent c
          then err (codes "inconsistent or excessive protocol/command/reply limits")
          else if bad_password c.password
          then err (codes "the configured password must contain 1 to 1024 bytes")
          else ok tt

-- `Config::shard_limits`
unfoldable pub shard_limits : Config → (owner : ℕ) → ShardLimits
shard_limits c owner = record {
  max_keys = c.keys_per_worker;
  max_payload_bytes =
      c.max_payload_bytes / c.workers
      + (if ltb owner (c.max_payload_bytes % c.workers) then 1 else 0);
  max_reply_bytes = c.max_reply_bytes;
}
