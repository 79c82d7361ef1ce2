-- ===== src/Settings.antt =====
-- The settings of crates/recall-server/src/settings.rs, from their sources to a configuration. What the
-- standard library reads as a socket address is a parameter, and so is the default configuration, which
-- depends on the machine.
pub mod Read
pub mod Merged
pub mod Meaning
pub mod Applied
pub mod Loaded
mod Tests
use recall.Prelude.{
  ℕ, zero, suc, ◌+◌, ◌-◌, ◌*◌, ◌^◌, Bool, true, false, not, ◌&&◌, ◌||◌, Option, none, some, List,
  [], ◌∷◌, ◌++◌, Bytes, bytes_eq, bytes_Eq, codes, ltb, leb, ◌==◌, if◌then◌else◌, length,
}
use recall.Map.{Map, insert}
use recall.Run.{Run, ok, err, ◌>>=◌, or_else}
use recall.Config.{Config, IpAddr, validate}

abbrev pub Values : Type 0
Values = Map Bytes Bytes

-- `value.bytes().all(|byte| byte.is_ascii_digit())`
unfoldable pub all_digits : Bytes → Bool
all_digits [] = true
all_digits (b ∷ rest) = leb 48 b && leb b 57 && all_digits rest

-- `value.parse()` on digits: the number, while it fits a usize
unfoldable pub parse_digits : Bytes → ℕ → Option ℕ
parse_digits [] n = some n
parse_digits (b ∷ rest) n =
    let next = n * 10 + (b - 48) in
    let whole = parse_digits rest next in if ltb next (2 ^ 64) then whole else none

unfoldable pub number : (key value : Bytes) → Run ℕ
number key value =
    if length value == 0 || not (all_digits value)
    then err (key ++ codes " requires a nonnegative decimal integer")
    else or_else (parse_digits value 0) (err (key ++ codes " is out of range"))

unfoldable pub mib : (key value : Bytes) → Run ℕ
mib key value = do
  n ← number key value
  if ltb (n * (1024 * 1024)) (2 ^ 64)
      then ok (n * (1024 * 1024))
      else err (key ++ codes " is out of range")

-- `file.extend(process)`
unfoldable pub extend : Values → Values → Values
extend values [] = values
extend values ((key, value) ∷ rest) = extend (insert key value values) rest

-- The `match` on a key.
unfoldable pub apply_setting :
    (parse_bind : Bytes → Option IpAddr) → Config → Bytes → Bytes → Run Config
apply_setting parse_bind c key value =
    if bytes_eq key (codes "RECALL_BIND")
    then or_else (parse_bind value) (err (codes "RECALL_BIND requires an IP:port"))
      >>= (λ bind. ok (record c { bind = bind }))
    else if bytes_eq key (codes "RECALL_WORKERS")
    then number key value >>= (λ n. ok (record c { workers = n }))
    else if bytes_eq key (codes "RECALL_IO_THREADS")
    then number key value >>= (λ n. ok (record c { io_threads = n }))
    else if bytes_eq key (codes "RECALL_MAX_MEMORY_MIB")
    then mib key value >>= (λ n. ok (record c { max_payload_bytes = n }))
    else if bytes_eq key (codes "RECALL_KEYS_PER_WORKER")
    then number key value >>= (λ n. ok (record c { keys_per_worker = n }))
    else if bytes_eq key (codes "RECALL_MAX_CONNECTIONS")
    then number key value >>= (λ n. ok (record c { max_connections = n }))
    else if bytes_eq key (codes "RECALL_QUEUE_BYTES_MIB")
    then mib key value >>= (λ n. ok (record c { queue_bytes = n }))
    else if bytes_eq key (codes "RECALL_PASSWORD")
    then ok (record c { password = some value })
    else err (codes "unknown Recall environment setting")

unfoldable pub apply_all : (parse_bind : Bytes → Option IpAddr) → Config → Values → Run Config
apply_all parse_bind c [] = ok c
apply_all parse_bind c ((key, value) ∷ rest) = do
  c' ← apply_setting parse_bind c key value
  apply_all parse_bind c' rest

unfoldable pub from_sources :
    (parse_bind : Bytes → Option IpAddr)
    → (default : Config) → (file process arguments : Values) → Run Config
from_sources parse_bind default file process arguments = do
  config ← apply_all parse_bind default (extend (extend file process) arguments)
  valid ← validate config
  ok config
