-- ===== src/Session.antt =====
-- The sessions of crates/recall-server/src/session.rs: the gate of authentication, the names of a
-- client, and INFO. The engine is a parameter: its state is a `World`, with the commands it runs, the
-- samples it gives, and its number of workers; so is the version of the package.
pub mod Gate
pub mod Stays
pub mod Tests
use recall.Prelude.{
  ℕ, ◌+◌, ◌%◌, ◌-◌, ◌^◌, Bool, true, false, not, ◌&&◌, ◌||◌, Option, none, some, List, [], ◌∷◌,
  ◌++◌, Bytes, bytes_eq, codes, ltb, ◌==◌, if◌then◌else◌, length,
}
use recall.Prelude.Int.{ℤ, pos, negsuc, ◌-ℤ◌}
use recall.Run.{Run, ok, panic, ◌>>=◌}
use recall.Decimal.{to_string}
use recall.Protocol.{Reply, simple, error, integer, bulk, array, replies, ok_reply, crlf}
use recall.Command.{Operation}
use recall.Command.Specs.{eq_ignore_ascii_case, metadata}
use recall.Command.Options.{
  Command, ClientCommand, data_command, ping, echo, quit, auth, hello, select, client, info,
}
use recall.Command.Options
use recall.Config.{Config}
use recall.Store.{ShardStats}

pub record Session : Type 0 where
  pub id : ℕ
  pub authenticated : Bool
  pub name : Option Bytes
  pub library_name : Option Bytes
  pub library_version : Option Bytes

-- The counters of the server that INFO shows.
pub record Metrics : Type 0 where
  pub active_connections : ℕ
  pub total_connections : ℕ
  pub total_commands : ℕ
  pub rejected_connections : ℕ
  pub protocol_errors : ℕ
  pub io_timeouts : ℕ

abbrev pub is_none : Option Bytes → Bool
is_none none = true
is_none (some b) = false

abbrev pub new : ℕ → Config → Session
new id config = record {
  id = id;
  authenticated = is_none config.password;
  name = none;
  library_name = none;
  library_version = none;
}

abbrev pub nonempty : Bytes → Option Bytes
nonempty [] = none
nonempty (b ∷ bs) = some (b ∷ bs)

abbrev pub user_matches : Option Bytes → Bool
user_matches none = true
user_matches (some name) = bytes_eq name (codes "default")

-- `authenticate`: nothing, or the error. `ct_eq` is the equality of slices.
unfoldable pub authenticate : Config → Option Bytes → Bytes → Option Reply
authenticate config username supplied = elim config.password [
  | none ↦
      some (error (codes "ERR AUTH called without any password configured for the default user."))
  | some expected ↦
      if bytes_eq expected supplied && user_matches username
      then none
      else some (error (codes "WRONGPASS invalid username-password pair or user is disabled."))
]

-- `id as i64`
abbrev as_i64 : ℕ → ℤ
as_i64 n = if ltb n (2 ^ 63) then pos n else pos n -ℤ pos (2 ^ 64)

unfoldable pub hello_reply : (version : Bytes) → Session → Reply
hello_reply version s = array (
    replies (
      bulk (some (codes "server"))
      ∷ bulk (some (codes "recall"))
      ∷ bulk (some (codes "version"))
      ∷ bulk (some version)
      ∷ bulk (some (codes "proto"))
      ∷ integer (pos 2)
      ∷ bulk (some (codes "id"))
      ∷ integer (as_i64 s.id)
      ∷ bulk (some (codes "mode"))
      ∷ bulk (some (codes "standalone"))
      ∷ bulk (some (codes "role"))
      ∷ bulk (some (codes "master"))
      ∷ bulk (some (codes "modules"))
      ∷ array (replies [])
      ∷ []))

-- A line of INFO with a number.
abbrev shown : Bytes → ℕ → Bytes
shown name n = name ++ 58 ∷ to_string n ++ crlf

abbrev includes : Option Bytes → Bytes → Bool
includes none name = true
includes (some value) name =
    eq_ignore_ascii_case value (codes "all")
    || eq_ignore_ascii_case value (codes "default")
    || eq_ignore_ascii_case value name

abbrev server_section : (version : Bytes) → ℕ → Bytes
server_section version workers =
    codes "# Server"
    ++ crlf
    ++ codes "server_name:recall"
    ++ crlf
    ++ codes "recall_version:"
    ++ version
    ++ crlf
    ++ codes "mode:standalone"
    ++ crlf
    ++ codes "persistence:memory-only"
    ++ crlf
    ++ shown (codes "engine_workers") workers

abbrev stats_section : Metrics → Bytes
stats_section m =
    codes "# Stats"
    ++ crlf
    ++ shown (codes "total_connections_received") m.total_connections
    ++ shown (codes "total_commands_processed") m.total_commands
    ++ shown (codes "rejected_connections") m.rejected_connections
    ++ shown (codes "protocol_errors") m.protocol_errors
    ++ shown (codes "io_timeouts") m.io_timeouts

abbrev sum_of : (ShardStats → ℕ) → List ShardStats → ℕ
sum_of f [] = 0
sum_of f (s ∷ rest) = f s + sum_of f rest

abbrev owner_line : ℕ → ShardStats → Bytes
owner_line index o =
    codes "owner_"
    ++ to_string index
    ++ codes ":keys="
    ++ to_string o.keys
    ++ codes ",payload_bytes="
    ++ to_string o.payload_bytes
    ++ codes ",key_limit="
    ++ to_string o.max_keys
    ++ codes ",payload_limit="
    ++ to_string o.max_payload_bytes
    ++ codes ",active_expired="
    ++ to_string o.expired_keys
    ++ codes ",applied="
    ++ to_string o.applied_commands
    ++ crlf

abbrev owner_lines : ℕ → List ShardStats → Bytes
owner_lines index [] = []
owner_lines index (o ∷ rest) = owner_line index o ++ owner_lines (index + 1) rest

abbrev memory_section : List ShardStats → Bytes
memory_section stats =
    codes "# Memory"
    ++ crlf
    ++ codes "accounting:live-key-value-payload-only"
    ++ crlf
    ++ shown (codes "payload_bytes") (sum_of (λ o. o.payload_bytes) stats)
    ++ codes "allocated_metadata_model:preallocated-per-owner"
    ++ crlf
    ++ shown (codes "physical_keys") (sum_of (λ o. o.keys) stats)
    ++ shown (codes "expiring_keys") (sum_of (λ o. o.expiring_keys) stats)
    ++ owner_lines 0 stats

-- `info`; the owners are sampled only for the section on memory.
unfoldable pub info_text : (version : Bytes) → Option Bytes → ℕ → Metrics → List ShardStats → Bytes
info_text version section workers m stats =
    (if includes section (codes "server") then server_section version workers else [])
    ++ (if includes section (codes "clients")
        then codes "# Clients" ++ crlf ++ shown (codes "connected_clients") m.active_connections
        else [])
    ++ (if includes section (codes "stats") then stats_section m else [])
    ++ (if includes section (codes "memory") then memory_section stats else [])

abbrev pub no_auth : Reply
no_auth = error (codes "NOAUTH Authentication required.")

abbrev pub renamed : Session → Option Bytes → Session
renamed s none = s
renamed s (some name) = record s { name = nonempty name }

abbrev pub is_two : Option ℤ → Bool
is_two none = true
is_two (some (pos n)) = n == 2
is_two (some (negsuc n)) = false

abbrev pub is_zero_db : ℤ → Bool
is_zero_db (pos n) = n == 0
is_zero_db (negsuc n) = false

module _ {World : Type 0} (run : World → Operation → World × Reply)
    (samples : World → List ShardStats) (workers : ℕ) (version : Bytes) (config : Config)
    (metrics : Metrics) where
  -- What a command leaves: the engine, the session, the reply, and whether the connection closes.
  abbrev pub Outcome : Type 0
  Outcome = World × Session × Reply × Bool

  -- `AUTH`
  unfoldable pub execute_auth : World → Session → Option Bytes → Bytes → Outcome
  execute_auth w s username password = elim (authenticate config username password) [
    | none ↦ (w, record s { authenticated = true }, ok_reply, false)
    | some reply ↦ (w, s, reply, false)
  ]

  -- `HELLO`, after its credentials
  unfoldable pub greet : World → Session → Option Bytes → Outcome
  greet w s name =
      if not s.authenticated
      then (w, s, no_auth, false)
      else (let s' = renamed s name in (w, s', hello_reply version s', false))

  unfoldable pub execute_hello :
      World → Session → Option ℤ → Option (Bytes × Bytes) → Option Bytes → Outcome
  execute_hello w s protocol credentials name =
      if not (is_two protocol)
      then (w, s, error (codes "NOPROTO unsupported protocol version"), false)
      else elim credentials [
        | none ↦ greet w s name
        | some c ↦ elim (authenticate config (some c.0) c.1) [
          | some reply ↦ (w, s, reply, false)
          | none ↦ greet w (record s { authenticated = true }) name
        ]
      ]

  -- The commands behind the gate, where AUTH and HELLO are unreachable.
  unfoldable pub serve : World → Session → Command → Run Outcome
  serve w s (data_command operation) = let (w', reply) = run w operation in ok (w', s, reply, false)
  serve w s (ping none) = ok (w, s, simple (codes "PONG"), false)
  serve w s (ping (some value)) = ok (w, s, bulk (some value), false)
  serve w s (echo value) = ok (w, s, bulk (some value), false)
  serve w s quit = ok (w, s, ok_reply, true)
  serve w s (select n) =
      ok (
        w,
        s,
        if is_zero_db n then ok_reply else error (codes "ERR DB index is out of range"),
        false,
      )
  serve w s (client ClientCommand.get_name) = ok (w, s, bulk s.name, false)
  serve w s (client (ClientCommand.set_name name)) =
      ok (w, record s { name = nonempty name }, ok_reply, false)
  serve w s (client (ClientCommand.set_info true value)) =
      ok (w, record s { library_name = nonempty value }, ok_reply, false)
  serve w s (client (ClientCommand.set_info false value)) =
      ok (w, record s { library_version = nonempty value }, ok_reply, false)
  serve w s (Command.metadata m) = ok (w, s, metadata m, false)
  serve w s (info section) =
      ok (w, s, bulk (some (info_text version section workers metrics (samples w))), false)
  serve w s (auth username password) = panic
  serve w s (hello protocol credentials name) = panic

  -- `Session::execute`
  unfoldable pub execute : World → Session → Command → Run Outcome
  execute w s (auth username password) = ok (execute_auth w s username password)
  execute w s (hello protocol credentials name) = ok (execute_hello w s protocol credentials name)
  execute w s command = if not s.authenticated then ok (w, s, no_auth, false) else serve w s command

  -- The commands of a session, one after another, until it closes.
  unfoldable pub execute_all : World → Session → List Command → Run (World × Session)
  execute_all w s [] = ok (w, s)
  execute_all w s (command ∷ rest) = do
    (w', s', reply, close) ← execute w s command
    elim close [ true ↦ ok (w', s') | false ↦ execute_all w' s' rest ]
