-- ===== src/Command/Specs.antt =====
-- The table of commands and the discovery replies of crates/recall-core/src/command.rs. The names of
-- the table are an enumeration here, with the text of each.

use recall.Prelude.{
  ℕ, suc, Bool, true, false, not, ◌&&◌, Option, none, some, List, [], ◌∷◌, map, Bytes, bytes_eq,
  codes, ltb, leb, if◌then◌else◌, ◌==◌, length, ◌+◌,
}
use recall.Prelude.Int.{ℤ, pos, negsuc}
use recall.Protocol.{Reply, simple, integer, bulk, array, nil, cons, replies}

pub data Name : Type 0 where
  ping echo quit auth hello select get set incr incrby decr decrby : Name
  del exists mget mset expire pexpire ttl pttl persist command client info : Name

unfoldable pub text : Name → Bytes
text ping = codes "ping"
text echo = codes "echo"
text quit = codes "quit"
text auth = codes "auth"
text hello = codes "hello"
text select = codes "select"
text get = codes "get"
text set = codes "set"
text incr = codes "incr"
text incrby = codes "incrby"
text decr = codes "decr"
text decrby = codes "decrby"
text del = codes "del"
text exists = codes "exists"
text mget = codes "mget"
text mset = codes "mset"
text expire = codes "expire"
text pexpire = codes "pexpire"
text ttl = codes "ttl"
text pttl = codes "pttl"
text persist = codes "persist"
text command = codes "command"
text client = codes "client"
text info = codes "info"

pub record CommandSpec : Type 0 where
  pub name : Name
  pub arity : ℤ
  pub write : Bool
  pub first_key : ℤ
  pub last_key : ℤ
  pub key_step : ℤ

-- The macro `spec!`
abbrev spec : Name → ℤ → Bool → ℤ → ℤ → ℤ → CommandSpec
spec name arity write first last step = record {
  name = name;
  arity = arity;
  write = write;
  first_key = first;
  last_key = last;
  key_step = step;
}

abbrev one : ℤ
one = pos 1

abbrev nought : ℤ
nought = pos 0

-- `SPECS`
unfoldable pub specs : List CommandSpec
specs =
    spec ping (negsuc 0) false nought nought nought
    ∷ spec echo (pos 2) false nought nought nought
    ∷ spec quit one false nought nought nought
    ∷ spec auth (negsuc 1) false nought nought nought
    ∷ spec hello (negsuc 0) false nought nought nought
    ∷ spec select (pos 2) false nought nought nought
    ∷ spec get (pos 2) false one one one
    ∷ spec set (negsuc 2) true one one one
    ∷ spec incr (pos 2) true one one one
    ∷ spec incrby (pos 3) true one one one
    ∷ spec decr (pos 2) true one one one
    ∷ spec decrby (pos 3) true one one one
    ∷ spec del (negsuc 1) true one (negsuc 0) one
    ∷ spec exists (negsuc 1) false one (negsuc 0) one
    ∷ spec mget (negsuc 1) false one (negsuc 0) one
    ∷ spec mset (negsuc 2) true one (negsuc 0) (pos 2)
    ∷ spec expire (pos 3) true one one one
    ∷ spec pexpire (pos 3) true one one one
    ∷ spec ttl (pos 2) false one one one
    ∷ spec pttl (pos 2) false one one one
    ∷ spec persist (pos 2) true one one one
    ∷ spec command (negsuc 0) false nought nought nought
    ∷ spec client (negsuc 1) false nought nought nought
    ∷ spec info (negsuc 0) false nought nought nought
    ∷ []

abbrev to_ascii_lowercase : ℕ → ℕ
to_ascii_lowercase byte = if leb 65 byte && leb byte 90 then byte + 32 else byte

-- `eq_ignore_ascii_case` of byte slices
unfoldable pub eq_ignore_ascii_case : Bytes → Bytes → Bool
eq_ignore_ascii_case xs ys = bytes_eq (map to_ascii_lowercase xs) (map to_ascii_lowercase ys)

-- `SPECS.iter().find(..)` by the name of the command
unfoldable pub find_spec : List CommandSpec → Bytes → Option CommandSpec
find_spec [] name = none
find_spec (spec ∷ rest) name =
    let later = find_spec rest name in
    if eq_ignore_ascii_case name (text spec.name) then some spec else later

-- The test of the number of arguments, the name of the command included.
unfoldable pub wrong_arity : ℤ → ℕ → Bool
wrong_arity (pos n) count = ltb 0 n && not (count == n)
wrong_arity (negsuc n) count = ltb count (suc n)

pub data MetadataCommand : Type 0 where
  all count : MetadataCommand
  info_of : List Bytes → MetadataCommand

abbrev pub is_nought : ℤ → Bool
is_nought (pos n) = n == 0
is_nought (negsuc n) = false

-- `spec_reply`
unfoldable pub spec_reply : CommandSpec → Reply
unfolding text
spec_reply spec =
    let flag : Reply = simple (if spec.write then codes "write" else codes "readonly") in
    let flags = if is_nought spec.first_key then nil else cons flag nil in
    array (
      replies (
        bulk (some (text spec.name))
        ∷ integer spec.arity
        ∷ array flags
        ∷ integer spec.first_key
        ∷ integer spec.last_key
        ∷ integer spec.key_step
        ∷ []))

-- The reply to `COMMAND INFO` on one name.
unfoldable pub info_reply : Bytes → Reply
info_reply name = elim (find_spec specs name) [ none ↦ bulk none | some spec ↦ spec_reply spec ]

-- `metadata`
unfoldable pub metadata : MetadataCommand → Reply
metadata count = integer (pos (length specs))
metadata all = array (replies (map spec_reply specs))
metadata (info_of []) = array (replies (map spec_reply specs))
metadata (info_of (name ∷ names)) = array (replies (map info_reply (name ∷ names)))
