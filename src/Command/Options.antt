-- ===== src/Command/Options.antt =====
-- The option loops of the parser of crates/recall-core/src/command.rs: `parse_set`, `parse_hello`, and
-- the commands that the parser makes.
pub mod Safe
use recall.Prelude.{
  ℕ, zero, suc, ◌+◌, ◌%◌, Bool, true, false, not, ◌&&◌, ◌||◌, Option, none, some, List, [], ◌∷◌,
  ◌++◌, map, Bytes, codes, ltb, leb, if◌then◌else◌, ◌==◌, length, get_elem?, drop,
}
use recall.Prelude.Int.{ℤ, pos, leb_ℤ, checked_mul}
use recall.Run.{Run, ok, err, panic, out_of_fuel, ◌>>=◌, or_else}
use recall.Command.{Condition, Expiry, Operation, keys, integer}
use recall.Command.Specs.{
  Name, CommandSpec, MetadataCommand, text, specs, eq_ignore_ascii_case, find_spec, wrong_arity,
}

pub record ParseLimits : Type 0 where
  pub max_key_bytes : ℕ
  pub max_value_bytes : ℕ
  pub max_client_metadata_bytes : ℕ

pub data ClientCommand : Type 0 where
  get_name : ClientCommand
  set_name : Bytes → ClientCommand
  set_info : (library_name : Bool) → (value : Bytes) → ClientCommand

pub data Command : Type 0 where
  data_command : Operation → Command
  ping : Option Bytes → Command
  echo : Bytes → Command
  quit : Command
  auth : (username : Option Bytes) → (password : Bytes) → Command
  hello : (protocol : Option ℤ) → (auth : Option (Bytes × Bytes)) → (name : Option Bytes) → Command
  select : ℤ → Command
  client : ClientCommand → Command
  metadata : MetadataCommand → Command
  info : Option Bytes → Command

abbrev pub syntax_error : Bytes
syntax_error = codes "ERR syntax error"

-- `a[index]`, which panics out of bounds
abbrev pub arg : List Bytes → ℕ → Run Bytes
arg a index = or_else (get_elem? a index) panic

-- The state of the loop of `parse_set`.
pub record SetState : Type 0 where
  pub index : ℕ
  pub condition : Condition
  pub expiry : Expiry

abbrev pub is_always : Condition → Bool
is_always Condition.always = true
is_always _ = false

abbrev pub is_clear : Expiry → Bool
is_clear Expiry.clear = true
is_clear _ = false

abbrev pub invalid_expire : Bytes → Bytes
invalid_expire name = codes "ERR invalid expire time in '" ++ name ++ codes "' command"

abbrev pub in_seconds : Bool → Bytes → ℤ → Run ℤ
in_seconds true name value = or_else (checked_mul value (pos 1000)) (err (invalid_expire name))
in_seconds false name value = ok value

-- The branch of `EX` and `PX`.
unfoldable pub set_duration : List Bytes → Bytes → SetState → Run SetState
set_duration a option s =
    if not (is_clear s.expiry) || s.index + 1 == length a then err syntax_error else (do
      value ← arg a (s.index + 1)
      parsed ← integer value
      duration ← in_seconds (eq_ignore_ascii_case option (codes "ex")) (codes "set") parsed
      if leb_ℤ duration (pos 0)
          then err (invalid_expire (codes "set"))
          else ok
              (record s { index = s.index + 1 + 1; expiry = Expiry.after_milliseconds duration }))

-- The body of the loop of `parse_set`.
unfoldable pub set_step : List Bytes → SetState → Run SetState
unfolding set_duration
set_step a s = do
  option ← arg a s.index
  let nx = eq_ignore_ascii_case option (codes "nx")
  if nx || eq_ignore_ascii_case option (codes "xx")
      then (if is_always s.condition
          then ok (record s {
            index = s.index + 1;
            condition = if nx then Condition.if_absent else Condition.if_present;
          })
          else err syntax_error)
      else if eq_ignore_ascii_case option (codes "keepttl")
      then (if is_clear s.expiry
          then ok (record s { index = s.index + 1; expiry = Expiry.keep })
          else err syntax_error)
      else if eq_ignore_ascii_case option (codes "ex") || eq_ignore_ascii_case option (codes "px")
      then set_duration a option s
      else err syntax_error

-- The loop of `parse_set`, on fuel.
unfoldable pub set_loop : ℕ → List Bytes → SetState → Run SetState
set_loop zero a s = out_of_fuel
set_loop (suc fuel) a s =
    let next = set_step a s >>= λ s'. set_loop fuel a s' in
    if ltb s.index (length a) then next else ok s

unfoldable pub parse_set : List Bytes → Run Operation
unfolding set_loop
parse_set a = do
  s ←
      set_loop (length a) a
        (record { index = 3; condition = Condition.always; expiry = Expiry.clear })
  key ← arg a 1
  value ← arg a 2
  ok (Operation.set key value s.condition s.expiry)

abbrev pub not_printable : Bytes → Bool
not_printable [] = false
not_printable (b ∷ rest) = not (leb 33 b && leb b 126) || not_printable rest

-- `client_name`
unfoldable pub client_name : Bytes → ParseLimits → Run (Unit {0})
client_name value limits =
    if ltb limits.max_client_metadata_bytes (length value) || not_printable value
    then err (codes "ERR Client names cannot contain spaces, newlines or special characters")
    else ok tt

-- The state of the loop of `parse_hello`.
pub record HelloState : Type 0 where
  pub index : ℕ
  pub auth : Option (Bytes × Bytes)
  pub name : Option Bytes

abbrev pub is_none {ℓ} : {A : Type ℓ} → Option A → Bool
is_none none = true
is_none (some a) = false

unfoldable pub hello_auth : List Bytes → HelloState → Run HelloState
hello_auth a s = do
  username ← arg a (s.index + 1)
  password ← arg a (s.index + 2)
  ok (record s { index = s.index + 3; auth = some (username, password) })

unfoldable pub hello_name : List Bytes → ParseLimits → HelloState → Run HelloState
hello_name a limits s = do
  value ← arg a (s.index + 1)
  checked ← client_name value limits
  ok (record s { index = s.index + 2; name = some value })

-- The body of the loop of `parse_hello`.
unfoldable pub hello_step : List Bytes → ParseLimits → HelloState → Run HelloState
unfolding hello_auth hello_name
hello_step a limits s = do
  option ← arg a s.index
  if eq_ignore_ascii_case option (codes "auth") && is_none s.auth && ltb (s.index + 2) (length a)
      then hello_auth a s
      else if eq_ignore_ascii_case option (codes "setname")
          && is_none s.name
          && ltb (s.index + 1) (length a)
      then hello_name a limits s
      else err syntax_error

unfoldable pub hello_loop : ℕ → List Bytes → ParseLimits → HelloState → Run HelloState
hello_loop zero a limits s = out_of_fuel
hello_loop (suc fuel) a limits s =
    let next = hello_step a limits s >>= λ s'. hello_loop fuel a limits s' in
    if ltb s.index (length a) then next else ok s

-- `a.get(1).map(integer).transpose()`
abbrev pub protocol_of : Option Bytes → Run (Option ℤ)
protocol_of none = ok none
protocol_of (some value) = do n ← integer value; ok (some n)

unfoldable pub parse_hello : List Bytes → ParseLimits → Run Command
parse_hello a limits = do
  protocol ← protocol_of (get_elem? a 1)
  s ← hello_loop (length a) a limits (record { index = 2; auth = none; name = none })
  ok (hello protocol s.auth s.name)
