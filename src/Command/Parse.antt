-- ===== src/Command/Parse.antt =====
-- `parse` of crates/recall-core/src/command.rs: from the arguments of a request to a command within
-- the limits.
pub mod Named
pub mod Accepted
pub mod Discovery
pub mod Print
mod Tests
use recall.Prelude.{
  ℕ, zero, suc, ◌+◌, ◌%◌, Bool, true, false, not, ◌&&◌, ◌||◌, Option, none, some, List, [], ◌∷◌,
  ◌++◌, Bytes, codes, ltb, leb, if◌then◌else◌, ◌==◌, length, get_elem?, drop,
}
use recall.Prelude.Int.{ℤ, pos, checked_mul}
use recall.Run.{Run, ok, err, ◌>>=◌, or_else}
use recall.Command.{Operation, keys, integer}
use recall.Command.Specs.{
  Name, MetadataCommand, text, specs, eq_ignore_ascii_case, find_spec, wrong_arity,
}
use recall.Command.Options.{
  ParseLimits, ClientCommand, Command, data_command, syntax_error, arg, in_seconds, parse_set,
  client_name, parse_hello,
}

-- The attribute of `CLIENT SETINFO`: whether it is the library's name.
unfoldable pub library_name : Bytes → Run Bool
library_name attribute =
    if eq_ignore_ascii_case attribute (codes "lib-name")
    then ok true
    else if eq_ignore_ascii_case attribute (codes "lib-ver")
    then ok false
    else err (codes "ERR unsupported CLIENT SETINFO attribute")

unfoldable pub client_set_name : List Bytes → ParseLimits → Run ClientCommand
client_set_name a limits = do
  value ← arg a 2
  checked ← client_name value limits
  ok (ClientCommand.set_name value)

unfoldable pub client_set_info : List Bytes → ParseLimits → Run ClientCommand
unfolding library_name
client_set_info a limits = do
  value ← arg a 3
  checked ← client_name value limits
  attribute ← arg a 2
  is_name ← library_name attribute
  ok (ClientCommand.set_info is_name value)

unfoldable pub parse_client : List Bytes → ParseLimits → Run ClientCommand
unfolding client_set_name client_set_info
parse_client a limits = do
  sub ← arg a 1
  if eq_ignore_ascii_case sub (codes "getname") && length a == 2
      then ok ClientCommand.get_name
      else if eq_ignore_ascii_case sub (codes "setname") && length a == 3
      then client_set_name a limits
      else if eq_ignore_ascii_case sub (codes "setinfo") && length a == 4
      then client_set_info a limits
      else err (codes "ERR unsupported CLIENT subcommand or arguments")

-- `chunks_exact(2)` of the arguments of `MSET`
unfoldable pub chunks : List Bytes → List (Bytes × Bytes)
chunks (key ∷ value ∷ rest) = (key, value) ∷ chunks rest
chunks _ = []

-- The amount of the four counting commands.
unfoldable pub amount_of : List Bytes → Run ℤ
amount_of a = if length a == 3 then arg a 2 >>= integer else ok (pos 1)

unfoldable pub increment_of : List Bytes → (subtract : Bool) → Run Command
unfolding amount_of
increment_of a subtract = do
  key ← arg a 1
  amount ← amount_of a
  ok (data_command (Operation.increment key amount subtract))

unfoldable pub expire_of : List Bytes → (seconds : Bool) → Run Command
expire_of a seconds = do
  text ← arg a 2
  value ← integer text
  milliseconds ← in_seconds seconds (codes "expire") value
  key ← arg a 1
  ok (data_command (Operation.expire key milliseconds))

unfoldable pub auth_of : List Bytes → Run Command
auth_of a =
    if length a == 2
    then (do password ← arg a 1; ok (Command.auth none password))
    else if length a == 3
    then (do username ← arg a 1; password ← arg a 2; ok (Command.auth (some username) password))
    else err syntax_error

-- The guard `a.len() == 1` of `COMMAND` stands before the two that read `a[1]`.
unfoldable pub command_of : List Bytes → Run Command
command_of a =
    let others : Run Command = do
      sub ← arg a 1
      if eq_ignore_ascii_case sub (codes "count") && length a == 2
          then ok (Command.metadata MetadataCommand.count)
          else if eq_ignore_ascii_case sub (codes "info")
          then ok (Command.metadata (MetadataCommand.info_of (drop 2 a)))
          else err syntax_error
    in if length a == 1 then ok (Command.metadata MetadataCommand.all) else others

-- The `match` of `parse` on the name in the table; the names that start with "decr" subtract.
unfoldable pub parse_named : Name → List Bytes → ParseLimits → Run Command
unfolding increment_of expire_of auth_of command_of parse_client chunks
parse_named Name.ping a limits =
    if leb (length a) 2 then ok (Command.ping (get_elem? a 1)) else err syntax_error
parse_named Name.echo a limits = do message ← arg a 1; ok (Command.echo message)
parse_named Name.quit a limits = ok Command.quit
parse_named Name.get a limits = do key ← arg a 1; ok (data_command (Operation.get key))
parse_named Name.set a limits = do operation ← parse_set a; ok (data_command operation)
parse_named Name.incr a limits = increment_of a false
parse_named Name.incrby a limits = increment_of a false
parse_named Name.decr a limits = increment_of a true
parse_named Name.decrby a limits = increment_of a true
parse_named Name.del a limits = ok (data_command (Operation.delete (drop 1 a)))
parse_named Name.exists a limits = ok (data_command (Operation.exists (drop 1 a)))
parse_named Name.mget a limits = ok (data_command (Operation.multi_get (drop 1 a)))
parse_named Name.mset a limits =
    if length a % 2 == 1
    then ok (data_command (Operation.multi_set (chunks (drop 1 a))))
    else err syntax_error
parse_named Name.expire a limits = expire_of a true
parse_named Name.pexpire a limits = expire_of a false
parse_named Name.ttl a limits = do key ← arg a 1; ok (data_command (Operation.ttl key false))
parse_named Name.pttl a limits = do key ← arg a 1; ok (data_command (Operation.ttl key true))
parse_named Name.persist a limits = do key ← arg a 1; ok (data_command (Operation.persist key))
parse_named Name.auth a limits = auth_of a
parse_named Name.select a limits = do
  text ← arg a 1
  database ← integer text
  ok (Command.select database)
parse_named Name.hello a limits = parse_hello a limits
parse_named Name.client a limits = do
  sub_command ← parse_client a limits
  ok (Command.client sub_command)
parse_named Name.command a limits = command_of a
parse_named Name.info a limits =
    if leb (length a) 2 then ok (Command.info (get_elem? a 1)) else err syntax_error

abbrev any_longer : ℕ → List Bytes → Bool
any_longer limit [] = false
any_longer limit (k ∷ ks) = ltb limit (length k) || any_longer limit ks

abbrev values : List (Bytes × Bytes) → List Bytes
values [] = []
values ((key, value) ∷ rest) = value ∷ values rest

unfoldable pub value_too_large : Operation → ℕ → Bool
value_too_large (Operation.set key value condition expiry) limit = ltb limit (length value)
value_too_large (Operation.multi_set pairs) limit = any_longer limit (values pairs)
value_too_large _ limit = false

-- The limits on what goes into the store.
unfoldable pub within_limits : ParseLimits → Command → Run Command
unfolding keys value_too_large
within_limits limits (data_command operation) =
    if any_longer limits.max_key_bytes (keys operation)
    then err (codes "ERR key exceeds configured limit")
    else if value_too_large operation limits.max_value_bytes
    then err (codes "ERR value exceeds configured limit")
    else ok (data_command operation)
within_limits limits command = ok command

unfoldable pub wrong_number : Name → Bytes
unfolding text
wrong_number name = codes "ERR wrong number of arguments for '" ++ text name ++ codes "' command"

-- `parse`
unfoldable pub parse : List Bytes → ParseLimits → Run Command
parse [] limits = err (codes "ERR empty command")
parse (name ∷ rest) limits = do
  spec ← or_else (find_spec specs name) (err (codes "ERR unknown command"))
  if wrong_arity spec.arity (length (name ∷ rest))
      then err (wrong_number spec.name)
      else parse_named spec.name (name ∷ rest) limits >>= within_limits limits
