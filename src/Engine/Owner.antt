-- ===== src/Engine/Owner.antt =====
-- An owner of the engine: the state of `owner_loop` of crates/recall-server/src/engine.rs, and what
-- each of its branches does. A failed assertion, an `expect` and an abort of the process panic; a
-- message is answered by the value that goes into its channel.
pub mod Steps
pub mod Reach
mod Tests
use recall.Prelude.{ℕ, Bool, true, false, not, ◌&&◌, Option, none, some, Bytes, ◌==◌, if◌then◌else◌}
use recall.Prelude.Int.{ℤ}
use recall.Run.{Run, ok, err, panic, out_of_fuel, ◌>>=◌, or_else}
use recall.Protocol.{Reply, error}
use recall.Command.{Operation}
use recall.Store.{Shard, ShardStats, Prepared, stats}
use recall.Store.Prepare.{prepare}
use recall.Store.Apply.{apply, execute, expire_due}

pub record Reservation : Type 0 where
  pub id : ℕ
  pub prepared : Option Prepared

pub data Control : Type 0 where
  reserve : (id : ℕ) → Control
  prepare_for : (id : ℕ) → Operation → (now : ℤ) → Control
  apply_for : (id : ℕ) → Control
  release : (id : ℕ) → Control
  sample : Control
  stop : Control

-- What goes back to the sender of a message.
pub data Response : Type 0 where
  done : Response
  prepared_reply : Reply → Response
  failed : (message : Bytes) → Response
  sampled : ShardStats → Response

-- The locals of `owner_loop`; `closed` is set by `data.close()`.
pub record Owner : Type 0 where
  pub shard : Shard
  pub reservation : Option Reservation
  pub stopping : Bool
  pub data_turn : Bool
  pub closed : Bool

abbrev pub is_free : Owner → Bool
is_free o = elim o.reservation [ none ↦ true | some r ↦ false ]

-- The reservation that a message speaks of.
unfoldable pub active : Owner → ℕ → Run Reservation
active o id = or_else o.reservation panic >>= λ r. if r.id == id then ok r else panic

abbrev pub answer_prepare : Owner → ℕ → Run Prepared → Run (Owner × Response)
answer_prepare o id (ok p) = ok (
  record o { reservation = some (record { id = id; prepared = some p }) },
  prepared_reply p.response,
)
answer_prepare o id (err e) = ok (o, failed e)
answer_prepare o id panic = panic
answer_prepare o id out_of_fuel = out_of_fuel

unfoldable pub handle_prepare :
    (reserves : ℕ → Bool) → Owner → ℕ → Operation → ℤ → Run (Owner × Response)
handle_prepare reserves o id operation now = do
  r ← active o id
  elim r.prepared [
    | some p ↦ panic
    | none ↦ answer_prepare o id (prepare reserves o.shard operation now)
  ]

unfoldable pub handle_apply : Owner → ℕ → Run (Owner × Response)
handle_apply o id = do
  r ← active o id
  prepared ← or_else r.prepared panic
  (reply, shard) ← apply o.shard prepared
  ok (record o { shard = shard; reservation = some (record { id = r.id; prepared = none }) }, done)

unfoldable pub handle_release : Owner → ℕ → Run (Owner × Response)
handle_release o id = do
  r ← active o id
  ok (record o { reservation = none; data_turn = true }, done)

-- The `match` on a control message.
unfoldable pub handle : (reserves : ℕ → Bool) → Owner → Control → Run (Owner × Response)
handle reserves o (reserve id) =
    if is_free o
    then ok (record o { reservation = some (record { id = id; prepared = none }) }, done)
    else panic
handle reserves o (prepare_for id operation now) = handle_prepare reserves o id operation now
handle reserves o (apply_for id) = handle_apply o id
handle reserves o (release id) = handle_release o id
handle reserves o sample = ok (record o { data_turn = true }, sampled (stats o.shard))
handle reserves o stop =
    if is_free o then ok (record o { closed = true; stopping = true }, done) else panic

-- The control channel has closed.
unfoldable pub handle_closed : Owner → Run Owner
handle_closed o = if is_free o then ok (record o { closed = true; stopping = true }) else panic

unfoldable pub handle_tick : Owner → ℤ → (batch : ℕ) → Run Owner
handle_tick o now batch = do
  (removed, shard) ← expire_due o.shard now batch
  ok (record o { shard = shard; data_turn = true })

abbrev pub local_reply : Owner → Run (Reply × Shard) → Run (Owner × Reply)
local_reply o (ok (reply, shard)) = ok (record o { shard = shard }, reply)
local_reply o (err e) = ok (o, error e)
local_reply o panic = panic
local_reply o out_of_fuel = out_of_fuel

-- `execute_local`
unfoldable pub execute_local : (reserves : ℕ → Bool) → Owner → Operation → ℤ → Run (Owner × Reply)
execute_local reserves o operation now = local_reply o (execute reserves o.shard operation now)
