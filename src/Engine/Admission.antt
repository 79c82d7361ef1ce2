-- ===== src/Engine/Admission.antt =====
-- `EngineHandle::execute` of crates/recall-server/src/engine.rs: which commands it refuses at once, and
-- where it sends the others. The wait for the queue's credits and its deadline are left out.
pub mod Sent
mod Tests
use recall.Prelude.{
  ℕ, ◌+◌, ◌*◌, ◌-◌, ◌^◌, Bool, true, false, ◌&&◌, ◌||◌, List, [], ◌∷◌, Bytes, codes, ltb, ◌==◌,
  if◌then◌else◌, length,
}
use recall.Prelude.Int.{ℤ}
use recall.Run.{Run, ok, ◌>>=◌, at}
use recall.Prelude.{set}
use recall.Protocol.{Reply, error}
use recall.Command.{Operation, keys, payload_bytes}
use recall.Config.{saturating_add}
use recall.Engine.{route}
use recall.Engine.Owner.{Owner, execute_local}
use recall.Engine.Coordinate.{coordinate}

-- What becomes of a command: a reply at once, the queue of one owner, or that of the coordinator.
pub data Admission : Type 0 where
  rejected : Reply → Admission
  to_owner : (owner charge : ℕ) → Admission
  to_coordinator : (charge : ℕ) → Admission

-- `usize::saturating_mul`
abbrev pub saturating_mul : ℕ → ℕ → ℕ
saturating_mul a b = if ltb (a * b) (2 ^ 64) then a * b else 2 ^ 64 - 1

-- `keys.iter().all(|key| self.owner_for(key) == first_owner)`
unfoldable pub all_at : (hash : Bytes → ℕ) → (owners first_owner : ℕ) → List Bytes → Bool
all_at hash owners first_owner [] = true
all_at hash owners first_owner (key ∷ rest) =
    route hash owners key == first_owner && all_at hash owners first_owner rest

abbrev pub charge_of : Operation → ℕ
charge_of operation =
    saturating_add
      (saturating_add (payload_bytes operation) (saturating_mul (length (keys operation)) 128)) 256

-- The guards of `execute` after the keys are known not to be empty, and the choice of the queue.
abbrev pub admit_keys :
    (hash : Bytes → ℕ) → (owners queue_bytes : ℕ) → Operation → List Bytes → Admission
admit_keys hash owners queue_bytes operation [] = rejected (error (codes "ERR empty key set"))
admit_keys hash owners queue_bytes operation (first_key ∷ rest) =
    let first_owner = route hash owners first_key in
    let single_owner = all_at hash owners first_owner (first_key ∷ rest) in
    let charge = charge_of operation in
    if ltb queue_bytes charge || ltb (2 ^ 32 - 1) charge
    then rejected (error (codes "BUSY command exceeds queue byte capacity"))
    else if single_owner
    then to_owner first_owner charge
    else to_coordinator charge

unfoldable pub admit :
    (hash : Bytes → ℕ) → (owners queue_bytes : ℕ) → (closing : Bool) → Operation → Admission
admit hash owners queue_bytes closing operation =
    if closing
    then rejected (error (codes "BUSY Recall is shutting down"))
    else admit_keys hash owners queue_bytes operation (keys operation)

-- `execute` of a command whose turn comes.
unfoldable pub submit :
    (reserves : ℕ → Bool)
    → (hash : Bytes → ℕ) → (queue_bytes max_reply_bytes : ℕ) → (closing : Bool) → List Owner
    → Operation
    → ℤ
    → ℕ
    → Run (List Owner × Reply)
submit reserves hash queue_bytes max_reply_bytes closing owners operation now id =
    elim (admit hash (length owners) queue_bytes closing operation) [
      | rejected reply ↦ ok (owners, reply)
      | to_owner owner charge ↦ do
        o ← at owners owner
        (o', reply) ← execute_local reserves o operation now
        ok (set owners owner o', reply)
      | to_coordinator charge ↦ coordinate reserves hash max_reply_bytes owners operation now id
    ]
