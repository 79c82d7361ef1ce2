-- ===== src/Engine/Coordinate.antt =====
-- `coordinate` and `combine` of crates/recall-server/src/engine.rs, which run a command on several
-- owners. The owners are a list that `coordinate` takes and returns; a message to an owner is answered
-- before the next one is sent, as in the source, and other rounds of the owners are left out.
pub mod Phases
pub mod Combine
pub mod Parts
pub mod Messages
pub mod Voting
pub mod Decide
pub mod Atomic
pub mod Tests
use recall.Prelude.{
  ℕ, zero, suc, ◌+◌, Bool, true, false, Option, none, some, List, [], ◌∷◌, ◌++◌, map, Bytes, codes,
  ◌==◌, ltb, if◌then◌else◌, length, get_elem?, set,
}
use recall.Prelude.Int.{ℤ, pos, ◌+ℤ◌}
use recall.Run.{Run, ok, err, panic, out_of_fuel, ◌>>=◌, or_else, at}
use recall.Protocol.{
  Reply, Replies, nil, cons, simple, error, integer, bulk, array, ok_reply, replies, count,
  encoded_len,
}
use recall.Command.{Operation}
use recall.Store.{ShardStats}
use recall.Store.Prepare.{exceeds}
use recall.Engine.{Part, split}
use recall.Engine.Owner.{
  Control, Response, Owner, reserve, prepare_for, apply_for, release, done, prepared_reply, failed,
  sampled, handle,
}

-- `control`, with the completion that comes back. An owner that stops answers no message, which is
-- fatal.
unfoldable pub control :
    (reserves : ℕ → Bool) → List Owner → ℕ → Control → Run (List Owner × Response)
control reserves owners index message = do
  o ← at owners index
  if o.stopping
      then panic
      else do (o', response) ← handle reserves o message; ok (set owners index o', response)

-- The loops that send the same message to the owner of each part.
unfoldable pub send_all :
    (reserves : ℕ → Bool) → List Owner → List Part → Control → Run (List Owner)
send_all reserves owners [] message = ok owners
send_all reserves owners (part ∷ rest) message = do
  (owners', response) ← control reserves owners part.owner message
  send_all reserves owners' rest message

-- What the owners say to the preparation: all replies, or the first error.
pub data Votes : Type 0 where
  agreed : (results : List Reply) → Votes
  declined : (failure : Reply) → Votes

-- The loop of preparations, with the results so far.
unfoldable pub prepare_all :
    (reserves : ℕ → Bool) → List Owner → List Part → ℕ → ℤ → List Reply → Run (List Owner × Votes)
prepare_all reserves owners [] id now results = ok (owners, agreed results)
prepare_all reserves owners (part ∷ rest) id now results = do
  (owners', response) ← control reserves owners part.owner (prepare_for id part.operation now)
  elim response [
    | prepared_reply reply ↦ prepare_all reserves owners' rest id now (results ++ reply ∷ [])
    | failed message ↦ ok (owners', declined (error message))
    | done ↦ panic
    | sampled stats ↦ panic
  ]

-- The sum of the results of `combine`.
unfoldable pub sum_all : List Reply → Run ℤ
sum_all [] = ok (pos 0)
sum_all (integer value ∷ rest) = sum_all rest >>= λ total. ok (value +ℤ total)
sum_all (_ ∷ rest) = panic

-- `for (&position, value) in part.positions.iter().zip(values)`
unfoldable pub place : List ℕ → Replies → List Reply → Run (List Reply)
place [] values response = ok response
place (position ∷ rest) nil response = ok response
place (position ∷ rest) (cons value values) response = do
  old ← at response position
  place rest values (set response position value)

-- `for (part, result) in parts.iter().zip(results)`
unfoldable pub place_all : List Part → List Reply → List Reply → Run (List Reply)
place_all [] results response = ok response
place_all (part ∷ parts) [] response = ok response
place_all (part ∷ parts) (array values ∷ results) response =
    if length part.positions == count values
    then (do response' ← place part.positions values response; place_all parts results response')
    else panic
place_all (part ∷ parts) (_ ∷ results) response = panic

unfoldable pub combine : Operation → List Part → List Reply → Run Reply
combine (Operation.multi_set pairs) parts results = ok ok_reply
combine (Operation.multi_get keys) parts results = do
  response ← place_all parts results (map (λ key. bulk none) keys)
  ok (array (replies response))
combine (Operation.delete keys) parts results = sum_all results >>= λ n. ok (integer n)
combine (Operation.exists keys) parts results = sum_all results >>= λ n. ok (integer n)
combine _ parts results = panic

-- The decision of `coordinate`: every owner installs, or none does.
unfoldable pub decide :
    (reserves : ℕ → Bool)
    → (max_reply_bytes : ℕ) → List Owner
    → List Part
    → Operation
    → ℕ
    → Votes
    → Run (List Owner × Reply)
decide reserves max_reply_bytes owners parts operation id (declined failure) = ok (owners, failure)
decide reserves max_reply_bytes owners parts operation id (agreed results) = do
  reply ← combine operation parts results
  if exceeds (encoded_len reply) max_reply_bytes
      then ok (owners, error (codes "ERR response exceeds configured limit"))
      else do owners' ← send_all reserves owners parts (apply_for id); ok (owners', reply)

unfoldable pub coordinate :
    (reserves : ℕ → Bool)
    → (hash : Bytes → ℕ) → (max_reply_bytes : ℕ) → List Owner
    → Operation
    → ℤ
    → ℕ
    → Run (List Owner × Reply)
coordinate reserves hash max_reply_bytes owners operation now id = do
  parts ← split operation hash (length owners)
  reserved ← send_all reserves owners parts (reserve id)
  (prepared, votes) ← prepare_all reserves reserved parts id now []
  (decided, reply) ← decide reserves max_reply_bytes prepared parts operation id votes
  released ← send_all reserves decided parts (release id)
  ok (released, reply)
