-- ===== src/Store/Tests.antt =====
-- Runs of a shard after the tests of the source, and the theorems about it at concrete inputs.
use recall.Prelude.{
  ℕ, zero, suc, ◌<◌, ◌≡◌, refl, Bool, true, none, some, [], ◌∷◌, Bytes, bytes_Eq, bytes_eq,
  bytes_eq_iff, arith, get_or,
}
use recall.Prelude.Int.{pos, pos_part, neg_part, checked_add, checked, in_i64, ◌+ℤ◌, ◌-ℤ◌}
use recall.Map.{get, insert, remove, total}
use recall.Run.{Run, ok, ◌>>=◌, Returns}
use recall.Decimal.{decimal_digits}
use recall.Protocol
use recall.Protocol.{Reply, integer, bulk, array, replies, ok_reply, encoded_len, fold_len}
use recall.Command.{Operation, if_absent, clear, after_milliseconds, keys}
use recall.Expiry.{up, load, set_timer, remove_timer, swap_remove}
use recall.Expiry.Positions.{deadline_of, key_at}
use recall.Expiry.Update
use recall.Store.{Shard, ShardLimits, new, observe, is_due}
use recall.Store.Prepare.{
  prepare, respond, respond_get, respond_set, deadline_for, preflight, budget_loop, plus_if,
  minus_if,
}
use recall.Store.Apply.{
  apply, apply_loop, apply_timer, apply_entry, next_revision, execute, expire_due,
}
use recall.Store.Valid.{IsValid}
use recall.Store.View.{live}
use recall.Store.Spec.{answer}
use recall.Store.Respond.{Matches}
use recall.Store.Promise.{respond-Matches}
use recall.Store.Execute.{Executed, execute_correct}
use recall.Store.Cleanup.{IsSwept, expire_due_correct}
use recall.Store.Fresh.{Created, new_correct}

abbrev pub all : ℕ → Bool
all n = true

abbrev limits : ShardLimits
limits = record { max_keys = 2; max_payload_bytes = 8; max_reply_bytes = 1024 }

abbrev pub k : Bytes
k = b'k' ∷ []

abbrev pub one : Bytes
one = b'1' ∷ []

-- A shard that holds `k`, with the value 1 and the deadline 1000.
abbrev pub sample : Shard
sample = record {
  entries = (k, record { value = one; expires_at_ms = some (pos 1000) }) ∷ [];
  expiry = record { heap = record { key = k; deadline = pos 1000 } ∷ []; positions = (k, 0) ∷ [] };
  limits = limits;
  payload_bytes = 2;
  revision = 1;
  expired_keys = 0;
  applied_commands = 1;
}

sample_made :
    (new all all limits >>= λ s.
    execute all s (Operation.set k one if_absent (after_milliseconds (pos 1000))) (pos 0))
    ≡ ok (ok_reply, sample)
unfolding new execute prepare respond respond_set deadline_for observe preflight budget_loop plus_if
    minus_if apply apply_loop apply_timer apply_entry next_revision keys get insert remove set_timer
    remove_timer up load pos_part neg_part checked_add checked in_i64 ◌+ℤ◌ ◌-ℤ◌ encoded_len
    Protocol.checked_add bytes_eq is_due
sample_made = refl

-- The tests of the source, one after another on one shard.
abbrev session : Run (Reply × Reply × Reply)
session = do
  again ← execute all sample (Operation.set k (b'2' ∷ []) if_absent clear) (pos 1)
  got ← execute all again.1 (Operation.get k) (pos 999)
  gone ← execute all got.1 (Operation.get k) (pos 1000)
  ok (again.0, got.0, gone.0)

session_replies : session ≡ ok (bulk none, bulk (some one), bulk none)
unfolding execute prepare respond respond_set respond_get deadline_for observe preflight budget_loop
    plus_if minus_if apply apply_loop apply_timer apply_entry next_revision keys get insert remove
    set_timer remove_timer swap_remove up load pos_part neg_part ◌+ℤ◌ ◌-ℤ◌ encoded_len
    Protocol.checked_add decimal_digits bytes_eq is_due
session_replies = refl

sample_keys : (i : ℕ) → i < 1 → get (key_at sample.expiry.heap i) sample.expiry.positions ≡ some i
unfolding get get_or bytes_eq
sample_keys zero h = refl
sample_keys (suc i) h = absurd (omega arith)

sample_places :
    (j : Bytes) (i : ℕ)
    → get j sample.expiry.positions ≡ some i
    → (i < 1) × (key_at sample.expiry.heap i ≡ j)
unfolding get get_or
sample_places j i h = ground (arith, bytes_eq_iff k j)

sample_index : Update.IsValid sample.expiry
sample_index = record {
  indexed = record { keys = sample_keys; places = sample_places };
  ordered = λ c p q. absurd (omega arith);
}

pub sample-IsValid : IsValid sample
unfolding total get deadline_of get_or
sample-IsValid = record {
  synced = record {
    distinct = (refl, tt);
    index = sample_index;
    deadlines = λ j. ground (arith, bytes_eq_iff k j);
    timers = refl;
  };
  accounted = refl;
  keys_within = omega arith;
  payload_within = omega arith;
}

execute_correct_example :
    Executed all sample
      (Operation.increment k (pos 4) true)
      (pos 10)
      (execute all sample (Operation.increment k (pos 4) true) (pos 10))
execute_correct_example =
    execute_correct all sample (Operation.increment k (pos 4) true) (pos 10) sample-IsValid
      (omega arith)

respond-Matches_example :
    Matches sample
      (pos 1000)
      (respond sample (Operation.delete (k ∷ k ∷ [])) (pos 1000) [])
      (answer (Operation.delete (k ∷ k ∷ [])) (pos 1000) (live sample (pos 1000)))
respond-Matches_example = respond-Matches sample (Operation.delete (k ∷ k ∷ [])) (pos 1000)

expire_due_correct_example :
    Returns (IsSwept sample (pos 2000) 3 0) (expire_due sample (pos 2000) 3)
expire_due_correct_example = expire_due_correct sample (pos 2000) 3 sample-IsValid (omega arith)

new_correct_example : Created all all limits (new all all limits)
new_correct_example = new_correct all all limits
