-- ===== src/Engine/Owner/Tests.antt =====
-- A reservation from its start to its end on one owner, and the theorems on owners at it.
use recall.Prelude.{get_or, ◌≡◌, ◌≤◌, ◌+◌, ◌*◌, refl, true, false, none, some, [], arith, bytes_eq}
use recall.Prelude.Int.{pos, pos_part, neg_part, ◌+ℤ◌, ◌-ℤ◌}
use recall.Map.{get}
use recall.Decimal.{decimal_digits}
use recall.Run.{ok, Returns}
use recall.Protocol
use recall.Protocol.{bulk, encoded_len}
use recall.Command.{Operation, keys}
use recall.Store.{Prepared, is_due, observe, stats}
use recall.Store.Prepare.{prepare, respond, respond_get, preflight, budget_loop}
use recall.Store.Tests.{all, k, one, sample, sample-IsValid}
use recall.Engine.Owner.{
  Control, Response, Owner, reserve, prepare_for, apply_for, done, prepared_reply, handle,
  handle_prepare, active,
}
use recall.Engine.Owner.Steps.{Reach, IsSound, control, here, next, Fits}
use recall.Engine.Owner.Reach.{
  Reach-IsSound, Touched, Step-Touched, IsInstalledBy, apply_for-IsInstalledBy, at_rest, rested,
}

abbrev free : Owner
free = record {
  shard = sample;
  reservation = none;
  stopping = false;
  data_turn = true;
  closed = false;
}

abbrev held : Owner
held = record free { reservation = some (record { id = 7; prepared = none }) }

abbrev prepared : Prepared
prepared = record { revision = 1; effects = []; payload_after = 2; response = bulk (some one) }

abbrev ready : Owner
ready = record free { reservation = some (record { id = 7; prepared = some prepared }) }

free-IsSound : IsSound all 3 free
unfolding Fits
free-IsSound = record { valid = sample-IsValid; fits = tt }

reserved : handle all free (reserve 7) ≡ ok (held, done)
unfolding handle
reserved = refl

got :
    handle all held (prepare_for 7 (Operation.get k) (pos 10))
    ≡ ok (ready, prepared_reply (bulk (some one)))
unfolding handle handle_prepare active prepare keys respond respond_get observe get get_or bytes_eq
    preflight budget_loop encoded_len Protocol.checked_add is_due pos_part neg_part ◌+ℤ◌ ◌-ℤ◌
    decimal_digits
got = refl

ready_reached : Reach all 3 free 2 ready
ready_reached = next (next here (control (reserve 7) held done refl reserved)) (
    control (prepare_for 7 (Operation.get k) (pos 10)) ready (prepared_reply (bulk (some one))) refl
      got)

Reach-IsSound_example :
    IsSound all 3 ready × (ready.shard.revision ≤ free.shard.revision + 2 * (3 + 1))
Reach-IsSound_example = Reach-IsSound all 3 free-IsSound (omega arith) ready_reached

Step-Touched_example : Touched all 3 held ready
Step-Touched_example = Step-Touched all 3 refl (
    control (prepare_for 7 (Operation.get k) (pos 10)) ready (prepared_reply (bulk (some one))) refl
      got)

-- The reservation at rest while the owner answers a request for its statistics.
held_reached : Reach all 3 free 1 held
held_reached = next here (control (reserve 7) held done refl reserved)

sampled_at : handle all ready Control.sample ≡ ok (ready, Response.sampled (stats ready.shard))
unfolding handle
sampled_at = refl

apply_for-IsInstalledBy_example :
    Returns
      (IsInstalledBy all 3 held.shard (Operation.get k) (pos 10) (bulk (some one)))
      (handle all ready (apply_for 7))
apply_for-IsInstalledBy_example =
    apply_for-IsInstalledBy all 3 7 (Operation.get k) (pos 10) free-IsSound (omega arith)
      held_reached got
      (rested at_rest
        (control Control.sample ready (Response.sampled (stats ready.shard)) refl sampled_at) refl)
