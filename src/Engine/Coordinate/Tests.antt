-- ===== src/Engine/Coordinate/Tests.antt =====
-- A command on two owners, and the theorem at it.
use mathlib.Core.Path.{subst}
use recall.Prelude.{
  ℕ, zero, suc, ◌≡◌, refl, false, none, some, List, [], ◌∷◌, arith, length, get_elem?, bytes_eq,
  get_or,
}
use recall.Prelude.Int.{pos, pos_part, neg_part, ◌+ℤ◌, ◌-ℤ◌}
use recall.Map.{get, insert, remove}
use recall.Run.{ok, Returns, ◌>>=◌}
use recall.Protocol
use recall.Protocol.{integer, Reply, encoded_len}
use recall.Command.{Operation, keys}
use recall.Store.Tests.{all, k, sample, sample-IsValid}
use recall.Engine.{Part, split, split_keys, group, push, enumerate, route}
use recall.Engine.Owner.{Owner, handle, handle_prepare, handle_apply, handle_release, active}
use recall.Engine.Coordinate.{coordinate, send_all, control, prepare_all, decide, combine, sum_all}
use recall.Store.{observe, is_due}
use recall.Store.Prepare.{prepare, respond, preflight, delete_loop, budget_loop, plus_if, minus_if}
use recall.Store.Apply.{apply, apply_loop, apply_entry, apply_timer, next_revision}
use recall.Expiry.{remove_timer, swap_remove, load, up}
use recall.Decimal.{decimal_digits}
use recall.Engine.Coordinate.Messages.{Idle}
use recall.Engine.Coordinate.Atomic.{Atomic, coordinate-Atomic}

abbrev idle : Owner
idle = record {
  shard = sample;
  reservation = none;
  stopping = false;
  data_turn = false;
  closed = false;
}

abbrev pub owners : List Owner
owners = idle ∷ idle ∷ []

abbrev pub command : Operation
command = Operation.delete (k ∷ (b'k' ∷ b'k' ∷ []) ∷ [])

abbrev parts : List Part
parts =
    record { owner = 0; operation = Operation.delete ((b'k' ∷ b'k' ∷ []) ∷ []); positions = 1 ∷ [] }
    ∷ record { owner = 1; operation = Operation.delete (k ∷ []); positions = 0 ∷ [] }
    ∷ []

command-split : split command length 2 ≡ ok parts
unfolding split split_keys group push enumerate route
command-split = refl

idle-Idle : Idle idle
idle-Idle = record { valid = sample-IsValid; below = omega arith; free = refl; going = refl }

some-injective : {o : Owner} → some idle ≡ some o → idle ≡ o
some-injective e = cc

pub owners-Idle : (j : ℕ) (o : Owner) → get_elem? owners j ≡ some o → Idle o
owners-Idle zero o e = subst Idle (some-injective e) idle-Idle
owners-Idle (suc zero) o e = subst Idle (some-injective e) idle-Idle
owners-Idle (suc (suc j)) o e = cc

coordinate-Atomic_example :
    Returns
      (Atomic all 1 (pos 10) owners 1024 command parts)
      (coordinate all length 1024 owners command (pos 10) 1)
coordinate-Atomic_example =
    coordinate-Atomic all 1 (pos 10) owners length 1024 command parts (omega arith) command-split
      owners-Idle

replied :
    (coordinate all length 1024 owners command (pos 10) 1 >>= λ r. ok r.1) ≡ ok (integer (pos 1))
unfolding coordinate split send_all split_keys group enumerate push route control handle prepare_all
    handle_prepare handle_apply handle_release active prepare respond preflight encoded_len
    Protocol.checked_add decimal_digits delete_loop observe keys get get_or bytes_eq budget_loop
    plus_if minus_if pos_part neg_part ◌+ℤ◌ ◌-ℤ◌ decide combine sum_all apply apply_loop apply_entry
    apply_timer next_revision insert remove remove_timer swap_remove load up is_due
replied = refl
