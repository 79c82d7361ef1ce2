-- ===== src/Engine/Admission/Tests.antt =====
-- Commands that are admitted, and the theorems at them.
use recall.Prelude.{◌≡◌, refl, false, arith, length, codes}
use recall.Prelude.Int.{pos}
use recall.Run.{Returns}
use recall.Protocol.{error}
use recall.Command.{Operation, keys, payload_bytes}
use recall.Store.Tests.{all, k}
use recall.Engine.{route}
use recall.Engine.Coordinate.Tests.{owners, command, owners-Idle}
use recall.Engine.Admission.{admit, submit, to_owner, to_coordinator, rejected, all_at}
use recall.Engine.Admission.Sent.{Admitted, admit-Admitted, Submitted, submit-Submitted}

get_sent : admit length 2 1024 false (Operation.get k) ≡ to_owner 1 385
unfolding admit all_at route keys payload_bytes
get_sent = refl

command_sent : admit length 2 1024 false command ≡ to_coordinator 515
unfolding admit all_at route keys payload_bytes
command_sent = refl

too_long :
    admit length 2 384 false (Operation.get k)
    ≡ rejected (error (codes "BUSY command exceeds queue byte capacity"))
unfolding admit all_at route keys payload_bytes
too_long = refl

admit-Admitted_example : Admitted length 2 1024 false command (admit length 2 1024 false command)
admit-Admitted_example = admit-Admitted length 2 1024 false command (omega arith)

submit-Submitted_example :
    Returns
      (Submitted all length 1024 1024 false owners command (pos 10) 1)
      (submit all length 1024 1024 false owners command (pos 10) 1)
submit-Submitted_example =
    submit-Submitted all length 1024 1024 false owners command (pos 10) 1 (omega arith) owners-Idle
