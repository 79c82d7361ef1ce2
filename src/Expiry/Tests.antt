-- ===== src/Expiry/Tests.antt =====
-- Runs of the index, and the theorems about it at concrete inputs.
use recall.Prelude.{
  ℕ, zero, suc, ◌<◌, ◌≡◌, refl, Option, none, some, [], ◌∷◌, Bytes, bytes_Eq, bytes_eq,
  bytes_eq_iff, arith, get_or,
}
use recall.Prelude.Int.{pos, pos_part, neg_part}
use recall.Map.{get, insert}
use recall.Run.{Run, ok, ◌>>=◌, Returns}
use recall.Expiry.{
  ExpiryIndex, new, load, swap, up, down, set_timer, swap_remove, remove_timer, expired,
}
use recall.Expiry.Positions.{key_at}
use recall.Expiry.Update.{IsValid, Updated, set_timer-Updated}
use recall.Expiry.Removal.{Names, remove_timer-Updated, expired_correct}

abbrev a : Bytes
a = b'a' ∷ []

abbrev b : Bytes
b = b'b' ∷ []

abbrev c : Bytes
c = b'c' ∷ []

-- Three keys, one of them with a new deadline, and one taken out.
abbrev session : Run (Option Bytes)
session = do
  one ← set_timer new a (pos 30)
  two ← set_timer one b (pos 20)
  three ← set_timer two c (pos 10)
  four ← set_timer three a (pos 5)
  five ← remove_timer four a
  ok (expired five (pos 15))

session_result : session ≡ ok (some c)
unfolding set_timer remove_timer up down load swap get insert swap_remove expired pos_part neg_part
    bytes_eq
session_result = refl

abbrev sample : ExpiryIndex
sample = record { heap = record { key = a; deadline = pos 7 } ∷ []; positions = (a, 0) ∷ [] }

sample_keys : (i : ℕ) → i < 1 → get (key_at sample.heap i) sample.positions ≡ some i
unfolding get get_or bytes_eq
sample_keys zero h = refl
sample_keys (suc i) h = absurd (omega arith)

sample_places :
    (k : Bytes) (i : ℕ) → get k sample.positions ≡ some i → (i < 1) × (key_at sample.heap i ≡ k)
unfolding get get_or
sample_places k i h = ground (arith, bytes_eq_iff a k)

sample-IsValid : IsValid sample
sample-IsValid = record {
  indexed = record { keys = sample_keys; places = sample_places };
  ordered = λ c p q. absurd (omega arith);
}

set_timer-Updated_example : Returns (Updated sample b (some (pos 3))) (set_timer sample b (pos 3))
set_timer-Updated_example = set_timer-Updated sample sample-IsValid b (pos 3)

remove_timer-Updated_example : Returns (Updated sample a none) (remove_timer sample a)
remove_timer-Updated_example = remove_timer-Updated sample sample-IsValid a

expired_correct_example : Names sample (pos 9) (expired sample (pos 9))
expired_correct_example = expired_correct sample sample-IsValid (pos 9)
