-- ===== src/Session/Tests.antt =====
-- Commands of a session under a password, and the theorems at them.
use recall.Prelude.{
  ℕ, ◌+◌, ◌≡◌, refl, true, Option, none, some, List, [], ◌∷◌, Bytes, codes, bytes_eq, bytes_eq_iff,
}
use recall.Run.{ok, Returns}
use recall.Protocol.{Reply, ok_reply}
use recall.Command.{Operation}
use recall.Command.Options.{Command, auth, data_command}
use recall.Config.{Config}
use recall.Config.Tests.{three}
use recall.Engine.Groups.{Every}
use recall.Store.{ShardStats}
use recall.Session.{Session, Metrics, new, authenticate, execute_auth, execute, execute_all, serve}
use recall.Session.Gate.{Gated, execute-Gated, NoneUnlocks, execute_all-shut, IsGood}
use recall.Session.Stays.{Stays, execute-Stays}

abbrev config : Config
config = record three { password = some (codes "secret") }

abbrev pub metrics : Metrics
metrics = record {
  active_connections = 1;
  total_connections = 1;
  total_commands = 0;
  rejected_connections = 0;
  protocol_errors = 0;
  io_timeouts = 0;
}

-- An engine that counts the commands that reach it.
abbrev pub count_up : ℕ → Operation → ℕ × Reply
count_up n operation = (n + 1, ok_reply)

abbrev pub no_samples : ℕ → List ShardStats
no_samples n = []

abbrev first : Session
first = new 7 config

abbrev wrong : Command
wrong = auth none (codes "guess")

abbrev right : Command
right = auth (some (codes "default")) (codes "secret")

abbrev get : Command
get = data_command (Operation.get (codes "k"))

unlocked_run :
    execute_all count_up no_samples 1
      (codes "0.1.0")
      config
      metrics
      0
      first
      (get ∷ wrong ∷ get ∷ right ∷ get ∷ [])
    ≡ ok (1, record first { authenticated = true })
unfolding execute_all execute execute_auth authenticate serve bytes_eq
unlocked_run = refl

execute-Gated_example :
    Returns
      (Gated count_up no_samples 1 (codes "0.1.0") config metrics 0 first right)
      (execute count_up no_samples 1 (codes "0.1.0") config metrics 0 first right)
execute-Gated_example =
    execute-Gated count_up no_samples 1 (codes "0.1.0") config metrics 0 first right refl

different : bytes_eq (codes "secret") (codes "guess") ≡ true → ⊥
unfolding bytes_eq
different e = cc

wrong_locked :
    (c : Option Bytes × Bytes)
    → some (none, codes "guess") ≡ some c
    → some (codes "secret") ≡ some c.1
    → ⊥
wrong_locked c e expected =
    let guessed : codes "guess" ≡ c.1 = cc in
    let same : codes "secret" ≡ codes "guess" = cc in
    let tests = (bytes_eq_iff (codes "secret") (codes "guess")).1 same in absurd (different tests)

all_locked : NoneUnlocks count_up no_samples 1 (codes "0.1.0") config metrics (get ∷ wrong ∷ [])
unfolding Every IsGood
all_locked =
    (λ (c, e, good). absurd cc, (λ (c, e, (expected, user)). wrong_locked c e expected, tt))

execute_all-shut_example :
    execute_all count_up no_samples 1 (codes "0.1.0") config metrics 0 first (get ∷ wrong ∷ [])
    ≡ ok (0, first)
execute_all-shut_example =
    execute_all-shut count_up no_samples 1 (codes "0.1.0") config metrics 0 first (get ∷ wrong ∷ [])
      refl all_locked

execute-Stays_example :
    Returns
      (Stays count_up no_samples 1
        (codes "0.1.0")
        config
        metrics
        (record first { authenticated = true }))
      (execute count_up no_samples 1
        (codes "0.1.0")
        config
        metrics
        5
        (record first { authenticated = true })
        wrong)
execute-Stays_example =
    execute-Stays count_up no_samples 1 (codes "0.1.0") config metrics 5
      (record first { authenticated = true }) wrong refl
