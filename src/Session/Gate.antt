-- ===== src/Session/Gate.antt =====
-- The gate of authentication: what a session that is not authenticated can do.
use recall.Prelude.{
  ℕ, ◌≡◌, refl, Bool, true, false, ◌&&◌, Option, none, some, List, [], ◌∷◌, Bytes, bytes_eq, codes,
  arith, if◌then◌else◌, ◌⊎◌, inl, inr, Bool-cases, bytes_eq_iff, ap, ◌∙◌,
}
use recall.Prelude.Int.{ℤ}
use recall.Run.{ok, Returns, returned, Returns-result}
use recall.Protocol.{Reply, error, ok_reply}
use recall.Command.{Operation}
use recall.Command.Options.{
  Command, data_command, ping, echo, quit, auth, hello, select, client, info,
}
use recall.Config.{Config}
use recall.Store.{ShardStats}
use recall.Engine.Groups.{Every}
use recall.Session.{
  Session, Metrics, user_matches, is_two, authenticate, execute_auth, greet, execute_hello, execute,
  execute_all,
}

-- The credentials that a command carries.
abbrev pub credentials : Command → Option (Option Bytes × Bytes)
credentials (auth username password) = some (username, password)
credentials (hello protocol (some (username, password)) name) = some (some username, password)
credentials _ = none

-- Credentials are good when the password is the one of the configuration, and the user is not named
-- or is the default one.
unfoldable pub IsGood : Config → Option Bytes × Bytes → Type 0
IsGood config c = (config.password ≡ some c.1) × ((c.0 ≡ none) ⊎ (c.0 ≡ some (codes "default")))

-- A command that carries good credentials.
abbrev pub Unlocks : Config → Command → Type 0
Unlocks config command =
    (c : Option Bytes × Bytes) × (credentials command ≡ some c) × IsGood config c

pub data IsError : Reply → Type 0 where
  an_error : (message : Bytes) → IsError (error message)

-- `authenticate` accepts good credentials only, and answers the others with an error.
data Judged (config : Config) (c : Option Bytes × Bytes) : Option Reply → Type 0 where
  accepted : IsGood config c → Judged config c none
  denied : (message : Bytes) → Judged config c (some (error message))

good_user :
    (username : Option Bytes)
    → user_matches username ≡ true
    → (username ≡ none) ⊎ (username ≡ some (codes "default"))
good_user none e = inl refl
good_user (some name) e =
    let same : name ≡ codes "default" = (bytes_eq_iff name (codes "default")).0 e in
    inr (ap some same)

judge : (config : Config) (c : Option Bytes × Bytes) → Judged config c (authenticate config c.0 c.1)
unfolding authenticate IsGood
judge config (username, password) = by_password config.password refl
  where
    by_password :
        (q : Option Bytes)
        → config.password ≡ q
        → Judged config
            (username, password)
            (elim q [
              | none ↦ some (
                  error
                    (codes "ERR AUTH called without any password configured for the default user."))
              | some expected ↦
                  if bytes_eq expected password && user_matches username
                  then none
                  else some (
                      error (codes "WRONGPASS invalid username-password pair or user is disabled."))
            ])
    by_password none e = denied _
    by_password (some expected) e =
        elim (Bool-cases (bytes_eq expected password && user_matches username)) [
          | inl matches ↦ rw matches (
              accepted (
                e ∙ ap some ((bytes_eq_iff expected password).0 (ground (arith, matches))),
                good_user username (ground (arith, matches)),
              ))
          | inr fails ↦ rw fails (denied _)
        ]

module _ {World : Type 0} (run : World → Operation → World × Reply)
    (samples : World → List ShardStats) (workers : ℕ) (version : Bytes) (config : Config)
    (metrics : Metrics) where
  -- What a command does to a session that is not authenticated: its credentials are good and it is
  -- authenticated from then on, or it answers an error and nothing changes. The engine is not reached.
  pub data Gated (w : World) (s : Session) (command : Command)
      : World × Session × Reply × Bool → Type 0 where
    unlocked :
        (s' : Session) (reply : Reply)
        → Unlocks config command
        → s'.authenticated ≡ true
        → Gated w s command (w, s', reply, false)
    shut : (message : Bytes) → Gated w s command (w, s, error message, false)

  execute_auth-Gated :
      (w : World) (s : Session) (command : Command) (username : Option Bytes) (password : Bytes)
      → credentials command ≡ some (username, password)
      → Gated w s command
          (execute_auth run samples workers version config metrics w s username password)
  unfolding execute_auth
  execute_auth-Gated w s command username password e =
      by_judgement _ (judge config (username, password))
    where
      by_judgement :
          (q : Option Reply)
          → Judged config (username, password) q
          → Gated w s command (elim q [
            | none ↦ (w, record s { authenticated = true }, ok_reply, false)
            | some reply ↦ (w, s, reply, false)
          ])
      by_judgement _ (accepted good) = unlocked _ _ ((username, password), e, good) refl
      by_judgement _ (denied message) = shut message

  greet-Gated :
      (w : World) (s : Session) (command : Command) (name : Option Bytes)
      → s.authenticated ≡ false
      → Gated w s command (greet run samples workers version config metrics w s name)
  unfolding greet
  greet-Gated w s command name b = rw b (shut _)

  greet-unlocked :
      (w : World) (s : Session) (command : Command) (name : Option Bytes)
      → Unlocks config command
      → Gated w s command (
          greet run samples workers version config metrics w
            (record s { authenticated = true })
            name)
  unfolding greet
  greet-unlocked w s command none u = unlocked _ _ u refl
  greet-unlocked w s command (some name) u = unlocked _ _ u refl

  execute_hello-Gated :
      (w : World) (s : Session) (protocol : Option ℤ) (c : Option (Bytes × Bytes))
      (name : Option Bytes)
      → s.authenticated ≡ false
      → Gated w s
          (hello protocol c name)
          (execute_hello run samples workers version config metrics w s protocol c name)
  unfolding execute_hello
  execute_hello-Gated w s protocol c name b = elim (Bool-cases (is_two protocol)) [
    | inl two ↦ rw two (by_credentials c)
    | inr other ↦ rw other (shut _)
  ]
    where
      by_credentials :
          (c : Option (Bytes × Bytes))
          → Gated w s (hello protocol c name) (elim c [
            | none ↦ greet run samples workers version config metrics w s name
            | some c ↦ elim (authenticate config (some c.0) c.1) [
              | some reply ↦ (w, s, reply, false)
              | none ↦
                  greet run samples workers version config metrics w
                    (record s { authenticated = true })
                    name
            ]
          ])
      by_credentials none = greet-Gated w s (hello protocol none name) name b
      by_credentials (some (username, password)) =
          by_judgement _ (judge config (some username, password))
        where
          by_judgement :
              (q : Option Reply)
              → Judged config (some username, password) q
              → Gated w s (hello protocol (some (username, password)) name) (elim q [
                | some reply ↦ (w, s, reply, false)
                | none ↦
                    greet run samples workers version config metrics w
                      (record s { authenticated = true })
                      name
              ])
          by_judgement _ (accepted good) =
              greet-unlocked w s (hello protocol (some (username, password)) name) name
                ((some username, password), refl, good)
          by_judgement _ (denied message) = shut message

  -- A command on a session that is not authenticated never reaches the engine and never closes the
  -- connection: it carries good credentials and the session is authenticated from then on, or the
  -- reply is an error and the session is as before.
  pub execute-Gated :
      (w : World) (s : Session) (command : Command)
      → s.authenticated ≡ false
      → Returns (Gated w s command) (execute run samples workers version config metrics w s command)
  unfolding execute
  execute-Gated w s (auth username password) b =
      returned (execute_auth-Gated w s (auth username password) username password refl)
  execute-Gated w s (hello protocol c name) b = returned (execute_hello-Gated w s protocol c name b)
  execute-Gated w s (data_command operation) b = rw b (returned (shut _))
  execute-Gated w s (ping value) b = rw b (returned (shut _))
  execute-Gated w s (echo value) b = rw b (returned (shut _))
  execute-Gated w s (quit) b = rw b (returned (shut _))
  execute-Gated w s (select n) b = rw b (returned (shut _))
  execute-Gated w s (client c) b = rw b (returned (shut _))
  execute-Gated w s (Command.metadata m) b = rw b (returned (shut _))
  execute-Gated w s (info section) b = rw b (returned (shut _))

  -- No command of the list carries good credentials.
  abbrev pub NoneUnlocks : List Command → Type 0
  NoneUnlocks commands = Every (λ command. ¬ Unlocks config command) commands

  after_gate :
      (w : World) (s : Session) (command : Command) (rest : List Command)
      (r : World × Session × Reply × Bool)
      → ¬ Unlocks config command
      → Gated w s command r
      → execute_all run samples workers version config metrics w s rest ≡ ok (w, s)
      → (elim r.3 [
        | true ↦ ok (r.0, r.1)
        | false ↦ execute_all run samples workers version config metrics r.0 r.1 rest
      ])
        ≡ ok (w, s)
  after_gate w s command rest _ locked (unlocked s' reply u a) ih = absurd (locked u)
  after_gate w s command rest _ locked (shut message) ih = ih

  -- Whatever commands a session that is not authenticated gets, none of them with good credentials,
  -- the engine and the session stay as they were.
  pub execute_all-shut :
      (w : World) (s : Session) (commands : List Command)
      → s.authenticated ≡ false
      → NoneUnlocks commands
      → execute_all run samples workers version config metrics w s commands ≡ ok (w, s)
  unfolding execute_all Every
  execute_all-shut w s [] b locked = refl
  execute_all-shut w s (command ∷ rest) b locked =
      let (r, e, gated) = Returns-result (execute-Gated w s command b) in
      rw e (after_gate w s command rest r locked.0 gated (execute_all-shut w s rest b locked.1))
