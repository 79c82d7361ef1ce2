-- ===== src/Session/Stays.antt =====
-- What an authenticated session keeps.
use recall.Prelude.{
  ℕ, ◌≡◌, refl, Bool, true, false, not, Option, none, some, List, Bytes, if◌then◌else◌,
}
use recall.Prelude.Int.{ℤ}
use recall.Run.{Returns, returned, Returns-branch}
use recall.Protocol.{Reply, ok_reply}
use recall.Command.{Operation}
use recall.Command.Options.{
  Command, ClientCommand, data_command, ping, echo, quit, auth, hello, select, client, info,
}
use recall.Config.{Config}
use recall.Store.{ShardStats}
use recall.Session.{
  Session, Metrics, is_two, authenticate, execute_auth, greet, execute_hello, serve, execute,
}

module _ {World : Type 0} (run : World → Operation → World × Reply)
    (samples : World → List ShardStats) (workers : ℕ) (version : Bytes) (config : Config)
    (metrics : Metrics) where
  -- A session that is authenticated.
  abbrev pub Stays : Session → World × Session × Reply × Bool → Type 0
  Stays s r = (r.1.authenticated ≡ true) × (r.1.id ≡ s.id)

  execute_auth-Stays :
      (w : World) (s : Session) (username : Option Bytes) (password : Bytes)
      → s.authenticated ≡ true
      → Stays s (execute_auth run samples workers version config metrics w s username password)
  unfolding execute_auth
  execute_auth-Stays w s username password b =
      elim (authenticate config username password)
        as (λ q. Stays s (elim q [
          | none ↦ (w, record s { authenticated = true }, ok_reply, false)
          | some reply ↦ (w, s, reply, false)
        ])) [ none ↦ (refl, refl) | some reply ↦ (b, refl) ]

  if-Stays :
      (s : Session) (test : Bool) (x y : World × Session × Reply × Bool)
      → Stays s x
      → Stays s y
      → Stays s (if test then x else y)
  if-Stays s true x y p q = p
  if-Stays s false x y p q = q

  greet-Stays :
      (w : World) (s t : Session) (name : Option Bytes)
      → s.authenticated ≡ true
      → s.id ≡ t.id
      → Stays t (greet run samples workers version config metrics w s name)
  unfolding greet
  greet-Stays w s t none b e = if-Stays t (not s.authenticated) _ _ (b, e) (b, e)
  greet-Stays w s t (some name) b e = if-Stays t (not s.authenticated) _ _ (b, e) (b, e)

  execute_hello-Stays :
      (w : World) (s : Session) (protocol : Option ℤ) (c : Option (Bytes × Bytes))
      (name : Option Bytes)
      → s.authenticated ≡ true
      → Stays s (execute_hello run samples workers version config metrics w s protocol c name)
  unfolding execute_hello
  execute_hello-Stays w s protocol none name b =
      if-Stays s (not (is_two protocol)) _ _ (b, refl) (greet-Stays w s s name b refl)
  execute_hello-Stays w s protocol (some c) name b =
      if-Stays s (not (is_two protocol)) _ _ (b, refl)
        (elim (authenticate config (some c.0) c.1)
          as (λ q. Stays s (elim q [
            | some reply ↦ (w, s, reply, false)
            | none ↦
                greet run samples workers version config metrics w
                  (record s { authenticated = true }) name
          ])) [
            | none ↦ greet-Stays w (record s { authenticated = true }) s name refl refl
            | some reply ↦ (b, refl)
          ])

  -- An authenticated session stays authenticated and keeps its id, whatever the command, and the code
  -- marked unreachable is not reached.
  pub execute-Stays :
      (w : World) (s : Session) (command : Command)
      → s.authenticated ≡ true
      → Returns (Stays s) (execute run samples workers version config metrics w s command)
  unfolding execute serve
  execute-Stays w s (auth username password) b =
      returned (execute_auth-Stays w s username password b)
  execute-Stays w s (hello protocol c name) b = returned (execute_hello-Stays w s protocol c name b)
  execute-Stays w s (data_command operation) b =
      Returns-branch (not s.authenticated) (λ _. returned (b, refl)) λ _. returned (b, refl)
  execute-Stays w s (ping none) b =
      Returns-branch (not s.authenticated) (λ _. returned (b, refl)) λ _. returned (b, refl)
  execute-Stays w s (ping (some value)) b =
      Returns-branch (not s.authenticated) (λ _. returned (b, refl)) λ _. returned (b, refl)
  execute-Stays w s (echo value) b =
      Returns-branch (not s.authenticated) (λ _. returned (b, refl)) λ _. returned (b, refl)
  execute-Stays w s (quit) b =
      Returns-branch (not s.authenticated) (λ _. returned (b, refl)) λ _. returned (b, refl)
  execute-Stays w s (select n) b =
      Returns-branch (not s.authenticated) (λ _. returned (b, refl)) λ _. returned (b, refl)
  execute-Stays w s (client ClientCommand.get_name) b =
      Returns-branch (not s.authenticated) (λ _. returned (b, refl)) λ _. returned (b, refl)
  execute-Stays w s (client (ClientCommand.set_name value)) b =
      Returns-branch (not s.authenticated) (λ _. returned (b, refl)) λ _. returned (b, refl)
  execute-Stays w s (client (ClientCommand.set_info true value)) b =
      Returns-branch (not s.authenticated) (λ _. returned (b, refl)) λ _. returned (b, refl)
  execute-Stays w s (client (ClientCommand.set_info false value)) b =
      Returns-branch (not s.authenticated) (λ _. returned (b, refl)) λ _. returned (b, refl)
  execute-Stays w s (Command.metadata m) b =
      Returns-branch (not s.authenticated) (λ _. returned (b, refl)) λ _. returned (b, refl)
  execute-Stays w s (info section) b =
      Returns-branch (not s.authenticated) (λ _. returned (b, refl)) λ _. returned (b, refl)
