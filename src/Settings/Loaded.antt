-- ===== src/Settings/Loaded.antt =====
-- What loading the settings comes to, over the file, the process and the arguments: each setting is as
-- its first source has it, and otherwise as by default, or the load is refused for a reason named.
use mathlib.Core.Path.{subst, fun_ext}
use recall.Prelude.{
  ◌≡◌, refl, sym, ◌∙◌, ap, not, ◌||◌, Option, none, some, [], ◌∷◌, Bytes, bytes_eq, bytes_Eq,
  bytes_eq_iff, ltb, ◌==◌, true, Bool-cases, inl, inr, if◌then◌else◌,
}
use recall.Map.{get, Distinct}
use recall.Run.{
  Run, ok, err, panic, out_of_fuel, ◌>>=◌, Answers, value, refused, Answers-then, Answers-branch,
}
use recall.Protocol.Limits.{Limits, validate_limits}
use recall.Config.{
  Config, IpAddr, validate, is_loopback, excessive_workers, no_time, inconsistent, bad_password,
}
use recall.Settings.{Values, extend, apply_all, from_sources}
use recall.Settings.Applied.{Applied, applied, not_applied, apply_setting-Applied}
use recall.Settings.Merged.{first_of, extend-precedence, extend-Distinct}
use recall.Settings.Meaning.{Stands, only, IsLoaded, Refused, IsLoaded-then}

limits-Answers : (l : Limits) → Answers (λ _. Unit {0}) (validate_limits l)
unfolding validate_limits
limits-Answers l =
    Answers-branch
      (ltb l.max_frame_bytes 16
        || ltb l.max_frame_bytes l.max_bulk_bytes
        || l.max_arguments == 0
        || ltb l.max_header_bytes 4
        || ltb l.max_frame_bytes l.max_header_bytes)
      (λ b. refused _) λ b. value tt

validate-Answers : (c : Config) → Answers (λ _. Unit {0}) (validate c)
unfolding validate
validate-Answers c =
    Answers-branch (not (is_loopback c.bind)) (λ b. refused _)
      λ b.
        Answers-branch (excessive_workers c) (λ b. refused _)
          λ b.
            Answers-branch (no_time c) (λ b. refused _)
              λ b. Answers-then (limits-Answers c.protocol) λ _ _.
                Answers-branch (inconsistent c) (λ b. refused _)
                  λ b. Answers-branch (bad_password c.password) (λ b. refused _) λ b. value tt

module _ (parse_bind : Bytes → Option IpAddr) where
  data Loads (d : Config) (given : Bytes → Option Bytes) : Run Config → Type 0 where
    loads : {c : Config} → IsLoaded parse_bind d given c → Loads d given (ok c)
    not_loaded :
        (e key v : Bytes) → given key ≡ some v → Refused parse_bind key v → Loads d given (err e)

  Loads-after :
      (c : Config) (key v : Bytes) (given : Bytes → Option Bytes) (c' : Config) {r : Run Config}
      → IsLoaded parse_bind c (only key v) c'
      → given key ≡ none
      → Loads c' given r
      → Loads c (λ name. if bytes_eq key name then some v else given name) r
  Loads-after c key v given c' first h (loads {c = c''} later) =
      loads (IsLoaded-then parse_bind c key v given c' c'' first later h)
  Loads-after c key v given c' first h (not_loaded e key' v' there bad) =
      not_loaded e key' v'
        (elim (Bool-cases (bytes_eq key key')) [
          | inl same ↦
              let none_there : given key' ≡ none =
                ap given (sym ((bytes_eq_iff key key').0 same)) ∙ h in
              absurd (cc (none_there, there))
          | inr other ↦ rw other there
        ])
        bad

  same_key : (key : Bytes) → bytes_eq key key ≡ true
  same_key key = (bytes_eq_iff key key).1 refl

  Applied-Loads :
      (c : Config) (key v : Bytes) (rest : Values) {q : Run Config}
      → Applied parse_bind c key v q
      → get key rest ≡ none
      → ((c' : Config) → Loads c' (λ name. get name rest) (apply_all parse_bind c' rest))
      → Loads c (λ name. get name ((key, v) ∷ rest)) (q >>= λ c'. apply_all parse_bind c' rest)
  unfolding get
  Applied-Loads c key v rest (applied {c'} first) h later =
      Loads-after c key v (λ name. get name rest) c' first h (later c')
  Applied-Loads c key v rest (not_applied e bad) h later =
      not_loaded e key v (rw (same_key key) refl) bad

  apply_all-Loads :
      (c : Config) (values : Values)
      → Distinct values
      → Loads c (λ name. get name values) (apply_all parse_bind c values)
  unfolding apply_all get Stands
  apply_all-Loads c [] d = loads (record {
    bind = refl;
    workers = refl;
    io_threads = refl;
    max_payload_bytes = refl;
    keys_per_worker = refl;
    max_connections = refl;
    queue_bytes = refl;
    password = refl;
    others_kept = (refl, refl, refl, refl, refl, refl, refl, refl, refl);
  })
  apply_all-Loads c ((key, v) ∷ rest) d =
      Applied-Loads c key v rest (apply_setting-Applied parse_bind c key v) d.0
        λ c'. apply_all-Loads c' rest d.1

  -- How loading ends.
  pub data Ends (d : Config) (given : Bytes → Option Bytes) : Run Config → Type 0 where
    loaded : {c : Config} → IsLoaded parse_bind d given c → validate c ≡ ok tt → Ends d given (ok c)
    bad_setting :
        (e key v : Bytes) → given key ≡ some v → Refused parse_bind key v → Ends d given (err e)
    bad_config :
        (e : Bytes) (c : Config)
        → IsLoaded parse_bind d given c
        → validate c ≡ err e
        → Ends d given (err e)

  validated :
      (d : Config) (given : Bytes → Option Bytes) (c : Config) (q : Run Unit)
      → IsLoaded parse_bind d given c
      → validate c ≡ q
      → Answers (λ _. Unit {0}) q
      → Ends d given (q >>= λ valid. ok c)
  validated d given c (ok tt) is e a = loaded is e
  validated d given c (err m) is e a = bad_config m c is e
  validated d given c panic is e a = elim a [ ]
  validated d given c out_of_fuel is e a = elim a [ ]

  Loads-Ends :
      (d : Config) (given : Bytes → Option Bytes) {r : Run Config}
      → Loads d given r
      → Ends d given (r >>= λ c. validate c >>= λ valid. ok c)
  Loads-Ends d given (loads {c} is) = validated d given c (validate c) is refl (validate-Answers c)
  Loads-Ends d given (not_loaded e key v there bad) = bad_setting e key v there bad

  -- Of three sources that name no key twice, the arguments come before the process and the process
  -- before the file. Loading ends with a configuration that `validate` accepts, in which each of the
  -- eight settings is what its value in the first source that has it stands for and is as by default
  -- where none has it, and all else is as by default. Or it ends with an error: then a source has a
  -- key that is no setting, or a value that does not stand for anything, or `validate` refuses the
  -- configuration that the settings come to.
  pub from_sources-Ends :
      (d : Config) (file process arguments : Values)
      → Distinct file
      → Distinct process
      → Distinct arguments
      → Ends d
          (λ key. first_of (get key arguments) (first_of (get key process) (get key file)))
          (from_sources parse_bind d file process arguments)
  unfolding from_sources
  from_sources-Ends d file process arguments f p a =
      let values = extend (extend file process) arguments in
      let given = λ (key : Bytes). extend-precedence key file process arguments p a in
      subst (λ g. Ends d g (from_sources parse_bind d file process arguments)) (fun_ext given)
        (Loads-Ends d (λ key. get key values)
          (apply_all-Loads d values
            (extend-Distinct (extend file process) arguments (extend-Distinct file process f))))
