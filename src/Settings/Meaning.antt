-- ===== src/Settings/Meaning.antt =====
-- What the value of each setting stands for, and the configuration that values come to.
use mathlib.Core.Path.{subst}
use recall.Prelude.{
  ℕ, ◌≡◌, refl, sym, ◌∙◌, ap, Option, none, some, List, [], ◌∷◌, Bytes, bytes_eq, bytes_Eq,
  bytes_eq_iff, codes, Bool, true, false, ◌⊎◌, if◌then◌else◌,
}
use recall.Config.{Config, IpAddr}
use recall.Settings.Read.{IsNumber, IsMib}

-- What no setting can change.
abbrev pub IsKept : Config → Config → Type 0
IsKept d c =
    (c.queue_capacity ≡ d.queue_capacity)
    × (c.admission_timeout ≡ d.admission_timeout)
    × (c.read_timeout ≡ d.read_timeout)
    × (c.write_timeout ≡ d.write_timeout)
    × (c.expiry_interval ≡ d.expiry_interval)
    × (c.expiry_batch ≡ d.expiry_batch)
    × (c.max_reply_bytes ≡ d.max_reply_bytes)
    × (c.protocol ≡ d.protocol)
    × (c.commands ≡ d.commands)

-- A setting without a value is as before, and one with a value is what the value stands for.
unfoldable pub Stands : {A : Type 0} → (Bytes → A → Type 0) → Option Bytes → A → A → Type 0
Stands means none old new = new ≡ old
Stands means (some v) old new = means v new

-- One of the texts, or none of them.
unfoldable pub OneOf : Bytes → List Bytes → Type 0
OneOf key [] = ⊥
OneOf key (name ∷ names) = (key ≡ name) ⊎ OneOf key names

unfoldable pub NoneOf : Bytes → List Bytes → Type 0
NoneOf key [] = Unit
NoneOf key (name ∷ names) = (bytes_eq key name ≡ false) × NoneOf key names

abbrev pub numbers : List Bytes
numbers =
    codes "RECALL_WORKERS"
    ∷ codes "RECALL_IO_THREADS"
    ∷ codes "RECALL_KEYS_PER_WORKER"
    ∷ codes "RECALL_MAX_CONNECTIONS"
    ∷ []

abbrev pub sizes : List Bytes
sizes = codes "RECALL_MAX_MEMORY_MIB" ∷ codes "RECALL_QUEUE_BYTES_MIB" ∷ []

abbrev pub others : List Bytes
others = codes "RECALL_BIND" ∷ codes "RECALL_PASSWORD" ∷ []

-- One value.
abbrev pub only : Bytes → Bytes → Bytes → Option Bytes
only key v name = if bytes_eq key name then some v else none

kept : (d c : Config) → IsKept d c → (c' : Config) → IsKept c c' → IsKept d c'
kept d c k c' k' = (
  k'.0 ∙ k.0,
  k'.1 ∙ k.1,
  k'.2 ∙ k.2,
  k'.3 ∙ k.3,
  k'.4 ∙ k.4,
  k'.5 ∙ k.5,
  k'.6 ∙ k.6,
  k'.7 ∙ k.7,
  k'.8 ∙ k.8,
)

Stands-then :
    {A : Type 0} (means : Bytes → A → Type 0) (b : Bool) (v : Bytes) (q : Option Bytes) (x y z : A)
    → Stands means (if b then some v else none) x y
    → Stands means q y z
    → (b ≡ true → q ≡ none)
    → Stands means (if b then some v else q) x z
unfolding Stands
Stands-then means false v q x y z first later h = subst (λ a. Stands means q a z) first later
Stands-then means true v none x y z first later h = subst (means v) (sym later) first
Stands-then means true v (some w) x y z first later h = let gone = h refl in cc

module _ (parse_bind : Bytes → Option IpAddr) where
  -- The configuration from an earlier one and the value of each setting: the address where the value
  -- is one, the numbers that the decimals stand for, the sizes in bytes, and the password as it is.
  pub record IsLoaded (d : Config) (given : Bytes → Option Bytes) (c : Config) : Type 0 where
    pub bind : Stands (λ v x. parse_bind v ≡ some x) (given (codes "RECALL_BIND")) d.bind c.bind
    pub workers : Stands IsNumber (given (codes "RECALL_WORKERS")) d.workers c.workers
    pub io_threads : Stands IsNumber (given (codes "RECALL_IO_THREADS")) d.io_threads c.io_threads
    pub max_payload_bytes :
        Stands IsMib (given (codes "RECALL_MAX_MEMORY_MIB")) d.max_payload_bytes c.max_payload_bytes
    pub keys_per_worker :
        Stands IsNumber (given (codes "RECALL_KEYS_PER_WORKER")) d.keys_per_worker c.keys_per_worker
    pub max_connections :
        Stands IsNumber (given (codes "RECALL_MAX_CONNECTIONS")) d.max_connections c.max_connections
    pub queue_bytes :
        Stands IsMib (given (codes "RECALL_QUEUE_BYTES_MIB")) d.queue_bytes c.queue_bytes
    pub password :
        Stands (λ v x. x ≡ some v) (given (codes "RECALL_PASSWORD")) d.password c.password
    pub others_kept : IsKept d c

  -- Why a setting is refused.
  pub data Refused (key v : Bytes) : Type 0 where
    unknown : NoneOf key numbers → NoneOf key sizes → NoneOf key others → Refused key v
    no_number : OneOf key numbers → ((n : ℕ) → ¬ IsNumber v n) → Refused key v
    no_size : OneOf key sizes → ((n : ℕ) → ¬ IsMib v n) → Refused key v
    no_address :
        key ≡ codes "RECALL_BIND" → ((x : IpAddr) → ¬ (parse_bind v ≡ some x)) → Refused key v

  pub set_bind :
      (c : Config) (v : Bytes) (x : IpAddr)
      → parse_bind v ≡ some x
      → IsLoaded c (only (codes "RECALL_BIND") v) (record c { bind = x })
  unfolding bytes_eq Stands
  set_bind c v x h = record {
    bind = h;
    workers = refl;
    io_threads = refl;
    max_payload_bytes = refl;
    keys_per_worker = refl;
    max_connections = refl;
    queue_bytes = refl;
    password = refl;
    others_kept = (refl, refl, refl, refl, refl, refl, refl, refl, refl);
  }

  pub set_workers :
      (c : Config) (v : Bytes) (x : ℕ)
      → IsNumber v x
      → IsLoaded c (only (codes "RECALL_WORKERS") v) (record c { workers = x })
  unfolding bytes_eq Stands
  set_workers c v x h = record {
    bind = refl;
    workers = h;
    io_threads = refl;
    max_payload_bytes = refl;
    keys_per_worker = refl;
    max_connections = refl;
    queue_bytes = refl;
    password = refl;
    others_kept = (refl, refl, refl, refl, refl, refl, refl, refl, refl);
  }

  pub set_io_threads :
      (c : Config) (v : Bytes) (x : ℕ)
      → IsNumber v x
      → IsLoaded c (only (codes "RECALL_IO_THREADS") v) (record c { io_threads = x })
  unfolding bytes_eq Stands
  set_io_threads c v x h = record {
    bind = refl;
    workers = refl;
    io_threads = h;
    max_payload_bytes = refl;
    keys_per_worker = refl;
    max_connections = refl;
    queue_bytes = refl;
    password = refl;
    others_kept = (refl, refl, refl, refl, refl, refl, refl, refl, refl);
  }

  pub set_max_payload_bytes :
      (c : Config) (v : Bytes) (x : ℕ)
      → IsMib v x
      → IsLoaded c (only (codes "RECALL_MAX_MEMORY_MIB") v) (record c { max_payload_bytes = x })
  unfolding bytes_eq Stands
  set_max_payload_bytes c v x h = record {
    bind = refl;
    workers = refl;
    io_threads = refl;
    max_payload_bytes = h;
    keys_per_worker = refl;
    max_connections = refl;
    queue_bytes = refl;
    password = refl;
    others_kept = (refl, refl, refl, refl, refl, refl, refl, refl, refl);
  }

  pub set_keys_per_worker :
      (c : Config) (v : Bytes) (x : ℕ)
      → IsNumber v x
      → IsLoaded c (only (codes "RECALL_KEYS_PER_WORKER") v) (record c { keys_per_worker = x })
  unfolding bytes_eq Stands
  set_keys_per_worker c v x h = record {
    bind = refl;
    workers = refl;
    io_threads = refl;
    max_payload_bytes = refl;
    keys_per_worker = h;
    max_connections = refl;
    queue_bytes = refl;
    password = refl;
    others_kept = (refl, refl, refl, refl, refl, refl, refl, refl, refl);
  }

  pub set_max_connections :
      (c : Config) (v : Bytes) (x : ℕ)
      → IsNumber v x
      → IsLoaded c (only (codes "RECALL_MAX_CONNECTIONS") v) (record c { max_connections = x })
  unfolding bytes_eq Stands
  set_max_connections c v x h = record {
    bind = refl;
    workers = refl;
    io_threads = refl;
    max_payload_bytes = refl;
    keys_per_worker = refl;
    max_connections = h;
    queue_bytes = refl;
    password = refl;
    others_kept = (refl, refl, refl, refl, refl, refl, refl, refl, refl);
  }

  pub set_queue_bytes :
      (c : Config) (v : Bytes) (x : ℕ)
      → IsMib v x
      → IsLoaded c (only (codes "RECALL_QUEUE_BYTES_MIB") v) (record c { queue_bytes = x })
  unfolding bytes_eq Stands
  set_queue_bytes c v x h = record {
    bind = refl;
    workers = refl;
    io_threads = refl;
    max_payload_bytes = refl;
    keys_per_worker = refl;
    max_connections = refl;
    queue_bytes = h;
    password = refl;
    others_kept = (refl, refl, refl, refl, refl, refl, refl, refl, refl);
  }

  pub set_password :
      (c : Config) (v : Bytes)
      → IsLoaded c (only (codes "RECALL_PASSWORD") v) (record c { password = some v })
  unfolding bytes_eq Stands
  set_password c v = record {
    bind = refl;
    workers = refl;
    io_threads = refl;
    max_payload_bytes = refl;
    keys_per_worker = refl;
    max_connections = refl;
    queue_bytes = refl;
    password = refl;
    others_kept = (refl, refl, refl, refl, refl, refl, refl, refl, refl);
  }

  pub IsLoaded-then :
      (c : Config) (key v : Bytes) (given : Bytes → Option Bytes) (c' c'' : Config)
      → IsLoaded c (only key v) c'
      → IsLoaded c' given c''
      → given key ≡ none
      → IsLoaded c (λ name. if bytes_eq key name then some v else given name) c''
  IsLoaded-then c key v given c' c'' first later h = record {
    bind =
        Stands-then (λ v x. parse_bind v ≡ some x) (bytes_eq key (codes "RECALL_BIND")) v
          (given (codes "RECALL_BIND")) c.bind c'.bind c''.bind first.bind later.bind
          (absent (codes "RECALL_BIND"));
    workers =
        Stands-then IsNumber (bytes_eq key (codes "RECALL_WORKERS")) v
          (given (codes "RECALL_WORKERS")) c.workers c'.workers c''.workers first.workers
          later.workers (absent (codes "RECALL_WORKERS"));
    io_threads =
        Stands-then IsNumber (bytes_eq key (codes "RECALL_IO_THREADS")) v
          (given (codes "RECALL_IO_THREADS")) c.io_threads c'.io_threads c''.io_threads
          first.io_threads later.io_threads (absent (codes "RECALL_IO_THREADS"));
    max_payload_bytes =
        Stands-then IsMib (bytes_eq key (codes "RECALL_MAX_MEMORY_MIB")) v
          (given (codes "RECALL_MAX_MEMORY_MIB")) c.max_payload_bytes c'.max_payload_bytes
          c''.max_payload_bytes first.max_payload_bytes later.max_payload_bytes
          (absent (codes "RECALL_MAX_MEMORY_MIB"));
    keys_per_worker =
        Stands-then IsNumber (bytes_eq key (codes "RECALL_KEYS_PER_WORKER")) v
          (given (codes "RECALL_KEYS_PER_WORKER")) c.keys_per_worker c'.keys_per_worker
          c''.keys_per_worker first.keys_per_worker later.keys_per_worker
          (absent (codes "RECALL_KEYS_PER_WORKER"));
    max_connections =
        Stands-then IsNumber (bytes_eq key (codes "RECALL_MAX_CONNECTIONS")) v
          (given (codes "RECALL_MAX_CONNECTIONS")) c.max_connections c'.max_connections
          c''.max_connections first.max_connections later.max_connections
          (absent (codes "RECALL_MAX_CONNECTIONS"));
    queue_bytes =
        Stands-then IsMib (bytes_eq key (codes "RECALL_QUEUE_BYTES_MIB")) v
          (given (codes "RECALL_QUEUE_BYTES_MIB")) c.queue_bytes c'.queue_bytes c''.queue_bytes
          first.queue_bytes later.queue_bytes (absent (codes "RECALL_QUEUE_BYTES_MIB"));
    password =
        Stands-then (λ v x. x ≡ some v) (bytes_eq key (codes "RECALL_PASSWORD")) v
          (given (codes "RECALL_PASSWORD")) c.password c'.password c''.password first.password
          later.password (absent (codes "RECALL_PASSWORD"));
    others_kept = kept c c' first.others_kept c'' later.others_kept;
  }
    where
      absent : (name : Bytes) → bytes_eq key name ≡ true → given name ≡ none
      absent name same = ap given (sym ((bytes_eq_iff key name).0 same)) ∙ h
