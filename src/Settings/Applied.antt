-- ===== src/Settings/Applied.antt =====
-- One setting: `apply_setting` of crates/recall-server/src/settings.rs reads each value as what it stands
-- for, or refuses it for a reason.
use mathlib.Core.Path.{subst}
use recall.Prelude.{
  ◌≡◌, refl, sym, Option, none, some, Bytes, bytes_eq, bytes_Eq, bytes_eq_iff, codes, Bool, true,
  false, inl, inr, if◌then◌else◌,
}
use recall.Run.{Run, ok, err, ◌>>=◌, or_else}
use recall.Config.{Config, IpAddr}
use recall.Settings.{apply_setting}
use recall.Settings.Read.{Reads, reads, unreadable, number-Reads, mib-Reads}
use recall.Settings.Meaning.{
  OneOf, NoneOf, only, IsLoaded, Refused, unknown, no_number, no_size, no_address, set_bind,
  set_workers, set_io_threads, set_max_payload_bytes, set_keys_per_worker, set_max_connections,
  set_queue_bytes, set_password,
}

module _ (parse_bind : Bytes → Option IpAddr) where
  pub data Applied (c : Config) (key v : Bytes) : Run Config → Type 0 where
    applied : {c' : Config} → IsLoaded parse_bind c (only key v) c' → Applied c key v (ok c')
    not_applied : (e : Bytes) → Refused parse_bind key v → Applied c key v (err e)

  bind_Reads :
      (v e : Bytes) (o : Option IpAddr)
      → parse_bind v ≡ o
      → Reads (λ x. parse_bind v ≡ some x) (or_else o (err e))
  bind_Reads v e none h = unreadable e λ x same. cc
  bind_Reads v e (some x) h = reads h

  module _ (c : Config) (key v : Bytes) where
    Applied-branch :
        {this that : Run Config} (test : Bool)
        → (test ≡ true → Applied c key v this)
        → (test ≡ false → Applied c key v that)
        → Applied c key v (if test then this else that)
    Applied-branch true at_true at_false = at_true refl
    Applied-branch false at_true at_false = at_false refl

    Applied-read :
        {A : Type 0} {P : A → Type 0} {q : Run A} (update : A → Config) (name : Bytes)
        → Reads P q
        → key ≡ name
        → ((a : A) → P a → IsLoaded parse_bind c (only name v) (update a))
        → (((a : A) → ¬ P a) → Refused parse_bind key v)
        → Applied c key v (q >>= λ a. ok (update a))
    Applied-read update name (reads {a} h) is good bad =
        applied (subst (λ k. IsLoaded parse_bind c (only k v) (update a)) (sym is) (good a h))
    Applied-read update name (unreadable e never) is good bad = not_applied e (bad never)

    pub apply_setting-Applied : Applied c key v (apply_setting parse_bind c key v)
    unfolding apply_setting OneOf NoneOf
    apply_setting-Applied =
        Applied-branch (bytes_eq key (codes "RECALL_BIND"))
          (λ b.
            let is = (bytes_eq_iff key (codes "RECALL_BIND")).0 b in
            Applied-read (λ x. record c { bind = x }) (codes "RECALL_BIND")
              (bind_Reads v _ (parse_bind v) refl) is (λ x h. set_bind parse_bind c v x h)
              (λ never. no_address is never))
          λ b0.
            Applied-branch (bytes_eq key (codes "RECALL_WORKERS"))
              (λ b.
                let is = (bytes_eq_iff key (codes "RECALL_WORKERS")).0 b in
                Applied-read (λ x. record c { workers = x }) (codes "RECALL_WORKERS")
                  (number-Reads key v) is (λ x h. set_workers parse_bind c v x h)
                  (λ never. no_number (inl is) never))
              λ b1.
                Applied-branch (bytes_eq key (codes "RECALL_IO_THREADS"))
                  (λ b.
                    let is = (bytes_eq_iff key (codes "RECALL_IO_THREADS")).0 b in
                    Applied-read (λ x. record c { io_threads = x }) (codes "RECALL_IO_THREADS")
                      (number-Reads key v) is (λ x h. set_io_threads parse_bind c v x h)
                      (λ never. no_number (inr (inl is)) never))
                  λ b2.
                    Applied-branch (bytes_eq key (codes "RECALL_MAX_MEMORY_MIB"))
                      (λ b.
                        let is = (bytes_eq_iff key (codes "RECALL_MAX_MEMORY_MIB")).0 b in
                        Applied-read (λ x. record c { max_payload_bytes = x })
                          (codes "RECALL_MAX_MEMORY_MIB") (mib-Reads key v) is
                          (λ x h. set_max_payload_bytes parse_bind c v x h)
                          (λ never. no_size (inl is) never))
                      λ b3.
                        Applied-branch (bytes_eq key (codes "RECALL_KEYS_PER_WORKER"))
                          (λ b.
                            let is = (bytes_eq_iff key (codes "RECALL_KEYS_PER_WORKER")).0 b in
                            Applied-read (λ x. record c { keys_per_worker = x })
                              (codes "RECALL_KEYS_PER_WORKER") (number-Reads key v) is
                              (λ x h. set_keys_per_worker parse_bind c v x h)
                              (λ never. no_number (inr (inr (inl is))) never))
                          λ b4.
                            Applied-branch (bytes_eq key (codes "RECALL_MAX_CONNECTIONS"))
                              (λ b.
                                let is = (bytes_eq_iff key (codes "RECALL_MAX_CONNECTIONS")).0 b in
                                Applied-read (λ x. record c { max_connections = x })
                                  (codes "RECALL_MAX_CONNECTIONS") (number-Reads key v) is
                                  (λ x h. set_max_connections parse_bind c v x h)
                                  (λ never. no_number (inr (inr (inr (inl is)))) never))
                              λ b5.
                                Applied-branch (bytes_eq key (codes "RECALL_QUEUE_BYTES_MIB"))
                                  (λ b.
                                    let is =
                                      (bytes_eq_iff key (codes "RECALL_QUEUE_BYTES_MIB")).0 b in
                                    Applied-read (λ x. record c { queue_bytes = x })
                                      (codes "RECALL_QUEUE_BYTES_MIB") (mib-Reads key v) is
                                      (λ x h. set_queue_bytes parse_bind c v x h)
                                      (λ never. no_size (inr (inl is)) never))
                                  λ b6.
                                    Applied-branch (bytes_eq key (codes "RECALL_PASSWORD"))
                                      (λ b.
                                        let is = (bytes_eq_iff key (codes "RECALL_PASSWORD")).0 b in
                                        applied (
                                          subst
                                            (λ k.
                                              IsLoaded parse_bind c (only k v)
                                                (record c { password = some v }))
                                            (sym is) (set_password parse_bind c v)))
                                      λ b7. not_applied _ (
                                        unknown (b1, (b2, (b4, (b5, tt)))) (b3, (b6, tt))
                                          (b0, (b7, tt)))
