-- ===== src/Config/Budget.antt =====
-- What a checked configuration grants: the owners share the payload budget without loss, each of
-- them can be created, and a reply with the largest value fits.
use native.Mathlib.Nat.{suc-mul, div-add-mod, mod-lt}
use recall.Prelude.{
  ℕ, zero, suc, ◌+◌, ◌*◌, ◌/◌, ◌%◌, ◌≤◌, ◌<◌, ◌≡◌, true, false, arith, ltb, Bool, not,
  if◌then◌else◌,
}
use recall.Run.{
  Run, ok, err, panic, out_of_fuel, Returns, returned, IfReturns, fails, holds, IfReturns-branch,
  IfReturns-then, IfReturns-known, IfReturns-value,
}
use recall.Store.{Shard, new}
use recall.Store.Valid.{IsValid}
use recall.Store.Fresh.{Created, new_correct}
use recall.Config.{
  Config, validate, excessive_workers, inconsistent, shard_limits, is_loopback, no_time,
  bad_password,
}
use recall.Protocol.Limits.{validate_limits}

-- The payload budgets of the first `n` owners together.
unfoldable pub granted : Config → (n : ℕ) → ℕ
granted c zero = 0
granted c (suc n) = granted c n + (shard_limits c n).max_payload_bytes

granted-shares :
    (c : Config) (n : ℕ)
    → granted c n
      ≡ n * (c.max_payload_bytes / c.workers)
        + (if ltb n (c.max_payload_bytes % c.workers) then n else c.max_payload_bytes % c.workers)
unfolding granted shard_limits
granted-shares c zero = ground arith
granted-shares c (suc n) =
    ground (arith, granted-shares c n, suc-mul n (c.max_payload_bytes / c.workers))

-- What `validate` has checked of the limits of the owners.
pub record IsChecked (c : Config) : Type 0 where
  pub some_worker : 0 < c.workers
  pub some_keys : 0 < c.keys_per_worker
  pub payload : c.workers ≤ c.max_payload_bytes
  pub reply : c.commands.max_value_bytes + 64 ≤ c.max_reply_bytes

tests_passed :
    (c : Config) → validate c ≡ ok tt → (excessive_workers c ≡ false) × (inconsistent c ≡ false)
unfolding validate
tests_passed c h = ground (arith, h)

workers_checked :
    (c : Config)
    → excessive_workers c ≡ false
    → (0 < c.workers) × (0 < c.keys_per_worker) × (c.workers ≤ c.max_payload_bytes)
unfolding excessive_workers
workers_checked c h = ground (arith, h)

reply_checked :
    (c : Config) → inconsistent c ≡ false → c.commands.max_value_bytes + 64 ≤ c.max_reply_bytes
unfolding inconsistent
reply_checked c h = ground (arith, h)

pub validate-IsChecked : (c : Config) → validate c ≡ ok tt → IsChecked c
validate-IsChecked c h =
    let passed = tests_passed c h in
    let workers = workers_checked c passed.0 in
    record {
      some_worker = workers.0;
      some_keys = workers.1;
      payload = workers.2;
      reply = reply_checked c passed.1;
    }

-- `validate` has checked the limits of the decoder too.
protocol_checked : (c : Config) → IfReturns (λ _. validate_limits c.protocol ≡ ok tt) (validate c)
unfolding validate
protocol_checked c =
    IfReturns-branch (not (is_loopback c.bind)) (λ b. fails _)
      λ b.
        IfReturns-branch (excessive_workers c) (λ b. fails _)
          λ b.
            IfReturns-branch (no_time c) (λ b. fails _)
              λ b. IfReturns-then (IfReturns-known (validate_limits c.protocol)) λ v e.
                IfReturns-branch (inconsistent c) (λ b. fails _)
                  λ b. IfReturns-branch (bad_password c.password) (λ b. fails _) λ b. holds e

pub validate-protocol : (c : Config) → validate c ≡ ok tt → validate_limits c.protocol ≡ ok tt
validate-protocol c h = IfReturns-value (protocol_checked c) h

-- A configuration that `validate` accepts shares its whole payload budget among its owners: the
-- budgets of all owners add up to it.
pub granted-all : (c : Config) → validate c ≡ ok tt → granted c c.workers ≡ c.max_payload_bytes
granted-all c h =
    let v = validate-IsChecked c h in
    ground (
      arith,
      granted-shares c c.workers,
      div-add-mod c.max_payload_bytes c.workers,
      mod-lt c.max_payload_bytes v.some_worker,
    )

some_share : (w q r m : ℕ) → w * q + r ≡ m → r < w → w ≤ m → 0 < q
some_share w zero r m h p o = absurd (omega arith)
some_share w (suc q) r m h p o = omega arith

module _ (reserves_table reserves_index : ℕ → Bool) (c : Config) (owner : ℕ) where
  created :
      (r : Run Shard)
      → Created reserves_table reserves_index (shard_limits c owner) r
      → IsChecked c
      → 0 < c.max_payload_bytes / c.workers
      → reserves_table c.keys_per_worker ≡ true
      → reserves_index c.keys_per_worker ≡ true
      → Returns (λ s. IsValid s × (s.limits ≡ shard_limits c owner)) r
  unfolding shard_limits
  created (ok s) h v q t i = returned (h.0, h.1)
  created (err e) h v q t i = absurd (ground (arith, h, v.some_keys, v.reply, q, t, i))
  created panic h v q t i = elim h [ ]
  created out_of_fuel h v q t i = elim h [ ]

-- Every owner of a configuration that `validate` accepts gets limits that `Shard::new` accepts: if the
-- allocator grants the table and the index of that many keys, the shard of the owner is created, with
-- the limits that the configuration gives it.
pub owner_created :
    (reserves_table reserves_index : ℕ → Bool) (c : Config) (owner : ℕ)
    → validate c ≡ ok tt
    → reserves_table c.keys_per_worker ≡ true
    → reserves_index c.keys_per_worker ≡ true
    → Returns
        (λ s. IsValid s × (s.limits ≡ shard_limits c owner))
        (new reserves_table reserves_index (shard_limits c owner))
owner_created reserves_table reserves_index c owner h t i =
    let v = validate-IsChecked c h in
    created reserves_table reserves_index c owner
      (new reserves_table reserves_index (shard_limits c owner))
      (new_correct reserves_table reserves_index (shard_limits c owner)) v
      (some_share c.workers (c.max_payload_bytes / c.workers) (c.max_payload_bytes % c.workers)
        c.max_payload_bytes (div-add-mod c.max_payload_bytes c.workers)
        (mod-lt c.max_payload_bytes v.some_worker) v.payload)
      t i
