-- ===== src/Store/Fresh.antt =====
-- `Shard::new`: a new shard is valid and empty, and a refusal has one of the stated reasons.
use recall.Prelude.{
  ℕ, ◌<◌, ◌≤◌, ◌≡◌, refl, Bool, true, false, ◌||◌, Bool-cases, inl, inr, ◌⊎◌, none, [], Bytes,
  bytes_Eq, arith, ltb, ◌==◌,
}
use recall.Prelude.Int.{ℤ}
use recall.Map.{get, total}
use recall.Run.{Run, ok, err}
use recall.Expiry
use recall.Expiry.Update
use recall.Expiry.Positions.{deadline_of}
use recall.Store.{Shard, ShardLimits, new}
use recall.Store.Valid.{IsValid}
use recall.Store.View.{live, live_of}

abbrev empty : ShardLimits → Shard
empty limits = record {
  entries = [];
  expiry = Expiry.new;
  limits = limits;
  payload_bytes = 0;
  revision = 0;
  expired_keys = 0;
  applied_commands = 0;
}

new_index-IsValid : Update.IsValid Expiry.new
unfolding get
new_index-IsValid = record {
  indexed = record { keys = λ i h. absurd (omega arith); places = λ k i h. absurd (cc h) };
  ordered = λ c p q. absurd (omega arith);
}

empty-IsValid : (limits : ShardLimits) → IsValid (empty limits)
unfolding deadline_of get total
empty-IsValid limits = record {
  synced = record {
    distinct = tt;
    index = new_index-IsValid;
    deadlines = λ k. refl;
    timers = refl;
  };
  accounted = refl;
  keys_within = omega arith;
  payload_within = omega arith;
}

nothing_shown : (limits : ShardLimits) (now : ℤ) (k : Bytes) → live (empty limits) now k ≡ none
unfolding live live_of get
nothing_shown limits now k = refl

module _ (reserves_table reserves_index : ℕ → Bool) (limits : ShardLimits) where
  -- The limits can be used, and the allocator grants both tables.
  pub record IsUsable : Type 0 where
    pub some_keys : 0 < limits.max_keys
    pub some_payload : 0 < limits.max_payload_bytes
    pub reply : 64 ≤ limits.max_reply_bytes
    pub table : reserves_table limits.max_keys ≡ true
    pub index : reserves_index limits.max_keys ≡ true

  -- What `new` answers.
  abbrev pub Created : Run Shard → Type 0
  Created (ok s) =
      IsValid s × (s.limits ≡ limits) × ((now : ℤ) (k : Bytes) → live s now k ≡ none) × IsUsable
  Created (err e) =
      (limits.max_keys ≡ 0)
      ⊎ (limits.max_payload_bytes ≡ 0)
      ⊎ (limits.max_reply_bytes < 64)
      ⊎ (reserves_table limits.max_keys ≡ false)
      ⊎ (reserves_index limits.max_keys ≡ false)
  Created _ = ⊥

  abbrev unusable : Bool
  unusable =
      limits.max_keys == 0 || (limits.max_payload_bytes == 0 || ltb limits.max_reply_bytes 64)

  -- A shard is refused when a limit is zero, the reply limit is below 64 or the allocator has no room,
  -- and only then. Otherwise it is created valid and empty, with the limits.
  pub new_correct : Created (new reserves_table reserves_index limits)
  unfolding new
  new_correct = elim (Bool-cases unusable) [
    | inl bad ↦ rw (bad, new) (ground (arith, bad))
    | inr good ↦ elim (Bool-cases (reserves_table limits.max_keys)) [
      | inr no_table ↦ rw (good, new) (rw no_table (ground (arith, no_table)))
      | inl table ↦ elim (Bool-cases (reserves_index limits.max_keys)) [
        | inr no_index ↦ rw (good, new) (rw (table, no_index) (ground (arith, no_index)))
        | inl index ↦
            rw (good, new)
              (rw (table, index)
                (
                  empty-IsValid limits,
                  refl,
                  (λ now k. nothing_shown limits now k),
                  record {
                    some_keys = ground (arith, good);
                    some_payload = ground (arith, good);
                    reply = ground (arith, good);
                    table = table;
                    index = index;
                  },
                ))
      ]
    ]
  ]
