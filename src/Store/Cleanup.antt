-- ===== src/Store/Cleanup.antt =====
-- `expire_due`: it removes overdue entries only, at most as many as the budget, keeps the invariant,
-- and stops early only when none is left.
use recall.Prelude.{
  ℕ, zero, suc, ◌+◌, ◌-◌, ◌≤◌, ◌<◌, ◌≡◌, refl, sym, ◌∙◌, true, false, Option-cases, inl, inr,
  Option, none, some, Bytes, bytes_eq_iff, bytes_Eq, arith, length,
}
use recall.Prelude.Int.{ℤ, ◌≤ℤ◌}
use recall.Map.{get, remove}
use recall.Map.Laws.{get-remove}
use recall.Run.{checked_minus-ok, ok, Returns, returned, Returns-then, Returns-weaken}
use recall.Expiry.{ExpiryIndex, expired}
use recall.Expiry.Positions.{deadline_of}
use recall.Expiry.Update.{Updated}
use recall.Expiry.Removal.{IsEarliest, expired-some, expired-none, remove_timer-Updated}
use recall.Store.{Entry, Shard, u64_max, is_due}
use recall.Store.Prepare.{expires_of}
use recall.Store.Apply.{
  apply_entry, next_revision, saturating_inc, expire_key, expire_loop, expire_due,
}
use recall.Store.Valid.{IsValid, tables, weight, step-IsSynced, total-apply_entry}
use recall.Store.Budget.{one, length-total, total-ge}
use recall.Store.View.{live, live_of}

-- What is overdue stays overdue.
is_due-later : (o : Option ℤ) (now t : ℤ) → now ≤ℤ t → is_due o now ≡ true → is_due o t ≡ true
unfolding is_due
is_due-later none now t h d = d
is_due-later (some deadline) now t h d = ground arith

-- After a cleanup at `now` that removed some entries.
pub record IsCleaned (s : Shard) (now : ℤ) (removed : ℕ) (r : Shard) : Type 0 where
  pub valid : IsValid r
  pub limits : r.limits ≡ s.limits
  pub shown : (t : ℤ) → now ≤ℤ t → (k : Bytes) → live r t k ≡ live s t k
  pub size : length r.entries + removed ≡ length s.entries
  pub revision : r.revision ≡ s.revision + removed

next_revision-ok : (n : ℕ) → n < u64_max → next_revision n ≡ ok (n + 1)
unfolding next_revision
next_revision-ok n h = ground arith

-- One removal.
module _ (s : Shard) (now : ℤ) (k : Bytes) (entry : Entry) (there : get k s.entries ≡ some entry)
    (overdue : is_due entry.expires_at_ms now ≡ true) (v : IsValid s) where
  fits : weight k entry ≤ s.payload_bytes
  fits = ground (arith, there, v.accounted, total-ge weight k s.entries v.synced.distinct)

  abbrev cleaned : ExpiryIndex → Shard
  cleaned e = record s {
    entries = remove k s.entries;
    expiry = e;
    payload_bytes = s.payload_bytes - weight k entry;
    revision = s.revision + 1;
    expired_keys = saturating_inc s.expired_keys;
  }

  cleaned-IsValid : (e : ExpiryIndex) → Updated s.expiry k none e → IsValid (cleaned e)
  unfolding apply_entry
  cleaned-IsValid e u =
      let less = total-apply_entry weight s.entries k none v.synced.distinct in
      let fewer = total-apply_entry one s.entries k none v.synced.distinct in
      record {
        synced = step-IsSynced (tables s) k none e v.synced u;
        accounted = ground (arith, less, there, v.accounted);
        keys_within = omega (
          arith,
          fewer,
          length-total s.entries,
          length-total (remove k s.entries),
          v.keys_within,
        );
        payload_within = omega (arith, v.payload_within);
      }

  cleaned-shown :
      (e : ExpiryIndex) (t : ℤ) → now ≤ℤ t → (j : Bytes) → live (cleaned e) t j ≡ live s t j
  unfolding live live_of
  cleaned-shown e t h j =
      rw get-remove
        (ground (arith, there, bytes_eq_iff k j, is_due-later entry.expires_at_ms now t h overdue))

  cleaned-size : (e : ExpiryIndex) → length (cleaned e).entries + 1 ≡ length s.entries
  unfolding apply_entry
  cleaned-size e = ground (
    arith,
    there,
    total-apply_entry one s.entries k none v.synced.distinct,
    length-total s.entries,
    length-total (remove k s.entries),
  )

  expire_key-IsCleaned : s.revision < u64_max → Returns (IsCleaned s now 1) (expire_key s k now)
  unfolding expire_key
  expire_key-IsCleaned more = Returns-then (remove_timer-Updated s.expiry v.synced.index k) λ e u.
      rw there (
        rw
          (
            overdue,
            checked_minus-ok s.payload_bytes (weight k entry) fits,
            next_revision-ok s.revision more,
          )
          (returned (record {
            valid = cleaned-IsValid e u;
            limits = refl;
            shown = cleaned-shown e;
            size = cleaned-size e;
            revision = refl;
          })))

-- The entry that an overdue timer stands for.
due_entry :
    (s : Shard) (now : ℤ) (k : Bytes)
    → IsValid s
    → IsEarliest s.expiry now k
    → (entry : Entry) × (get k s.entries ≡ some entry) × (is_due entry.expires_at_ms now ≡ true)
unfolding is_due
due_entry s now k v early =
    let held : expires_of (get k s.entries) ≡ some early.deadline =
      sym (v.synced.deadlines k) ∙ early.held in
    elim (Option-cases (get k s.entries)) [
      | inl absent ↦ absurd (ground (arith, absent, held))
      | inr (entry, there) ↦ (entry, there, ground (arith, there, held, early.late))
    ]

-- No entry is overdue.
abbrev pub NoneOverdue : Shard → ℤ → Type 0
NoneOverdue s now =
    (k : Bytes) (entry : Entry)
    → get k s.entries ≡ some entry
    → is_due entry.expires_at_ms now ≡ false

none_overdue : (s : Shard) (now : ℤ) → IsValid s → expired s.expiry now ≡ none → NoneOverdue s now
unfolding is_due
none_overdue s now v h k entry there = by_deadline entry.expires_at_ms refl
  where
    held : (o : Option ℤ) → entry.expires_at_ms ≡ o → deadline_of s.expiry k ≡ o
    held o e = v.synced.deadlines k ∙ (rw there e)

    by_deadline : (o : Option ℤ) → entry.expires_at_ms ≡ o → is_due o now ≡ false
    by_deadline none e = refl
    by_deadline (some d) e =
        ground (arith, expired-none s.expiry v.synced.index now h k d (held (some d) e))

-- What the loop answers after some removals.
pub record IsSwept (s : Shard) (now : ℤ) (rounds before : ℕ) (r : ℕ × Shard) : Type 0 where
  pub removed : ℕ
  pub count : r.0 ≡ before + removed
  pub within : removed ≤ rounds
  pub cleaned : IsCleaned s now removed r.1
  pub complete : removed < rounds → NoneOverdue r.1 now

untouched : (s : Shard) (now : ℤ) → IsValid s → IsCleaned s now 0 s
untouched s now v = record {
  valid = v;
  limits = refl;
  shown = λ t h k. refl;
  size = omega arith;
  revision = omega arith;
}

joined :
    {a b c : Shard} {now : ℤ} {m n : ℕ}
    → IsCleaned a now m b
    → IsCleaned b now n c
    → IsCleaned a now (m + n) c
joined p q = record {
  valid = q.valid;
  limits = q.limits ∙ p.limits;
  shown = λ t h k. q.shown t h k ∙ p.shown t h k;
  size = omega (arith, p.size, q.size);
  revision = omega (arith, p.revision, q.revision);
}

expire_loop-IsSwept :
    (rounds : ℕ) (s : Shard) (now : ℤ) (before : ℕ)
    → IsValid s
    → s.revision + rounds ≤ u64_max
    → Returns (IsSwept s now rounds before) (expire_loop rounds s now before)
unfolding expire_loop
expire_loop-IsSwept zero s now before v h = returned (record {
  removed = 0;
  count = omega arith;
  within = omega arith;
  cleaned = untouched s now v;
  complete = λ less. absurd (omega arith);
})
expire_loop-IsSwept (suc rounds) s now before v h = elim (Option-cases (expired s.expiry now)) [
  | inl nothing ↦
      rw (nothing, expire_loop)
        (returned (record {
          removed = 0;
          count = omega arith;
          within = omega arith;
          cleaned = untouched s now v;
          complete = λ less. none_overdue s now v nothing;
        }))
  | inr (k, found) ↦
      let (entry, there, overdue) =
        due_entry s now k v (expired-some s.expiry v.synced.index now k found) in
      rw (found, expire_loop)
        (Returns-then (expire_key-IsCleaned s now k entry there overdue v (omega arith))
          λ s' one_gone.
            Returns-weaken
              (expire_loop-IsSwept rounds s' now (before + 1) one_gone.valid
                (omega (arith, one_gone.revision)))
              λ r rest. record {
                removed = 1 + rest.removed;
                count = omega (arith, rest.count);
                within = omega (arith, rest.within);
                cleaned = joined one_gone rest.cleaned;
                complete = λ less. rest.complete (omega arith);
              })
]

-- A cleanup of a valid shard, whose revision can go on by the budget within a u64, ends without a
-- panic. It removes at most `budget` entries, all of them overdue, keeps the invariant, and with
-- budget to spare it leaves no overdue entry.
pub expire_due_correct :
    (s : Shard) (now : ℤ) (budget : ℕ)
    → IsValid s
    → s.revision + budget ≤ u64_max
    → Returns (IsSwept s now budget 0) (expire_due s now budget)
unfolding expire_due
expire_due_correct s now budget v h = expire_loop-IsSwept budget s now 0 v h
