-- ===== src/Store/Install.antt =====
-- The two halves of a command on a shard: `preflight` finds what the effects come to, and `apply` puts
-- them in.
use recall.Prelude.{
  ℕ, ◌+◌, ◌≤◌, ◌<◌, ◌≡◌, refl, sym, ◌∙◌, ap, ◌⊎◌, inl, inr, Bool, true, false, ◌||◌, Bool-cases,
  Bytes, bytes_Eq, arith, ltb, ◌==◌, if◌then◌else◌, length,
}
use recall.Prelude.Int.{ℤ, pos, ltb_ℤ, pos_parts}
use recall.Map.{get, Distinct, total}
use recall.Run.{Run, ok, err, ◌>>=◌, Returns, returned, Returns-then}
use recall.Protocol.{Reply, encoded_len}
use recall.Store.{Effects, Prepared, Shard, failure, u64_max}
use recall.Store.Prepare.{exceeds, to_usize, preflight, budget_loop}
use recall.Store.Apply.{apply, next_revision, saturating_inc}
use recall.Store.Valid.{IsValid, tables, weight, apply_entries, apply_loop-Applied}
use recall.Store.Budget.{budget_loop-after}
use recall.Store.View.{live_of, live, after, get-apply_entries}

abbrev pub reply_too_long : Bytes
reply_too_long = failure "ERR response exceeds configured limit"

abbrev pub over_budget : Bytes
over_budget = failure "OOM owner key or payload budget exhausted"

abbrev pub no_room : Bytes
no_room = failure "OOM could not reserve command effects"

module _ (s : Shard) (effects : Effects) (response : Reply) where
  abbrev keys_after : ℕ
  keys_after = length (apply_entries effects s.entries)

  abbrev payload_after : ℕ
  payload_after = total weight (apply_entries effects s.entries)

  -- The preparation holds the effects and the payload that they lead to, within the limits.
  pub record IsReady (p : Prepared) : Type 0 where
    pub revision : p.revision ≡ s.revision
    pub effects_kept : p.effects ≡ effects
    pub payload : p.payload_after ≡ payload_after
    pub response_kept : p.response ≡ response
    pub keys_within : keys_after ≤ s.limits.max_keys
    pub payload_within : payload_after ≤ s.limits.max_payload_bytes

  -- What `preflight` answers.
  abbrev pub Preflighted : Run Prepared → Type 0
  Preflighted (ok p) = IsReady p
  Preflighted (err e) =
      ((e ≡ reply_too_long) × (exceeds (encoded_len response) s.limits.max_reply_bytes ≡ true))
      ⊎ ((e ≡ over_budget)
          × ((s.limits.max_keys < keys_after) ⊎ (s.limits.max_payload_bytes < payload_after)))
  Preflighted _ = ⊥

  abbrev exceeded : Bool
  exceeded =
      ltb_ℤ (pos s.limits.max_keys) (pos keys_after)
      || ltb_ℤ (pos s.limits.max_payload_bytes) (pos payload_after)

  ltb_pos : (a b : ℕ) → ltb_ℤ (pos a) (pos b) ≡ ltb a b
  ltb_pos a b = ground (arith, pos_parts a, pos_parts b)

  by_limits :
      (b : Bool)
      → exceeded ≡ b
      → Preflighted (
          if b
          then err over_budget
          else (to_usize (pos payload_after) >>= λ n. ok (record {
            revision = s.revision;
            effects = effects;
            payload_after = n;
            response = response;
          })))
  by_limits true e = inr (
    refl,
    ground (
      arith,
      e,
      ltb_pos s.limits.max_keys keys_after,
      ltb_pos s.limits.max_payload_bytes payload_after,
    ),
  )
  by_limits false e =
      let by_keys = ltb_pos s.limits.max_keys keys_after in
      let by_payload = ltb_pos s.limits.max_payload_bytes payload_after in
      record {
        revision = refl;
        effects_kept = refl;
        payload = refl;
        response_kept = refl;
        keys_within = ground (arith, e, by_keys, by_payload);
        payload_within = ground (arith, e, by_keys, by_payload);
      }

  pub preflight-Preflighted :
      Distinct effects → IsValid s → Preflighted (preflight s effects response)
  unfolding preflight
  preflight-Preflighted d v =
      elim (Bool-cases (exceeds (encoded_len response) s.limits.max_reply_bytes)) [
        | inl long ↦ rw (long, preflight) (inl (refl, long))
        | inr short ↦ rw (short, preflight, sums) (by_limits exceeded refl)
      ]
    where
      sums :
          budget_loop s.entries effects (pos (length s.entries)) (pos s.payload_bytes)
          ≡ (pos keys_after, pos payload_after)
      sums =
          ap (λ n. budget_loop s.entries effects (pos (length s.entries)) (pos n)) v.accounted
          ∙ budget_loop-after s.entries effects d v.synced.distinct

  -- What `apply` leaves of a shard: the effects put in, and the rest as it was.
  pub record IsInstalled (r : Reply × Shard) : Type 0 where
    pub reply : r.0 ≡ response
    pub valid : IsValid r.1
    pub shown : (now : ℤ) (k : Bytes) → live r.1 now k ≡ after s now effects k
    pub limits : r.1.limits ≡ s.limits
    pub revision : r.1.revision ≡ s.revision + 1

  shown_by :
      (r : Shard)
      → Distinct effects
      → r.entries ≡ apply_entries effects s.entries
      → (now : ℤ) (k : Bytes) → live r now k ≡ after s now effects k
  unfolding live after
  shown_by r d e now k = ap (live_of now) (ap (get k) e ∙ get-apply_entries effects s.entries k d)

  pub apply-IsInstalled :
      (p : Prepared)
      → IsReady p
      → Distinct effects
      → IsValid s
      → s.revision < u64_max
      → Returns IsInstalled (apply s p)
  unfolding apply next_revision
  apply-IsInstalled p ready d v more =
      let current : (s.revision == p.revision) ≡ true = ground (arith, ready.revision) in
      let later : ltb s.revision u64_max ≡ true = ground arith in
      rw (current, ready.effects_kept, later)
        (Returns-then (apply_loop-Applied effects (tables s) v.synced) λ t done. returned (record {
          reply = ready.response_kept;
          valid = record {
            synced = done.synced;
            accounted = ready.payload ∙ sym (ap (total weight) done.entries);
            keys_within = rw done.entries ready.keys_within;
            payload_within = rw ready.payload ready.payload_within;
          };
          shown =
              shown_by
                (record s {
                  entries = t.entries;
                  expiry = t.expiry;
                  payload_bytes = p.payload_after;
                  revision = s.revision + 1;
                  applied_commands = saturating_inc s.applied_commands;
                })
                d done.entries;
          limits = refl;
          revision = refl;
        }))
