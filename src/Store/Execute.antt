-- ===== src/Store/Execute.antt =====
-- `execute` of a shard: it keeps the invariant, gives the promised reply, leaves the promised
-- entries, and refuses only for the stated reasons.
use recall.Prelude.{
  ℕ, ◌+◌, ◌<◌, ◌≡◌, refl, sym, ◌∙◌, ◌⊎◌, inl, inr, Bool, true, false, Bool-cases, [], Bytes,
  bytes_Eq, length,
}
use recall.Prelude.Int.{ℤ}
use recall.Map.{Distinct, total}
use recall.Run.{Run, ok, err, panic, out_of_fuel, ◌>>=◌, Returns, returned, Returns-weaken}
use recall.Protocol.{Reply, encoded_len}
use recall.Command.{Operation, keys}
use recall.Store.{Effects, Prepared, Shard, u64_max}
use recall.Store.Prepare.{respond, exceeds, preflight, prepare}
use recall.Store.Apply.{apply, execute}
use recall.Store.Valid.{IsValid, weight, apply_entries}
use recall.Store.View.{View, live, after}
use recall.Store.Spec.{Answer, answer}
use recall.Store.Respond.{Matches}
use recall.Store.Promise.{respond-Matches}
use recall.Store.Install.{
  reply_too_long, over_budget, no_room, Preflighted, preflight-Preflighted, apply-IsInstalled,
}

-- What a command on a shard comes to: the promised reply and the promised entries in a valid shard,
-- or an error that is promised, or one of the three resource errors.
module _ (reserves : ℕ → Bool) (s : Shard) (operation : Operation) (now : ℤ) where
  pub record IsExecuted (r : Reply × Shard) : Type 0 where
    pub valid : IsValid r.1
    pub view : View
    pub promised : answer operation now (live s now) ≡ ok (r.0, view)
    pub shown : (k : Bytes) → live r.1 now k ≡ view k
    pub limits : r.1.limits ≡ s.limits
    pub revision : r.1.revision ≡ s.revision + 1

  pub data Refused (e : Bytes) : Type 0 where
    promised : answer operation now (live s now) ≡ err e → Refused e
    too_long :
        (reply : Reply) (view : View)
        → answer operation now (live s now) ≡ ok (reply, view)
        → exceeds (encoded_len reply) s.limits.max_reply_bytes ≡ true
        → e ≡ reply_too_long
        → Refused e
    budget :
        (reply : Reply) (view : View) (effects : Effects)
        → answer operation now (live s now) ≡ ok (reply, view)
        → ((k : Bytes) → after s now effects k ≡ view k)
        → (s.limits.max_keys < length (apply_entries effects s.entries))
          ⊎ (s.limits.max_payload_bytes < total weight (apply_entries effects s.entries))
        → e ≡ over_budget
        → Refused e
    room : reserves (length (keys operation)) ≡ false → e ≡ no_room → Refused e

  abbrev pub Executed : Run (Reply × Shard) → Type 0
  Executed (ok r) = IsExecuted r
  Executed (err e) = Refused e
  Executed _ = ⊥

  -- A preparation that can be applied, or a refusal.
  pub data Prepares : Run Prepared → Type 0 where
    ready :
        {p : Prepared}
        → Returns (λ r. IsExecuted r × (r.0 ≡ p.response)) (apply s p)
        → Prepares (ok p)
    refuses : {e : Bytes} → Refused e → Prepares (err e)

  module _ (v : IsValid s) (more : s.revision < u64_max) where
    from_preflight :
        (o : Reply × Effects) (view : View) (r : Run Prepared)
        → answer operation now (live s now) ≡ ok (o.0, view)
        → Distinct o.1
        → ((k : Bytes) → after s now o.1 k ≡ view k)
        → Preflighted s o.1 o.0 r
        → Prepares r
    from_preflight (reply, effects) view (ok p) e d h good = ready (
        Returns-weaken (apply-IsInstalled s effects reply p good d v more) λ r done. (
          record {
            valid = done.valid;
            view = view;
            promised = rw done.reply e;
            shown = λ k. done.shown now k ∙ h k;
            limits = done.limits;
            revision = done.revision;
          },
          done.reply ∙ sym good.response_kept,
        ))
    from_preflight (reply, effects) view (err m) e d h (inl (same, long)) =
        refuses (too_long reply view e long same)
    from_preflight (reply, effects) view (err m) e d h (inr (same, over)) =
        refuses (budget reply view effects e h over same)
    from_preflight o view panic e d h bad = absurd bad
    from_preflight o view out_of_fuel e d h bad = absurd bad

    from_respond :
        (r : Run (Reply × Effects)) (a : Answer)
        → Matches s now r a
        → answer operation now (live s now) ≡ a
        → Prepares (r >>= λ o. preflight s o.1 o.0)
    from_respond (ok (reply, effects)) (ok (reply', view)) (same, d, h) e =
        from_preflight (reply, effects) view (preflight s effects reply) (rw same e) d h
          (preflight-Preflighted s effects reply d v)
    from_respond (err m) (err m') same e = refuses (promised (rw same e))
    from_respond _ _ bad e = absurd bad

    -- A command on a valid shard is prepared so that `apply` can put it in, or it is refused.
    pub prepare-Prepares : Prepares (prepare reserves s operation now)
    unfolding prepare
    prepare-Prepares = elim (Bool-cases (reserves (length (keys operation)))) [
      | inl room_there ↦ rw room_there (
          from_respond (respond s operation now []) (answer operation now (live s now))
            (respond-Matches s operation now) refl)
      | inr none_there ↦ rw none_there (refuses (room none_there refl))
    ]

    installed :
        {r : Run (Reply × Shard)} (response : Reply)
        → Returns (λ r. IsExecuted r × (r.0 ≡ response)) r
        → Executed r
    installed response (returned x) = x.0

    applied : {r : Run Prepared} → Prepares r → Executed (r >>= apply s)
    applied (ready {p} done) = installed p.response done
    applied (refuses e) = e

    -- A command on a valid shard, whose revision is below the largest u64, neither panics nor
    -- breaks the invariant: it gives the promised reply and leaves the promised entries, or it is
    -- refused for a stated reason.
    pub execute_correct : Executed (execute reserves s operation now)
    unfolding execute
    execute_correct = applied prepare-Prepares
