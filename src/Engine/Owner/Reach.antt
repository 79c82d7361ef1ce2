-- ===== src/Engine/Owner/Reach.antt =====
-- What holds of an owner after any number of rounds of its loop, and what a reserved owner admits.
use mathlib.Core.Path.{subst, ◌∙◌, sym}
use native.Mathlib.Nat.{suc-mul}
use recall.Prelude.{◌==◌, ℕ, ◌+◌, ◌*◌, ◌<◌, ◌≡◌, refl, Bool, true, false, none, some, arith, ◌≤◌}
use recall.Prelude.Int.{ℤ}
use recall.Run.{
  Returns, returned, Returns-then, Run, ok, err, panic, out_of_fuel, ◌>>=◌, IfReturns, holds, fails,
  panics, runs_out, IfReturns-then, IfReturns-branch, IfReturns-or_panic, IfReturns-value,
}
use recall.Protocol.{Reply}
use recall.Command.{Operation}
use recall.Store.{Shard, Prepared, u64_max}
use recall.Store.Prepare.{prepare}
use recall.Store.Apply.{apply}
use recall.Store.Execute.{IsExecuted}
use recall.Store.Valid.{IsValid}
use recall.Engine.Owner.{
  Reservation, Control, Response, Owner, reserve, prepare_for, apply_for, release, sample, stop,
  done, is_free, active, handle_prepare, handle_apply, handle_release, handle, handle_closed,
  answer_prepare, prepared_reply,
}
use recall.Engine.Owner.Steps.{
  Step, Reach, IsSound, control, disconnect, tick, request, turn, here, next, Step-IsKept,
  active-IfReturns, apply-IsExecuted,
}

module _ (reserves : ℕ → Bool) (batch : ℕ) where
  -- After any rounds of an owner, in any order of messages, ticks and requests, its shard is valid and
  -- what is prepared was prepared on the shard as it is now, where the owner began so and the revision
  -- has room in a u64 for that many rounds, each of which moves it by one more than the batch at most.
  pub Reach-IsSound :
      {s : Owner} {n : ℕ} {t : Owner}
      → IsSound reserves batch s
      → s.shard.revision + n * (batch + 1) < u64_max
      → Reach reserves batch s n t
      → IsSound reserves batch t × (t.shard.revision ≤ s.shard.revision + n * (batch + 1))
  Reach-IsSound x room here = (x, omega arith)
  Reach-IsSound {s = s} {t = u} x room (next {n} {t} r step) =
      let (y, moved) = Reach-IsSound x (omega (arith, room, suc-mul n (batch + 1))) r in
      let kept =
        Step-IsKept reserves batch t y (omega (arith, room, moved, suc-mul n (batch + 1))) step in
      (kept.sound, omega (arith, kept.revision, moved, suc-mul n (batch + 1)))

  -- What may become of the shard of a reserved owner.
  pub data Touched (o o' : Owner) : Type 0 where
    left : o'.shard ≡ o.shard → Touched o o'
    installed :
        (r : Reservation) (p : Prepared) (reply : Reply)
        → o.reservation ≡ some r
        → r.prepared ≡ some p
        → apply o.shard p ≡ ok (reply, o'.shard)
        → o'.reservation ≡ some (record { id = r.id; prepared = none })
        → Touched o o'

  -- `pair` of a message, as `Touched`.
  abbrev Touches : Owner → Owner × Response → Type 0
  Touches o r = Touched o r.0

  answer_prepare-Touched :
      (o : Owner) (id : ℕ) (q : Run Prepared) → IfReturns (Touches o) (answer_prepare o id q)
  answer_prepare-Touched o id (ok p) = holds (left refl)
  answer_prepare-Touched o id (err m) = holds (left refl)
  answer_prepare-Touched o id panic = panics
  answer_prepare-Touched o id out_of_fuel = runs_out

  apply-Touched :
      (o : Owner) (r : Reservation) (p : Prepared) (q : Run (Reply × Shard))
      → o.reservation ≡ some r
      → r.prepared ≡ some p
      → apply o.shard p ≡ q
      → IfReturns (Touches o) (
          q >>= λ a. ok (
            record o { shard = a.1; reservation = some (record { id = r.id; prepared = none }) },
            done,
          ))
  apply-Touched o r p (ok (reply, s)) e h a = holds (installed r p reply e h a refl)
  apply-Touched o r p (err m) e h a = fails m
  apply-Touched o r p panic e h a = panics
  apply-Touched o r p out_of_fuel e h a = runs_out

  handle-Touched :
      (o : Owner) (message : Control) → IfReturns (Touches o) (handle reserves o message)
  unfolding handle handle_prepare handle_apply handle_release
  handle-Touched o (reserve id) =
      IfReturns-branch (is_free o) (λ b. holds (left refl)) (λ b. panics)
  handle-Touched o (prepare_for id operation now) = IfReturns-then (active-IfReturns o id) λ r e.
      elim r.prepared
        as (λ q. IfReturns (Touches o) (elim q [
          | some p ↦ panic
          | none ↦ answer_prepare o id (prepare reserves o.shard operation now)
        ])) [
          | none ↦ answer_prepare-Touched o id (prepare reserves o.shard operation now)
          | some p ↦ panics
        ]
  handle-Touched o (apply_for id) = IfReturns-then (active-IfReturns o id) λ r e.
      IfReturns-then (IfReturns-or_panic r.prepared (λ p h. h))
        λ p h. apply-Touched o r p (apply o.shard p) e.0 h refl
  handle-Touched o (release id) = IfReturns-then (active-IfReturns o id) λ r e. holds (left refl)
  handle-Touched o sample = holds (left refl)
  handle-Touched o stop = IfReturns-branch (is_free o) (λ b. holds (left refl)) (λ b. panics)

  handle_closed-Touched : (o : Owner) → IfReturns (Touched o) (handle_closed o)
  unfolding handle_closed
  handle_closed-Touched o = IfReturns-branch (is_free o) (λ b. holds (left refl)) (λ b. panics)

  -- While an owner is reserved, no tick and no request of its data channel reaches the shard: a round
  -- leaves the shard as it is, or installs on it what the reservation has prepared and uses that up.
  pub Step-Touched : {o o' : Owner} → is_free o ≡ false → Step reserves batch o o' → Touched o o'
  Step-Touched {o} b (control message o' response go e) =
      IfReturns-value (handle-Touched o message) e
  Step-Touched {o} b (disconnect o' go e) = IfReturns-value (handle_closed-Touched o) e
  Step-Touched b (tick now o' free go e) = absurd cc
  Step-Touched b (request operation now o' reply free e) = absurd cc
  Step-Touched b (turn t free) = absurd cc

  -- Rounds of an owner that leave its reservation as it is.
  pub data Rests (t : Owner) : Owner → Type 0 where
    at_rest : Rests t t
    rested :
        {u v : Owner}
        → Rests t u
        → Step reserves batch u v
        → v.reservation ≡ u.reservation
        → Rests t v

  untouched :
      {o o' : Owner} (id : ℕ) (p : Prepared)
      → o.reservation ≡ some (record { id = id; prepared = some p })
      → o'.reservation ≡ o.reservation
      → Touched o o'
      → o'.shard ≡ o.shard
  untouched id p e kept (left same) = same
  untouched id p e kept (installed r q reply f h a spent) =
      let spent_now : r.prepared ≡ none = ground (arith, e, kept, f, spent) in
      absurd (ground (arith, h, spent_now))

  Rests-same :
      {t u : Owner} (id : ℕ) (p : Prepared)
      → t.reservation ≡ some (record { id = id; prepared = some p })
      → Rests t u
      → (u.reservation ≡ t.reservation) × (u.shard ≡ t.shard)
  Rests-same id p e at_rest = (refl, refl)
  Rests-same id p e (rested {u} {v} rests step kept) =
      let (same, shard) = Rests-same id p e rests in
      let here = same ∙ e in
      (kept ∙ same, untouched id p here kept (Step-Touched (rw (here, is_free) refl) step) ∙ shard)

  -- What a `prepare` that is answered with a reply has done: the owner holds a preparation of that
  -- operation on its shard, which promises the reply.
  record IsPromised (o : Owner) (id : ℕ) (operation : Operation) (now : ℤ) (z : Owner × Response)
      : Type 0 where
    plan : Prepared
    made : prepare reserves o.shard operation now ≡ ok plan
    shard : z.0.shard ≡ o.shard
    reservation : z.0.reservation ≡ some (record { id = id; prepared = some plan })
    promised : z.1 ≡ prepared_reply plan.response

  -- A reply promised to a `prepare` comes of a preparation.
  abbrev Promises : Owner → ℕ → Operation → ℤ → Owner × Response → Type 0
  Promises o id operation now z =
      (r : Reply) → z.1 ≡ prepared_reply r → IsPromised o id operation now z

  answer_prepare-Promises :
      (o : Owner) (id : ℕ) (operation : Operation) (now : ℤ) (q : Run Prepared)
      → prepare reserves o.shard operation now ≡ q
      → IfReturns (Promises o id operation now) (answer_prepare o id q)
  answer_prepare-Promises o id operation now (ok p) e =
      holds λ r h. record { plan = p; made = e; shard = refl; reservation = refl; promised = refl }
  answer_prepare-Promises o id operation now (err m) e = holds λ r h. cc
  answer_prepare-Promises o id operation now panic e = panics
  answer_prepare-Promises o id operation now out_of_fuel e = runs_out

  handle-Promises :
      (o : Owner) (id : ℕ) (operation : Operation) (now : ℤ)
      → IfReturns (Promises o id operation now) (handle reserves o (prepare_for id operation now))
  unfolding handle handle_prepare
  handle-Promises o id operation now = IfReturns-then (active-IfReturns o id) λ r e.
      elim r.prepared
        as (λ q. IfReturns (Promises o id operation now) (elim q [
          | some p ↦ panic
          | none ↦ answer_prepare o id (prepare reserves o.shard operation now)
        ])) [
          | none ↦
              answer_prepare-Promises o id operation now (prepare reserves o.shard operation now)
                refl
          | some p ↦ panics
        ]

  -- What `apply` answers, of an operation that was prepared with a reply.
  pub record IsInstalledBy (before : Shard) (operation : Operation) (now : ℤ) (r : Reply)
      (z : Owner × Response) : Type 0 where
    pub ran : IsExecuted reserves before operation now (r, z.0.shard)
    pub answer : z.1 ≡ done
    pub spent : (id : ℕ) × (z.0.reservation ≡ some (record { id = id; prepared = none }))

  install :
      (u : Owner) (id : ℕ) (operation : Operation) (now : ℤ) (p : Prepared)
      → IsValid u.shard
      → u.shard.revision < u64_max
      → prepare reserves u.shard operation now ≡ ok p
      → u.reservation ≡ some (record { id = id; prepared = some p })
      → Returns (IsInstalledBy u.shard operation now p.response) (handle reserves u (apply_for id))
  unfolding handle handle_apply active
  install u id operation now p valid below made e =
      let same : (id == id) ≡ true = ground arith in
      rw (e, same)
        (Returns-then (apply-IsExecuted reserves batch u.shard operation now p valid below made)
          λ a (ran, reply). returned (record {
            ran = subst (λ q. IsExecuted reserves u.shard operation now (q, a.1)) reply ran;
            answer = refl;
            spent = (id, refl);
          }))

  -- An owner reached from a sound one that answered the `prepare` of an operation with a reply, and
  -- has then kept its reservation as it is for any rounds, answers the `apply` of that reservation
  -- without a panic: its shard is then what running that very operation, at the time of the
  -- `prepare`, on the shard of then gives as a whole, with the reply that was promised, and the
  -- preparation is used up.
  pub apply_for-IsInstalledBy :
      {s t t' u : Owner} {n : ℕ} {r : Reply} (id : ℕ) (operation : Operation) (now : ℤ)
      → IsSound reserves batch s
      → s.shard.revision + (n + 1) * (batch + 1) < u64_max
      → Reach reserves batch s n t
      → handle reserves t (prepare_for id operation now) ≡ ok (t', prepared_reply r)
      → Rests t' u
      → Returns (IsInstalledBy t.shard operation now r) (handle reserves u (apply_for id))
  apply_for-IsInstalledBy {t} {t'} {u} {n} {r} id operation now x room reached e rests =
      let (y, moved) = Reach-IsSound x (omega (arith, room, suc-mul n (batch + 1))) reached in
      let z = IfReturns-value (handle-Promises t id operation now) e r refl in
      let (kept, same) = Rests-same id z.plan z.reservation rests in
      let shard : u.shard ≡ t.shard = same ∙ z.shard in
      let below : t.shard.revision < u64_max = omega (arith, room, moved, suc-mul n (batch + 1)) in
      let promised : z.plan.response ≡ r = cc (z.promised) in
      subst
        (λ q. Returns (IsInstalledBy t.shard operation now q) (handle reserves u (apply_for id)))
        promised
        (subst
          (λ q.
            Returns (IsInstalledBy q operation now z.plan.response)
              (handle reserves u (apply_for id)))
          shard
          (install u id operation now z.plan (subst IsValid (sym shard) y.valid)
            (subst (λ (q : Shard). q.revision < u64_max) (sym shard) below)
            (subst (λ q. prepare reserves q operation now ≡ ok z.plan) (sym shard) z.made)
            (kept ∙ z.reservation)))
