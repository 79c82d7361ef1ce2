-- ===== src/Engine/Owner/Steps.antt =====
-- The steps of an owner, in any order that its guards admit, and what they keep.

use recall.Prelude.{
  ℕ, ◌+◌, suc, ap, ◌<◌, ◌≡◌, refl, Bool, true, false, Option, none, some, arith, ◌==◌, sym, ◌≤◌,
}
use recall.Prelude.Int.{ℤ}
use mathlib.Core.Path.{subst}
use recall.Run.{
  Run, ok, err, panic, out_of_fuel, ◌>>=◌, Returns, IfReturns, holds, panics, runs_out,
  IfReturns-then, IfReturns-branch, IfReturns-or_panic, IfReturns-value, Returns-IfReturns,
}
use recall.Protocol.{Reply}
use recall.Command.{Operation}
use recall.Store.{Shard, Prepared, u64_max}
use recall.Store.Prepare.{prepare}
use recall.Store.Apply.{apply, execute}
use recall.Store.Valid.{IsValid}
use recall.Store.Execute.{IsExecuted, Prepares, ready, Executed, prepare-Prepares, execute_correct}
use recall.Store.Cleanup.{expire_due_correct}
use recall.Engine.Owner.{
  Reservation, Control, Response, Owner, reserve, prepare_for, apply_for, release, sample, stop,
  done, is_free, active, handle_prepare, handle_apply, handle_release, handle, handle_closed,
  handle_tick, answer_prepare, local_reply, execute_local,
}

-- The reservation that a message speaks of is the owner's, and carries the message's id.
pub active-IfReturns :
    (o : Owner) (id : ℕ) → IfReturns (λ r. (o.reservation ≡ some r) × (r.id ≡ id)) (active o id)
unfolding active
active-IfReturns o id =
    IfReturns-then (IfReturns-or_panic o.reservation (λ r e. e))
      λ r e. IfReturns-branch (r.id == id) (λ b. holds (e, ground (arith, b))) (λ b. panics)

module _ (reserves : ℕ → Bool) (batch : ℕ) where
  -- One round of `owner_loop`. Control messages are read until the owner stops, a tick only while it
  -- neither stops nor is reserved, and a request only while it is not reserved; `data_turn` gives
  -- way to a waiting request first, and may find none.
  pub data Step (o : Owner) : Owner → Type 0 where
    control :
        (message : Control) (o' : Owner) (response : Response)
        → o.stopping ≡ false
        → handle reserves o message ≡ ok (o', response)
        → Step o o'
    disconnect : (o' : Owner) → o.stopping ≡ false → handle_closed o ≡ ok o' → Step o o'
    tick :
        (now : ℤ) (o' : Owner)
        → is_free o ≡ true
        → o.stopping ≡ false
        → handle_tick o now batch ≡ ok o'
        → Step o o'
    request :
        (operation : Operation) (now : ℤ) (o' : Owner) (reply : Reply)
        → is_free o ≡ true
        → execute_local reserves o operation now ≡ ok (o', reply)
        → Step o o'
    turn : o.data_turn ≡ true → is_free o ≡ true → Step o (record o { data_turn = false })

  -- The states that `n` rounds lead to.
  pub data Reach (s : Owner) : ℕ → Owner → Type 0 where
    here : Reach s 0 s
    next : {n : ℕ} {t u : Owner} → Reach s n t → Step t u → Reach s (suc n) u

  unfoldable pub PreparedOn : Shard → Option Prepared → Type 0
  PreparedOn s none = Unit
  PreparedOn s (some p) =
      (operation : Operation) × (now : ℤ) × (prepare reserves s operation now ≡ ok p)

  -- What is prepared was prepared on the shard as it is now.
  unfoldable pub Fits : Shard → Option Reservation → Type 0
  Fits s none = Unit
  Fits s (some r) = PreparedOn s r.prepared

  pub record IsSound (o : Owner) : Type 0 where
    pub valid : IsValid o.shard
    pub fits : Fits o.shard o.reservation

  -- What a step keeps, and how far it moves the revision.
  pub record IsKept (o o' : Owner) : Type 0 where
    pub sound : IsSound o'
    pub revision : o'.shard.revision ≤ o.shard.revision + (batch + 1)

  pub Prepares-apply :
      {s : Shard} {operation : Operation} {now : ℤ} {p : Prepared}
      → Prepares reserves s operation now (ok p)
      → Returns (λ r. IsExecuted reserves s operation now r × (r.0 ≡ p.response)) (apply s p)
  Prepares-apply (ready x) = x

  -- A preparation that fits is applied without a panic.
  pub apply-IsExecuted :
      (s : Shard) (operation : Operation) (now : ℤ) (p : Prepared)
      → IsValid s
      → s.revision < u64_max
      → prepare reserves s operation now ≡ ok p
      → Returns (λ r. IsExecuted reserves s operation now r × (r.0 ≡ p.response)) (apply s p)
  apply-IsExecuted s operation now p v more e = Prepares-apply (
      subst (Prepares reserves s operation now) e
        (prepare-Prepares reserves s operation now v more))

  pub Fits-prepared :
      (s : Shard) {r : Reservation} {p : Prepared} (q : Option Reservation)
      → Fits s q
      → q ≡ some r
      → r.prepared ≡ some p
      → PreparedOn s (some p)
  unfolding Fits
  Fits-prepared s none f e h = cc
  Fits-prepared s (some a) f e h =
      let same : a.prepared ≡ some _ = ground (arith, e, h) in subst (PreparedOn s) same f

  module _ (o : Owner) (x : IsSound o) (more : o.shard.revision + batch < u64_max) where
    unmoved : (o' : Owner) → o'.shard ≡ o.shard → Fits o.shard o'.reservation → IsKept o o'
    unmoved o' e f = record {
      sound = record {
        valid = subst IsValid (sym e) x.valid;
        fits = subst (λ s. Fits s o'.reservation) (sym e) f;
      };
      revision = omega (arith, ap (λ (s : Shard). s.revision) e);
    }

    abbrev Keeps : Owner × Response → Type 0
    Keeps r = IsKept o r.0

    answer_prepare-IsKept :
        (id : ℕ) (operation : Operation) (now : ℤ) (q : Run Prepared)
        → prepare reserves o.shard operation now ≡ q
        → IfReturns Keeps (answer_prepare o id q)
    unfolding Fits PreparedOn
    answer_prepare-IsKept id operation now (ok p) e = holds (
        unmoved (record o { reservation = some (record { id = id; prepared = some p }) }) refl
          (operation, now, e))
    answer_prepare-IsKept id operation now (err m) e = holds (unmoved o refl x.fits)
    answer_prepare-IsKept id operation now panic e = panics
    answer_prepare-IsKept id operation now out_of_fuel e = runs_out

    apply-IsKept :
        (r : Reservation) (p : Prepared)
        → o.reservation ≡ some r
        → r.prepared ≡ some p
        → IfReturns Keeps (
            apply o.shard p >>= λ a. ok (
              record o { shard = a.1; reservation = some (record { id = r.id; prepared = none }) },
              done,
            ))
    unfolding PreparedOn Fits
    apply-IsKept r p e h =
        let (operation, now, made) = Fits-prepared o.shard o.reservation x.fits e h in
        IfReturns-then
          (Returns-IfReturns (apply-IsExecuted o.shard operation now p x.valid (omega arith) made))
          λ a (ran, _). holds (record {
            sound = record { valid = ran.valid; fits = tt };
            revision = omega (arith, ran.revision);
          })

    handle-IsKept : (message : Control) → IfReturns Keeps (handle reserves o message)
    unfolding handle handle_prepare handle_apply handle_release Fits PreparedOn
    handle-IsKept (reserve id) =
        IfReturns-branch (is_free o)
          (λ b. holds (
            unmoved (record o { reservation = some (record { id = id; prepared = none }) }) refl
              tt))
          (λ b. panics)
    handle-IsKept (prepare_for id operation now) = IfReturns-then (active-IfReturns o id) λ r e.
        elim r.prepared
          as (λ q. IfReturns Keeps (elim q [
            | some p ↦ panic
            | none ↦ answer_prepare o id (prepare reserves o.shard operation now)
          ])) [
            | none ↦
                answer_prepare-IsKept id operation now (prepare reserves o.shard operation now) refl
            | some p ↦ panics
          ]
    handle-IsKept (apply_for id) = IfReturns-then (active-IfReturns o id) λ r e.
        IfReturns-then (IfReturns-or_panic r.prepared (λ p h. h)) λ p h. apply-IsKept r p e.0 h
    handle-IsKept (release id) =
        IfReturns-then (active-IfReturns o id)
          λ r e. holds (unmoved (record o { reservation = none; data_turn = true }) refl tt)
    handle-IsKept sample = holds (unmoved (record o { data_turn = true }) refl x.fits)
    handle-IsKept stop =
        IfReturns-branch (is_free o)
          (λ b. holds (unmoved (record o { closed = true; stopping = true }) refl x.fits))
          (λ b. panics)

    is_free-Fits :
        (s : Shard) (q : Option Reservation)
        → (elim q [ none ↦ true | some r ↦ false ]) ≡ true
        → Fits s q
    unfolding Fits
    is_free-Fits s none h = tt
    is_free-Fits s (some r) h = absurd cc

    handle_tick-IsKept :
        (now : ℤ) → is_free o ≡ true → IfReturns (IsKept o) (handle_tick o now batch)
    unfolding handle_tick
    handle_tick-IsKept now free =
        IfReturns-then
          (Returns-IfReturns (expire_due_correct o.shard now batch x.valid (omega arith)))
          λ r swept. holds (record {
            sound = record {
              valid = swept.cleaned.valid;
              fits = is_free-Fits r.1 o.reservation free;
            };
            revision = omega (arith, swept.cleaned.revision, swept.within);
          })

    local_reply-IsKept :
        (operation : Operation) (now : ℤ) (q : Run (Reply × Shard))
        → is_free o ≡ true
        → Executed reserves o.shard operation now q
        → IfReturns (λ r. IsKept o r.0) (local_reply o q)
    local_reply-IsKept operation now (ok (reply, shard)) free ran = holds (record {
      sound = record { valid = ran.valid; fits = is_free-Fits shard o.reservation free };
      revision = omega (arith, ran.revision);
    })
    local_reply-IsKept operation now (err e) free h = holds (unmoved o refl x.fits)
    local_reply-IsKept operation now panic free h = panics
    local_reply-IsKept operation now out_of_fuel free h = runs_out

    handle_closed-IsKept : IfReturns (IsKept o) (handle_closed o)
    unfolding handle_closed
    handle_closed-IsKept =
        IfReturns-branch (is_free o)
          (λ b. holds (unmoved (record o { closed = true; stopping = true }) refl x.fits))
          (λ b. panics)

    pub Step-IsKept : {o' : Owner} → Step o o' → IsKept o o'
    unfolding execute_local
    Step-IsKept (control message o' response go e) = IfReturns-value (handle-IsKept message) e
    Step-IsKept (disconnect o' go e) = IfReturns-value handle_closed-IsKept e
    Step-IsKept (tick now o' free go e) = IfReturns-value (handle_tick-IsKept now free) e
    Step-IsKept (request operation now o' reply free e) =
        IfReturns-value
          (local_reply-IsKept operation now (execute reserves o.shard operation now) free
            (execute_correct reserves o.shard operation now x.valid (omega arith)))
          e
    Step-IsKept (turn t free) = unmoved (record o { data_turn = false }) refl x.fits
