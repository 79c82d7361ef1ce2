-- ===== src/Engine/Coordinate/Messages.antt =====
-- What an owner answers to each message of `coordinate`, from idle to released.
use mathlib.Core.Path.{subst}
use recall.Prelude.{
  ℕ, ◌<◌, ◌≡◌, refl, Bool, true, false, Option, none, some, Bytes, arith, ◌==◌, ◌⊎◌, inl, inr,
}
use recall.Prelude.Int.{ℤ}
use recall.Run.{Run, ok, Returns, returned, Returns-then, Returns-branch, Returns-result}
use recall.Protocol.{Reply}
use recall.Command.{Operation}
use recall.Store.{Shard, Prepared, u64_max}
use recall.Store.Prepare.{prepare}
use recall.Store.Valid.{IsValid}
use recall.Store.View.{View, live}
use recall.Store.Spec.{answer}
use recall.Store.Execute.{IsExecuted, Prepares, ready, refuses, prepare-Prepares}
use recall.Engine.Owner.Steps.{apply-IsExecuted}
use recall.Engine.Owner.{
  Response, Owner, reserve, prepare_for, apply_for, release, prepared_reply, failed, is_free,
  active, answer_prepare, handle, handle_prepare, handle_apply, handle_release,
}

-- An owner that is ready for a command.
pub record Idle (o : Owner) : Type 0 where
  pub valid : IsValid o.shard
  pub below : o.shard.revision < u64_max
  pub free : is_free o ≡ true
  pub going : o.stopping ≡ false

module _ (id : ℕ) where
  abbrev pub held : Owner → Owner
  held o = record o { reservation = some (record { id = id; prepared = none }) }

  abbrev pub holding : Owner → Prepared → Owner
  holding o q = record o { reservation = some (record { id = id; prepared = some q }) }

  abbrev pub released : Owner → Owner
  released o = record o { reservation = none; data_turn = true }

module _ (reserves : ℕ → Bool) (id : ℕ) (now : ℤ) where
  -- The reply that the specification gives to an operation on the shard of an owner.
  abbrev pub Promised : Owner → Operation → Reply → Type 0
  Promised o operation reply =
      (view : View) × (answer operation now (live o.shard now) ≡ ok (reply, view))

  abbrev pub Agreed : Owner → Operation → Owner × Response → Type 0
  Agreed o operation r =
      (q : Prepared) × (r ≡ (holding id o q, prepared_reply q.response))
      × (prepare reserves o.shard operation now ≡ ok q)
      × Promised o operation q.response

  abbrev pub Declined : Owner → Owner × Response → Type 0
  Declined o r = (m : Bytes) × (r ≡ (held id o, failed m))

  -- The owner has installed the operation.
  abbrev pub Installed : Owner → Operation → Owner → Type 0
  Installed o operation t =
      (r : Reply × Shard) × (t
        ≡ record o { shard = r.1; reservation = some (record { id = id; prepared = none }) })
      × IsExecuted reserves o.shard operation now r

  module _ (o : Owner) (idle : Idle o) where
    pub reserve-held : Returns (λ r. r.0 ≡ held id o) (handle reserves o (reserve id))
    unfolding handle
    reserve-held =
        Returns-branch (is_free o) (λ b. returned refl) (λ b. let e = idle.free in absurd cc)

    prepared_or_failed :
        (operation : Operation) (q : Run Prepared)
        → prepare reserves o.shard operation now ≡ q
        → Prepares reserves o.shard operation now q
        → Returns (λ r. Agreed o operation r ⊎ Declined o r) (answer_prepare (held id o) id q)
    prepared_or_failed operation _ e (ready {p} x) =
        let ((reply, shard), _, (ran, same)) = Returns-result x in
        returned (
          inl (
            p,
            refl,
            e,
            (
              ran.view,
              subst (λ r. answer operation now (live o.shard now) ≡ ok (r, ran.view)) same
                  ran.promised,
            ),
          ))
    prepared_or_failed operation _ e (refuses {e = m} x) = returned (inr (m, refl))

    same_id : (id == id) ≡ true
    same_id = ground arith

    pub prepare_for-answer :
        (operation : Operation)
        → Returns
            (λ r. Agreed o operation r ⊎ Declined o r)
            (handle reserves (held id o) (prepare_for id operation now))
    unfolding handle handle_prepare active
    prepare_for-answer operation = rw same_id (
        prepared_or_failed operation (prepare reserves o.shard operation now) refl
          (prepare-Prepares reserves o.shard operation now idle.valid idle.below))

    pub apply_for-Installed :
        (operation : Operation) (q : Prepared)
        → prepare reserves o.shard operation now ≡ ok q
        → Returns (λ r. Installed o operation r.0) (handle reserves (holding id o q) (apply_for id))
    unfolding handle handle_apply active
    apply_for-Installed operation q made = rw same_id (
        Returns-then
          (apply-IsExecuted reserves 0 o.shard operation now q idle.valid idle.below made)
          λ r x. returned (r, refl, x.0))

    pub release-released :
        (p : Option Prepared) (s : Shard)
        → Returns
            (λ r. r.0 ≡ released id (record o { shard = s }))
            (handle reserves
              (record o { shard = s; reservation = some (record { id = id; prepared = p }) })
              (release id))
    unfolding handle handle_release active
    release-released p s = rw same_id (returned refl)
