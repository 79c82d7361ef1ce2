-- ===== src/Engine/Coordinate/Decide.antt =====
-- The decision of `coordinate`: every owner of a part installs what it has prepared, or none does.
use mathlib.Core.Path.{subst}
use recall.Prelude.{ℕ, ◌≡◌, sym, Bool, false, some, List, [], Bytes, length}
use recall.Prelude.Int.{ℤ}
use recall.Run.{
  ok, Returns, returned, Returns-then, Returns-branch, Returns-weaken, Returns-known, ◌>>=◌,
}
use recall.Protocol.{Reply, error, encoded_len}
use recall.Command.{Operation}
use recall.Store.Prepare.{exceeds}
use recall.Engine.{Part}
use recall.Engine.Owner.{Owner, Response, apply_for, handle}
use recall.Engine.Coordinate.{Votes, send_all, combine, decide}
use recall.Engine.Coordinate.Phases.{
  Ascends, Moved, send_all-Moved, Moved-still, Moved-Standing, Moved-then,
}
use recall.Engine.Coordinate.Combine.{combine-Returns}
use recall.Engine.Coordinate.Parts.{Suits}
use recall.Engine.Coordinate.Messages.{apply_for-Installed}
use recall.Engine.Coordinate.Voting.{
  Reserved, Ready, Tried, Applied, Answered, Voted, Answered-AllShaped, all_ready, one_failed,
}

module _ (reserves : ℕ → Bool) (id : ℕ) (now : ℤ) (start : List Owner) where
  -- After the decision, and before the owners are released.
  pub data Decided (max_reply_bytes : ℕ) (operation : Operation) (parts : List Part)
      : List Owner × Reply → Type 0 where
    commit :
        (t : List Owner) (reply : Reply) (results : List Reply)
        → combine operation parts results ≡ ok reply
        → exceeds (encoded_len reply) max_reply_bytes ≡ false
        → Answered reserves id now start parts results
        → Moved (λ p o o'. Applied reserves id now start p o') parts start t
        → Decided max_reply_bytes operation parts (t, reply)
    abort :
        (t : List Owner) (m : Bytes)
        → Moved (λ p o o'. Tried reserves id now start p o') parts start t
        → Decided max_reply_bytes operation parts (t, error m)

  applies :
      (p : Part) (o : Owner)
      → Ready reserves id now start p o
      → (o.stopping ≡ false)
        × Returns
            (λ (r : Owner × Response). Applied reserves id now start p r.0)
            (handle reserves o (apply_for id))
  applies p o (x, begun, q, is, made) =
      subst
        (λ (o : Owner).
          (o.stopping ≡ false)
          × Returns (λ (r : Owner × Response). Applied reserves id now start p r.0)
              (handle reserves o (apply_for id)))
        (sym is)
        (
          begun.1.going,
          Returns-weaken (apply_for-Installed reserves id now x begun.1 p.operation q made)
              λ r done. (x, begun, done),
        )

  install_all :
      (max_reply_bytes : ℕ) (operation : Operation) (parts : List Part) (t : List Owner)
      (reply : Reply) (results : List Reply)
      → combine operation parts results ≡ ok reply
      → exceeds (encoded_len reply) max_reply_bytes ≡ false
      → Answered reserves id now start parts results
      → Ascends 0 parts
      → Moved (λ p o o'. Ready reserves id now start p o') parts start t
      → Returns
          (Decided max_reply_bytes operation parts)
          (send_all reserves t parts (apply_for id) >>= λ owners'. ok (owners', reply))
  install_all max_reply_bytes operation parts t reply results e fits answered a m =
      Returns-then
        (send_all-Moved reserves (Ready reserves id now start)
          (λ p o o'. Applied reserves id now start p o') (apply_for id) applies 0 parts t a
          (Moved-Standing parts start t m λ p o o' ready. ready))
        λ u m'. returned (
          commit u reply results e fits answered
            (Moved-then parts start t u m m' λ p o o' applied. (applied.0, applied.1.0, applied)))

  tried : (p : Part) (o : Owner) → Ready reserves id now start p o → Tried reserves id now start p o
  tried p o (x, begun, q, is, made) = (x, begun, some q, is)

  pub decide-Decided :
      (max_reply_bytes : ℕ) (operation : Operation) (parts : List Part) (s : List Owner)
      (v : List Owner × Votes)
      → Suits operation (length start) parts
      → Moved (λ p o o'. Reserved reserves id now start p o') parts start s
      → Voted reserves id now start parts s [] v
      → Returns
          (Decided max_reply_bytes operation parts)
          (decide reserves max_reply_bytes v.0 parts operation id v.1)
  unfolding decide
  decide-Decided max_reply_bytes operation parts s _ suits m (one_failed t message m') = returned (
      abort t message (Moved-then parts start s t m m' λ p o o' tried. (tried.0, tried.1.0, tried)))
  decide-Decided max_reply_bytes operation parts s _ suits m
        (all_ready t replies m' answered whole same) =
      let done : Moved (λ p o o'. Ready reserves id now start p o') parts start t =
        Moved-then parts start s t m m' λ p o o' ready. (ready.0, ready.1.0, ready) in
      let in_full : Answered reserves id now start parts whole =
        subst (Answered reserves id now start parts) (sym same) answered in
      let combined =
        combine-Returns operation parts whole suits.combined
          (Answered-AllShaped reserves id now start parts whole in_full) in
      Returns-then (Returns-known combined) λ reply e.
        Returns-branch (exceeds (encoded_len reply) max_reply_bytes)
          (λ long. returned (
            abort t _ (
              Moved-then parts start t t done
                (Moved-still parts t (Moved-Standing parts start t done λ p o o' ready. ready)
                  λ p o ready. ready)
                λ p o o' ready. (ready.0, ready.1.0, tried p o' ready))))
          λ fits.
            install_all max_reply_bytes operation parts t reply whole e fits in_full suits.ascending
              done
