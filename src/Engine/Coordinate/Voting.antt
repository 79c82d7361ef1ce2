-- ===== src/Engine/Coordinate/Voting.antt =====
-- The votes of the owners: what they hold after the loop of preparations.

use mathlib.Core.List.{append_assoc, append-nil}
use recall.Prelude.{
  ℕ, suc, ◌≡◌, refl, sym, ◌∙◌, ap, Bool, Option, none, some, List, [], ◌∷◌, ◌++◌, Bytes, inl, inr,
  get_elem?, set,
}
use recall.Prelude.Int.{ℤ}
use recall.Run.{ok, Returns, returned, Returns-then, Returns-weaken}
use recall.Protocol.{Reply, error}
use recall.Store.{Prepared}
use recall.Store.Prepare.{prepare}
use recall.Engine.{Part}
use recall.Engine.Owner.{Owner, Response, prepare_for, prepared_reply, failed}
use recall.Engine.Coordinate.{Votes, agreed, declined, prepare_all}
use recall.Engine.Coordinate.Phases.{
  Ascends, Moved, Standing, Moved-nil, Moved-cons, control-Returns, Standing-later, first_owner,
  Moved-still,
}
use recall.Engine.Coordinate.Combine.{AllShaped, answer-Shaped}
use recall.Engine.Coordinate.Messages.{Idle, held, holding, Promised, Installed, prepare_for-answer}

module _ (reserves : ℕ → Bool) (id : ℕ) (now : ℤ) (start : List Owner) where
  -- The owner of a part as it was at the start, idle.
  abbrev pub Begun : Part → Owner → Type 0
  Begun p x = (get_elem? start p.owner ≡ some x) × Idle x

  abbrev pub Reserved : Part → Owner → Type 0
  Reserved p o = (x : Owner) × Begun p x × (o ≡ held id x)

  abbrev pub Ready : Part → Owner → Type 0
  Ready p o =
      (x : Owner) × Begun p x
      × (q : Prepared) × (o ≡ holding id x q)
      × (prepare reserves x.shard p.operation now ≡ ok q)

  abbrev pub Tried : Part → Owner → Type 0
  Tried p o =
      (x : Owner) × Begun p x
      × (prepared : Option Prepared) × (o
          ≡ record x { reservation = some (record { id = id; prepared = prepared }) })

  abbrev pub Applied : Part → Owner → Type 0
  Applied p o = (x : Owner) × Begun p x × Installed reserves id now x p.operation o

  -- The replies are what the specification gives to each part.
  unfoldable pub Answered : List Part → List Reply → Type 0
  Answered [] [] = Unit
  Answered (p ∷ ps) (r ∷ rs) =
      ((x : Owner) × (get_elem? start p.owner ≡ some x) × Promised reserves id now x p.operation r)
      × Answered ps rs
  Answered _ _ = ⊥

  pub data Voted (parts : List Part) (s : List Owner) (results : List Reply)
      : List Owner × Votes → Type 0 where
    all_ready :
        (t : List Owner) (replies : List Reply)
        → Moved (λ p o o'. Ready p o') parts s t
        → Answered parts replies
        → (whole : List Reply) → whole ≡ results ++ replies
        → Voted parts s results (t, agreed whole)
    one_failed :
        (t : List Owner) (m : Bytes)
        → Moved (λ p o o'. Tried p o') parts s t
        → Voted parts s results (t, declined (error m))

  pub Answered-AllShaped :
      (parts : List Part) (replies : List Reply) → Answered parts replies → AllShaped parts replies
  unfolding Answered AllShaped
  Answered-AllShaped [] [] a = tt
  Answered-AllShaped [] (r ∷ rs) a = absurd a
  Answered-AllShaped (p ∷ ps) [] a = absurd a
  Answered-AllShaped (p ∷ ps) (r ∷ rs) a =
      let (x, at_owner, (view, e)) = a.0 in
      (answer-Shaped p.operation now _ e, Answered-AllShaped ps rs a.1)

  module _ (low : ℕ) (p : Part) (rest : List Part) (s : List Owner)
      (a : Ascends low (p ∷ rest)) where
    -- The first part is ready; the rest has voted.
    ready_first :
        (results : List Reply) (x : Owner) (q : Prepared) {v : List Owner × Votes}
        → Begun p x
        → get_elem? s p.owner ≡ some (held id x)
        → prepare reserves x.shard p.operation now ≡ ok q
        → Promised reserves id now x p.operation q.response
        → Voted rest (set s p.owner (holding id x q)) (results ++ q.response ∷ []) v
        → Voted (p ∷ rest) s results v
    unfolding Answered
    ready_first results x q begun e made promised (all_ready t replies m answered whole same) =
        all_ready t (q.response ∷ replies)
          (Moved-cons low p rest s t (holding id x q) a e (x, begun, q, refl, made) m)
          ((x, begun.0, promised), answered) whole
          (same ∙ append_assoc results (q.response ∷ []) replies)
    ready_first results x q begun e made promised (one_failed t message m) =
        one_failed t message
          (Moved-cons low p rest s t (holding id x q) a e (x, begun, some q, refl) m)

    -- The first part fails, and the rest is not asked.
    failed_first :
        (results : List Reply) (x : Owner) (message : Bytes)
        → Begun p x
        → get_elem? s p.owner ≡ some (held id x)
        → Standing Reserved (p ∷ rest) s
        → Voted (p ∷ rest) s results (set s p.owner (held id x), declined (error message))
    failed_first results x message begun e st = one_failed (set s p.owner (held id x)) message (
        Moved-cons low p rest s (set s p.owner (held id x)) (held id x) a e (x, begun, none, refl)
          (Moved-still rest (set s p.owner (held id x))
            (Standing-later low p rest s (held id x) a st) λ q o r. (r.0, r.1, none, r.2)))

  pub prepare_all-Voted :
      (low : ℕ) (parts : List Part) (s : List Owner) (results : List Reply)
      → Ascends low parts
      → Standing Reserved parts s
      → Returns (Voted parts s results) (prepare_all reserves s parts id now results)
  unfolding prepare_all Ascends Answered
  prepare_all-Voted low [] s results a st =
      returned (all_ready s [] (Moved-nil s) tt results (sym (append-nil results)))
  prepare_all-Voted low (p ∷ rest) s results a st =
      let (o, e, (x, begun, is)) = first_owner p rest s st in
      let at_owner : get_elem? s p.owner ≡ some (held id x) = e ∙ ap some is in
      Returns-then
        (control-Returns reserves s p.owner (prepare_for id p.operation now) (held id x) at_owner
          begun.1.going (prepare_for-answer reserves id now x begun.1 p.operation))
        λ r (o', same, vote). elim vote [
          | inl (q, pair, made, promised) ↦
              let answered : r.1 ≡ prepared_reply q.response = ap (λ z. z.1) pair in
              let moved : r.0 ≡ set s p.owner (holding id x q) =
                same ∙ ap (λ (z : Owner × Response). set s p.owner z.0) pair in
              rw (answered, moved)
                (Returns-weaken
                  (prepare_all-Voted (suc p.owner) rest (set s p.owner (holding id x q))
                    (results ++ q.response ∷ []) a.1
                    (Standing-later low p rest s (holding id x q) a st))
                  λ v votes.
                    ready_first low p rest s a results x q begun at_owner made promised votes)
          | inr (message, pair) ↦
              let answered : r.1 ≡ failed message = ap (λ z. z.1) pair in
              let moved : r.0 ≡ set s p.owner (held id x) =
                same ∙ ap (λ (z : Owner × Response). set s p.owner z.0) pair in
              rw (answered, moved)
                (returned (failed_first low p rest s a results x message begun at_owner st))
        ]
