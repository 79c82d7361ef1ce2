-- ===== src/Engine/Coordinate/Atomic.antt =====
-- `coordinate` as a whole: every owner of a part installs its part, or none does.
use mathlib.Core.Path.{subst}
use recall.Prelude.{
  ℕ, ◌<◌, ◌≡◌, sym, ◌∙◌, ap, Bool, false, none, some, List, [], Bytes, length, get_elem?,
}
use recall.Prelude.Int.{ℤ}
use recall.Run.{ok, Returns, returned, Returns-then, Returns-weaken, ◌>>=◌}
use recall.Protocol.{Reply, error, encoded_len}
use recall.Command.{Operation}
use recall.Store.{Shard}
use recall.Store.Prepare.{exceeds}
use recall.Store.Execute.{IsExecuted}
use recall.Engine.{Part, split}
use recall.Engine.Owner.{Owner, Response, reserve, release, handle}
use recall.Engine.Coordinate.{send_all, combine, coordinate}
use recall.Engine.Coordinate.Phases.{
  Ascends, Moved, Standing, send_all-Moved, part_of-owner, part_of-owned, get_elem?-some,
  Moved-Standing, Moved-then,
}
use recall.Engine.Coordinate.Parts.{split-Suits, Owned}
use recall.Engine.Coordinate.Messages.{Idle, released, reserve-held, release-released}
use recall.Engine.Coordinate.Voting.{Begun, Reserved, Tried, Applied, Answered, prepare_all-Voted}
use recall.Engine.Coordinate.Decide.{Decided, decide-Decided, commit, abort}

module _ (reserves : ℕ → Bool) (id : ℕ) (now : ℤ) (start : List Owner) where
  abbrev pub Committed : Part → Owner → Owner → Type 0
  Committed p x o =
      (r : Reply × Shard) × (o ≡ released id (record x { shard = r.1 }))
      × IsExecuted reserves x.shard p.operation now r

  abbrev pub Aborted : Part → Owner → Owner → Type 0
  Aborted p x o = o ≡ released id x

  -- What `coordinate` may come to.
  pub data Atomic (max_reply_bytes : ℕ) (operation : Operation) (parts : List Part)
      : List Owner × Reply → Type 0 where
    committed :
        (t : List Owner) (reply : Reply) (results : List Reply)
        → combine operation parts results ≡ ok reply
        → exceeds (encoded_len reply) max_reply_bytes ≡ false
        → Answered reserves id now start parts results
        → Moved Committed parts start t
        → Atomic max_reply_bytes operation parts (t, reply)
    aborted :
        (t : List Owner) (m : Bytes)
        → Moved Aborted parts start t
        → Atomic max_reply_bytes operation parts (t, error m)

  release-Committed :
      (p : Part) (o : Owner)
      → Applied reserves id now start p o
      → (o.stopping ≡ false)
        × Returns
            (λ (r : Owner × Response).
              (x : Owner) × (get_elem? start p.owner ≡ some x) × Committed p x r.0)
            (handle reserves o (release id))
  release-Committed p o (x, begun, (r, is, ran)) =
      subst
        (λ (o : Owner).
          (o.stopping ≡ false)
          × Returns
              (λ (r : Owner × Response).
                (x : Owner) × (get_elem? start p.owner ≡ some x) × Committed p x r.0)
              (handle reserves o (release id)))
        (sym is)
        (
          begun.1.going,
          Returns-weaken (release-released reserves id now x begun.1 none r.1)
              λ z done. (x, begun.0, (r, done, ran)),
        )

  release-Aborted :
      (p : Part) (o : Owner)
      → Tried reserves id now start p o
      → (o.stopping ≡ false)
        × Returns
            (λ (r : Owner × Response).
              (x : Owner) × (get_elem? start p.owner ≡ some x) × Aborted p x r.0)
            (handle reserves o (release id))
  release-Aborted p o (x, begun, prepared, is) =
      subst
        (λ (o : Owner).
          (o.stopping ≡ false)
          × Returns
              (λ (r : Owner × Response).
                (x : Owner) × (get_elem? start p.owner ≡ some x) × Aborted p x r.0)
              (handle reserves o (release id)))
        (sym is)
        (
          begun.1.going,
          Returns-weaken (release-released reserves id now x begun.1 prepared x.shard)
              λ z done. (x, begun.0, done),
        )

  release_all :
      (max_reply_bytes : ℕ) (operation : Operation) (parts : List Part) (d : List Owner × Reply)
      → Ascends 0 parts
      → Decided reserves id now start max_reply_bytes operation parts d
      → Returns
          (Atomic max_reply_bytes operation parts)
          (send_all reserves d.0 parts (release id) >>= λ owners'. ok (owners', d.1))
  release_all max_reply_bytes operation parts _ a (commit t reply results e fits answered m) =
      Returns-then
        (send_all-Moved reserves (Applied reserves id now start)
          (λ p o o'. (x : Owner) × (get_elem? start p.owner ≡ some x) × Committed p x o')
          (release id) release-Committed 0 parts t a
          (Moved-Standing parts start t m λ p o o' applied. applied))
        λ u m'. returned (
          committed u reply results e fits answered
            (Moved-then parts start t u m m' λ p o o' done. done))
  release_all max_reply_bytes operation parts _ a (abort t message m) =
      Returns-then
        (send_all-Moved reserves (Tried reserves id now start)
          (λ p o o'. (x : Owner) × (get_elem? start p.owner ≡ some x) × Aborted p x o') (release id)
          release-Aborted 0 parts t a (Moved-Standing parts start t m λ p o o' tried. tried))
        λ u m'. returned (aborted u message (Moved-then parts start t u m m' λ p o o' done. done))

  reserve-Reserved :
      (p : Part) (o : Owner)
      → Begun reserves id now start p o
      → (o.stopping ≡ false)
        × Returns
            (λ (r : Owner × Response). Reserved reserves id now start p r.0)
            (handle reserves o (reserve id))
  reserve-Reserved p o begun = (
    begun.1.going,
    Returns-weaken (reserve-held reserves id now o begun.1) λ r is. (o, begun, is),
  )

  owners-Begun :
      (parts : List Part)
      → Owned (length start) parts
      → ((j : ℕ) (o : Owner) → get_elem? start j ≡ some o → Idle o)
      → Standing (Begun reserves id now start) parts start
  owners-Begun parts owned idle j p e =
      let same = part_of-owner parts j p e in
      let (o, there) = get_elem?-some start j (part_of-owned (length start) parts j p owned e) in
      (o, there, (ap (get_elem? start) same ∙ there, idle j o there))

  -- A command on several keys, given to owners that are idle and valid, with revisions below the
  -- largest u64, ends without a panic in one of two ways. Either every owner of a part has installed
  -- that part as a whole, by the specification of the shard at one common time, and the reply combines
  -- the replies that the specification gives to the parts and is within the limit; or no shard has
  -- changed and the reply is an error. In both no other owner has changed and none stays reserved.
  pub coordinate-Atomic :
      (hash : Bytes → ℕ) (max_reply_bytes : ℕ) (operation : Operation) (parts : List Part)
      → 0 < length start
      → split operation hash (length start) ≡ ok parts
      → ((j : ℕ) (o : Owner) → get_elem? start j ≡ some o → Idle o)
      → Returns
          (Atomic max_reply_bytes operation parts)
          (coordinate reserves hash max_reply_bytes start operation now id)
  unfolding coordinate
  coordinate-Atomic hash max_reply_bytes operation parts some_owner e idle =
      let suits = split-Suits hash (length start) some_owner operation parts e in
      rw e (
        Returns-then
          (send_all-Moved reserves (Begun reserves id now start)
            (λ p o o'. Reserved reserves id now start p o') (reserve id) reserve-Reserved 0 parts
            start suits.ascending (owners-Begun parts suits.owned idle))
          λ s m.
            Returns-then
              (prepare_all-Voted reserves id now start 0 parts s [] suits.ascending
                (Moved-Standing parts start s m λ p o o' reserved. reserved))
              λ v votes.
                Returns-then
                  (decide-Decided reserves id now start max_reply_bytes operation parts s v suits m
                    votes)
                  λ d decided.
                    release_all max_reply_bytes operation parts d suits.ascending decided)
