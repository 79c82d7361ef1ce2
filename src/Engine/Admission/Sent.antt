-- ===== src/Engine/Admission/Sent.antt =====
-- Where a command is sent: to the owner of all its keys, or to the coordinator if it can be split; and
-- what it comes to there.
use mathlib.Core.Path.{subst}
use recall.Prelude.{
  ℕ, ◌+◌, ◌*◌, ◌-◌, ◌^◌, ◌<◌, ◌≤◌, ◌≡◌, refl, sym, Bool, true, false, ◌||◌, List, [], ◌∷◌, Bytes,
  codes, ltb, ◌==◌, if◌then◌else◌, length, arith, Bool-cases, inl, inr, ◌⊎◌, some, get_elem?, set,
}
use native.Mathlib.Nat.{mod-lt}
use recall.Prelude.Int.{ℤ}
use recall.Run.{Run, panic, out_of_fuel, ok, err, Returns, returned, Returns-weaken, at, ◌>>=◌}
use recall.Protocol.{Reply, error}
use recall.Command.{Operation, keys, payload_bytes}
use recall.Config.{saturating_add}
use recall.Store.{Shard}
use recall.Store.Apply.{execute}
use recall.Store.Execute.{IsExecuted, Refused, Executed, execute_correct}
use recall.Engine.{Part, route, split, split_keys, split_pairs}
use recall.Engine.Groups.{Every}
use recall.Engine.Owner.{Owner, execute_local, local_reply}
use recall.Engine.Coordinate.{coordinate}
use recall.Engine.Coordinate.Phases.{get_elem?-some}
use recall.Engine.Coordinate.Messages.{Idle}
use recall.Engine.Coordinate.Atomic.{Atomic, coordinate-Atomic}
use recall.Engine.Admission.{
  Admission, rejected, to_owner, to_coordinator, saturating_mul, all_at, charge_of, admit_keys,
  admit, submit,
}

-- Below 2 ^ 32 no step of the charge has saturated.
unsaturated :
    (payload n : ℕ)
    → saturating_add (saturating_add payload (saturating_mul n 128)) 256 < 2 ^ 32
    → saturating_add (saturating_add payload (saturating_mul n 128)) 256 ≡ payload + 128 * n + 256
unsaturated payload n h = ground arith

saturated_le :
    (payload n : ℕ)
    → saturating_add (saturating_add payload (saturating_mul n 128)) 256 ≤ payload + 128 * n + 256
saturated_le payload n = ground arith

module _ (hash : Bytes → ℕ) (owners queue_bytes : ℕ) (closing : Bool) (operation : Operation) where
  -- What a command is charged, when nothing saturates.
  abbrev pub exact_charge : ℕ
  exact_charge = payload_bytes operation + 128 * length (keys operation) + 256

  -- The charge of an admitted command is exact and within the queue's bytes and a u32.
  pub record IsCharge (charge : ℕ) : Type 0 where
    pub exact : charge ≡ exact_charge
    pub within_queue : charge ≤ queue_bytes
    pub within_u32 : charge < 2 ^ 32

  -- What admission promises; no two of the cases can hold of one command.
  pub data Admitted : Admission → Type 0 where
    shutting_down :
        closing ≡ true → Admitted (rejected (error (codes "BUSY Recall is shutting down")))
    no_keys :
        closing ≡ false
        → keys operation ≡ []
        → Admitted (rejected (error (codes "ERR empty key set")))
    too_large :
        closing ≡ false
        → 0 < length (keys operation)
        → (queue_bytes < exact_charge) ⊎ (2 ^ 32 ≤ exact_charge)
        → Admitted (rejected (error (codes "BUSY command exceeds queue byte capacity")))
    one_owner :
        (charge : ℕ) (first : Bytes) (rest : List Bytes)
        → closing ≡ false
        → keys operation ≡ first ∷ rest
        → Every (λ k. route hash owners k ≡ route hash owners first) (keys operation)
        → IsCharge charge
        → Admitted (to_owner (route hash owners first) charge)
    several :
        (charge : ℕ) (parts : List Part) (first : Bytes) (rest : List Bytes)
        → closing ≡ false
        → keys operation ≡ first ∷ rest
        → ¬ Every (λ k. route hash owners k ≡ route hash owners first) (keys operation)
        → split operation hash owners ≡ ok parts
        → IsCharge charge
        → Admitted (to_coordinator charge)

  all_at-Every :
      (first : ℕ) (ks : List Bytes)
      → all_at hash owners first ks ≡ true
      → Every (λ k. route hash owners k ≡ first) ks
  unfolding all_at Every
  all_at-Every first [] e = tt
  all_at-Every first (k ∷ ks) e = (ground (arith, e), all_at-Every first ks (ground (arith, e)))

  Every-all_at :
      (first : ℕ) (ks : List Bytes)
      → Every (λ k. route hash owners k ≡ first) ks
      → all_at hash owners first ks ≡ true
  unfolding all_at Every
  Every-all_at first [] h = refl
  Every-all_at first (k ∷ ks) h = ground (arith, h.0, Every-all_at first ks h.1)

  -- Keys that are not all at the first owner.
  spread_keys :
      (first : ℕ) (ks : List Bytes)
      → all_at hash owners first ks ≡ false
      → ¬ Every (λ k. route hash owners k ≡ first) ks
  spread_keys first ks e h = let home = Every-all_at first ks h in absurd cc

  charge_of-IsCharge :
      charge_of operation ≤ queue_bytes
      → charge_of operation < 2 ^ 32
      → IsCharge (charge_of operation)
  charge_of-IsCharge h k = record {
    exact = unsaturated (payload_bytes operation) (length (keys operation)) k;
    within_queue = h;
    within_u32 = k;
  }

  one_key :
      (key first : Bytes) (rest : List Bytes)
      → key ∷ [] ≡ first ∷ rest
      → all_at hash owners (route hash owners first) (first ∷ rest) ≡ false
      → ⊥
  unfolding all_at
  one_key key first rest e n =
      let none_left : rest ≡ [] = cc in
      let same : (route hash owners first == route hash owners first) ≡ true = ground arith in
      let home : all_at hash owners (route hash owners first) (first ∷ rest) ≡ true =
        rw (none_left, same) refl in
      absurd (ground (arith, home, n))

  -- Keys of several owners are those of a command that can be split.
  splits :
      (q : Operation) (first : Bytes) (rest : List Bytes)
      → keys q ≡ first ∷ rest
      → all_at hash owners (route hash owners first) (first ∷ rest) ≡ false
      → (parts : List Part) × (split q hash owners ≡ ok parts)
  unfolding keys split all_at
  splits (Operation.delete ks) first rest e n = (split_keys hash owners Operation.delete ks, refl)
  splits (Operation.exists ks) first rest e n = (split_keys hash owners Operation.exists ks, refl)
  splits (Operation.multi_get ks) first rest e n =
      (split_keys hash owners Operation.multi_get ks, refl)
  splits (Operation.multi_set pairs) first rest e n = (split_pairs hash owners pairs, refl)
  splits (Operation.get key) first rest e n = absurd (one_key key first rest e n)
  splits (Operation.set key value condition expiry) first rest e n =
      absurd (one_key key first rest e n)
  splits (Operation.increment key amount subtract) first rest e n =
      absurd (one_key key first rest e n)
  splits (Operation.expire key milliseconds) first rest e n = absurd (one_key key first rest e n)
  splits (Operation.ttl key milliseconds) first rest e n = absurd (one_key key first rest e n)
  splits (Operation.persist key) first rest e n = absurd (one_key key first rest e n)

  overcharged :
      (queue_bytes < charge_of operation) ⊎ (2 ^ 32 ≤ charge_of operation)
      → (queue_bytes < exact_charge) ⊎ (2 ^ 32 ≤ exact_charge)
  overcharged h =
      ground (arith, h, saturated_le (payload_bytes operation) (length (keys operation)))

  module _ (opened : closing ≡ false) where
    by_owner :
        (first : Bytes) (rest : List Bytes)
        → keys operation ≡ first ∷ rest
        → IsCharge (charge_of operation)
        → (b : Bool) → all_at hash owners (route hash owners first) (first ∷ rest) ≡ b
        → Admitted (
            if b
            then to_owner (route hash owners first) (charge_of operation)
            else to_coordinator (charge_of operation))
    by_owner first rest e charge true single =
        one_owner (charge_of operation) first rest opened e
          (subst (Every (λ k. route hash owners k ≡ route hash owners first)) (sym e)
            (all_at-Every (route hash owners first) (first ∷ rest) single))
          charge
    by_owner first rest e charge false spread =
        let (parts, whole) = splits operation first rest e spread in
        several (charge_of operation) parts first rest opened e
          (λ h.
            spread_keys (route hash owners first) (first ∷ rest) spread
              (subst (Every (λ k. route hash owners k ≡ route hash owners first)) e h))
          whole charge

    admit_keys-Admitted :
        (ks : List Bytes)
        → keys operation ≡ ks
        → Admitted (admit_keys hash owners queue_bytes operation ks)
    admit_keys-Admitted [] e = no_keys opened e
    admit_keys-Admitted (first ∷ rest) e =
        let some_keys : 0 < length (keys operation) = rw e (omega arith) in
        elim (Bool-cases
          (ltb queue_bytes (charge_of operation) || ltb (2 ^ 32 - 1) (charge_of operation))) [
            | inl long ↦ rw long (too_large opened some_keys (overcharged (ground (arith, long))))
            | inr fits ↦
                let charge = charge_of-IsCharge (ground (arith, fits)) (ground (arith, fits)) in
                rw fits (
                  by_owner first rest e charge
                    (all_at hash owners (route hash owners first) (first ∷ rest)) refl)
          ]

  chosen :
      (b : Bool) {x y : Admission}
      → (b ≡ true → Admitted x)
      → (b ≡ false → Admitted y)
      → Admitted (if b then x else y)
  chosen true p q = p refl
  chosen false p q = q refl

  -- With one owner at least, a command is refused on shutdown; otherwise when it has no key; otherwise
  -- when its charge exceeds the queue's bytes or a u32. Every other command is sent to the owner of its
  -- keys when they all have one owner, and to the coordinator when not, and then it can be split. The
  -- charge is exact: it has not saturated.
  pub admit-Admitted : 0 < owners → Admitted (admit hash owners queue_bytes closing operation)
  unfolding admit
  admit-Admitted some_owner =
      chosen closing (λ shut. shutting_down shut)
        λ opened. admit_keys-Admitted opened (keys operation) refl

module _ (reserves : ℕ → Bool) (hash : Bytes → ℕ) (queue_bytes max_reply_bytes : ℕ) (closing : Bool)
    (owners : List Owner) (operation : Operation) (now : ℤ) (id : ℕ) where
  abbrev pub Sends : Admission → Type 0
  Sends = Admitted hash (length owners) queue_bytes closing operation

  -- What a command comes to, by its admission.
  pub data Submitted : List Owner × Reply → Type 0 where
    refused_at_once : (r : Reply) → Sends (rejected r) → Submitted (owners, r)
    ran_by :
        (i charge : ℕ) (o : Owner) (r : Reply × Shard)
        → Sends (to_owner i charge)
        → get_elem? owners i ≡ some o
        → IsExecuted reserves o.shard operation now r
        → Submitted (set owners i (record o { shard = r.1 }), r.0)
    refused_by :
        (i charge : ℕ) (o : Owner) (e : Bytes)
        → Sends (to_owner i charge)
        → get_elem? owners i ≡ some o
        → Refused reserves o.shard operation now e
        → Submitted (set owners i o, error e)
    coordinated :
        (charge : ℕ) (parts : List Part) {r : List Owner × Reply}
        → Sends (to_coordinator charge)
        → split operation hash (length owners) ≡ ok parts
        → Atomic reserves id now owners max_reply_bytes operation parts r
        → Submitted r

  run_local :
      (i charge : ℕ) (o : Owner) (q : Run (Reply × Shard))
      → Sends (to_owner i charge)
      → get_elem? owners i ≡ some o
      → Executed reserves o.shard operation now q
      → Returns Submitted (local_reply o q >>= λ r. ok (set owners i r.0, r.1))
  run_local i charge o (ok r) a e x = returned (ran_by i charge o r a e x)
  run_local i charge o (err m) a e x = returned (refused_by i charge o m a e x)
  run_local i charge o panic a e x = absurd x
  run_local i charge o out_of_fuel a e x = absurd x

  sent :
      (a : Admission)
      → 0 < length owners
      → ((j : ℕ) (o : Owner) → get_elem? owners j ≡ some o → Idle o)
      → Admitted hash (length owners) queue_bytes closing operation a
      → Returns Submitted (elim a [
        | rejected reply ↦ ok (owners, reply)
        | to_owner owner charge ↦ do
          o ← at owners owner
          (o', reply) ← execute_local reserves o operation now
          ok (set owners owner o', reply)
        | to_coordinator charge ↦ coordinate reserves hash max_reply_bytes owners operation now id
      ])
  unfolding execute_local route
  sent _ h idle (shutting_down e) = returned (refused_at_once _ (shutting_down e))
  sent _ h idle (no_keys c e) = returned (refused_at_once _ (no_keys c e))
  sent _ h idle (too_large c k e) = returned (refused_at_once _ (too_large c k e))
  sent _ h idle (one_owner charge first rest c e home x) =
      let i = route hash (length owners) first in
      let (o, there) = get_elem?-some owners i (mod-lt (hash first) h) in
      let ready = idle i o there in
      rw there (
        run_local i charge o (execute reserves o.shard operation now)
          (one_owner charge first rest c e home x) there
          (execute_correct reserves o.shard operation now ready.valid ready.below))
  sent _ h idle (several charge parts first rest c e spread whole x) =
      Returns-weaken
        (coordinate-Atomic reserves id now owners hash max_reply_bytes operation parts h whole idle)
        λ r y. coordinated charge parts (several charge parts first rest c e spread whole x) whole y

  -- A command whose turn comes on idle and valid owners, of which there is one at least and whose
  -- revisions are below the largest u64, ends without a panic, as its admission says: when it is
  -- rejected, the reply is that of the rejection and no owner changes; when it is sent to an owner, to
  -- which all its keys are routed, that owner runs it as a whole, or refuses it and keeps its shard;
  -- when it is sent to the coordinator, the owners of its parts install them all, or none changes its
  -- shard.
  pub submit-Submitted :
      0 < length owners
      → ((j : ℕ) (o : Owner) → get_elem? owners j ≡ some o → Idle o)
      → Returns Submitted
          (submit reserves hash queue_bytes max_reply_bytes closing owners operation now id)
  unfolding submit
  submit-Submitted h idle =
      sent (admit hash (length owners) queue_bytes closing operation) h idle
        (admit-Admitted hash (length owners) queue_bytes closing operation h)
