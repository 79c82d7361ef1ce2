-- ===== src/Engine/Coordinate/Combine.antt =====
-- `combine` accepts what the owners of the parts answer: none of its checks fails.
use mathlib.Core.Path.{subst}
use recall.Prelude.{
  ℕ, zero, suc, ◌<◌, ◌≡◌, refl, ◌∙◌, ap, true, none, some, List, [], ◌∷◌, map, Bytes, arith, ◌==◌,
  length, get_elem?, set, length-set,
}
use recall.Prelude.Int.{ℤ, pos}
use recall.Run.{ok, Returns, returned, Returns-then, at}
use recall.Protocol.{Reply, Replies, nil, cons, integer, bulk, array, replies, count}
use recall.Command.{Operation}
use recall.Store.View.{View}
use recall.Store.Spec.{answer, seen_value, delete_all, count_present}
use recall.Engine.{Part}
use recall.Engine.Groups.{Every}
use recall.Engine.Routed.{Placed}
use recall.Engine.Coordinate.{sum_all, place, place_all, combine}

-- The shape of the answers to the commands on several keys.
unfoldable pub Shaped : Operation → Reply → Type 0
Shaped (Operation.delete ks) r = (n : ℕ) × (r ≡ integer (pos n))
Shaped (Operation.exists ks) r = (n : ℕ) × (r ≡ integer (pos n))
Shaped (Operation.multi_get ks) r =
    (vs : List Reply) × (r ≡ array (replies vs)) × (length vs ≡ length ks)
Shaped _ r = Unit

length-map {ℓ κ} :
    {A : Type ℓ} {B : Type κ} (f : A → B) (xs : List A) → length (map f xs) ≡ length xs
length-map f [] = refl
length-map f (x ∷ xs) = ap suc (length-map f xs)

pub answer-Shaped :
    (operation : Operation) (now : ℤ) (v : View) {r : Reply} {w : View}
    → answer operation now v ≡ ok (r, w)
    → Shaped operation r
unfolding Shaped answer
answer-Shaped (Operation.delete ks) now v e = ((delete_all ks v).0, cc)
answer-Shaped (Operation.exists ks) now v e = (count_present ks v, cc)
answer-Shaped (Operation.multi_get ks) now v e =
    (map (λ k. bulk (seen_value (v k))) ks, cc, length-map (λ k. bulk (seen_value (v k))) ks)
answer-Shaped (Operation.multi_set pairs) now v e = tt
answer-Shaped (Operation.get key) now v e = tt
answer-Shaped (Operation.set key value condition expiry) now v e = tt
answer-Shaped (Operation.increment key amount subtract) now v e = tt
answer-Shaped (Operation.expire key milliseconds) now v e = tt
answer-Shaped (Operation.ttl key milliseconds) now v e = tt
answer-Shaped (Operation.persist key) now v e = tt

-- One result for each part, of its shape.
unfoldable pub AllShaped : List Part → List Reply → Type 0
AllShaped [] [] = Unit
AllShaped (p ∷ ps) (r ∷ rs) = Shaped p.operation r × AllShaped ps rs
AllShaped _ _ = ⊥

-- What `combine` expects of the parts.
unfoldable pub Combines : Operation → List Part → Type 0
Combines (Operation.multi_set pairs) parts = Unit
Combines (Operation.delete ks) parts =
    Every (λ (p : Part). (js : List Bytes) × (p.operation ≡ Operation.delete js)) parts
Combines (Operation.exists ks) parts =
    Every (λ (p : Part). (js : List Bytes) × (p.operation ≡ Operation.exists js)) parts
Combines (Operation.multi_get ks) parts =
    Every
      (λ (p : Part).
        (js : List Bytes) × (p.operation ≡ Operation.multi_get js) × Placed ks js p.positions)
      parts
Combines _ parts = ⊥

deleted :
    (q : Operation) (r : Reply)
    → (js : List Bytes) × (q ≡ Operation.delete js)
    → Shaped q r
    → (n : ℕ) × (r ≡ integer (pos n))
deleted q r (js, e) h =
    let same : Shaped (Operation.delete js) r = subst (λ x. Shaped x r) e h in unfold Shaped in same

existing :
    (q : Operation) (r : Reply)
    → (js : List Bytes) × (q ≡ Operation.exists js)
    → Shaped q r
    → (n : ℕ) × (r ≡ integer (pos n))
existing q r (js, e) h =
    let same : Shaped (Operation.exists js) r = subst (λ x. Shaped x r) e h in unfold Shaped in same

listed :
    {r : Reply} (q : Operation) (js : List Bytes)
    → q ≡ Operation.multi_get js
    → Shaped q r
    → (vs : List Reply) × (r ≡ array (replies vs)) × (length vs ≡ length js)
listed {r = r} q js e h =
    let same : Shaped (Operation.multi_get js) r = subst (λ x. Shaped x r) e h in
    unfold Shaped in same

sum_all-Returns :
    (A : Operation → Type 0)
    → ((q : Operation) (r : Reply) → A q → Shaped q r → (n : ℕ) × (r ≡ integer (pos n)))
    → (parts : List Part) (results : List Reply) → Every (λ p. A p.operation) parts
    → AllShaped parts results
    → Returns (λ _. Unit {0}) (sum_all results)
unfolding sum_all Every AllShaped
sum_all-Returns A f [] [] a h = returned tt
sum_all-Returns A f [] (r ∷ rs) a h = absurd h
sum_all-Returns A f (p ∷ ps) [] a h = absurd h
sum_all-Returns A f (p ∷ ps) (r ∷ rs) a h =
    let (n, e) = f p.operation r a.0 h.0 in
    rw e (Returns-then (sum_all-Returns A f ps rs a.1 h.1) λ total _. returned tt)

count-replies : (vs : List Reply) → count (replies vs) ≡ length vs
count-replies [] = refl
count-replies (v ∷ vs) = ap suc (count-replies vs)

length-Placed :
    (command ks : List Bytes) (ps : List ℕ) → Placed command ks ps → length ps ≡ length ks
unfolding Placed
length-Placed command [] [] h = refl
length-Placed command [] (p ∷ ps) h = absurd h
length-Placed command (k ∷ ks) [] h = absurd h
length-Placed command (k ∷ ks) (p ∷ ps) h = ap suc (length-Placed command ks ps h.1)

within {ℓ} : {A : Type ℓ} (xs : List A) (i : ℕ) {x : A} → get_elem? xs i ≡ some x → i < length xs
within [] i e = cc
within (x ∷ xs) zero e = omega arith
within (x ∷ xs) (suc i) e = omega (arith, within xs i e)

at-Returns {ℓ} :
    {A : Type ℓ} (xs : List A) (i : ℕ) → i < length xs → Returns (λ _. Unit {0}) (at xs i)
at-Returns [] i h = absurd (omega arith)
at-Returns (x ∷ xs) zero h = returned tt
at-Returns (x ∷ xs) (suc i) h = at-Returns xs i (omega arith)

place-Returns :
    (command ks : List Bytes) (ps : List ℕ) (values : Replies) (response : List Reply)
    → Placed command ks ps
    → length response ≡ length command
    → Returns (λ t. length t ≡ length command) (place ps values response)
unfolding Placed place
place-Returns command ks [] values response h e = returned e
place-Returns command ks (p ∷ ps) nil response h e = returned e
place-Returns command [] (p ∷ ps) (cons v vs) response h e = absurd h
place-Returns command (k ∷ ks) (p ∷ ps) (cons v vs) response h e =
    Returns-then (at-Returns response p (omega (arith, e, within command p h.0)))
      λ _ _. place-Returns command ks ps vs (set response p v) h.1 (length-set response p v ∙ e)

place_all-Returns :
    (command : List Bytes) (parts : List Part) (results response : List Reply)
    → Combines (Operation.multi_get command) parts
    → AllShaped parts results
    → length response ≡ length command
    → Returns (λ t. length t ≡ length command) (place_all parts results response)
unfolding place_all Combines Every AllShaped
place_all-Returns command [] results response c h e = returned e
place_all-Returns command (p ∷ ps) [] response c h e = absurd h
place_all-Returns command (p ∷ ps) (r ∷ rs) response c h e =
    let (js, is, at_place) = c.0 in
    let (vs, shape, size) = listed p.operation js is h.0 in
    let counts : (length p.positions == count (replies vs)) ≡ true =
      ground (arith, size, count-replies vs, length-Placed command js p.positions at_place) in
    rw (shape, counts)
      (Returns-then (place-Returns command js p.positions (replies vs) response at_place e)
        λ t k. place_all-Returns command ps rs t c.1 h.1 k)

-- With a result of the right shape for each part, `combine` returns a reply.
pub combine-Returns :
    (operation : Operation) (parts : List Part) (results : List Reply)
    → Combines operation parts
    → AllShaped parts results
    → Returns (λ _. Unit {0}) (combine operation parts results)
unfolding combine Combines
combine-Returns (Operation.delete ks) parts results c h =
    Returns-then
      (sum_all-Returns (λ q. (js : List Bytes) × (q ≡ Operation.delete js)) deleted parts results c
        h)
      λ n _. returned tt
combine-Returns (Operation.exists ks) parts results c h =
    Returns-then
      (sum_all-Returns (λ q. (js : List Bytes) × (q ≡ Operation.exists js)) existing parts results c
        h)
      λ n _. returned tt
combine-Returns (Operation.multi_get ks) parts results c h =
    Returns-then
      (place_all-Returns ks parts results (map (λ key. bulk none) ks) c h
        (length-map (λ key. bulk none) ks))
      λ t _. returned tt
combine-Returns (Operation.multi_set pairs) parts results c h = returned tt
combine-Returns (Operation.get key) parts results c h = absurd c
combine-Returns (Operation.set key value condition expiry) parts results c h = absurd c
combine-Returns (Operation.increment key amount subtract) parts results c h = absurd c
combine-Returns (Operation.expire key milliseconds) parts results c h = absurd c
combine-Returns (Operation.ttl key milliseconds) parts results c h = absurd c
combine-Returns (Operation.persist key) parts results c h = absurd c
