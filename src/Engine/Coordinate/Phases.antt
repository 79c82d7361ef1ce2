-- ===== src/Engine/Coordinate/Phases.antt =====
-- The rounds of messages of `coordinate`: what each owner of a part becomes, and that no other owner
-- changes.
use mathlib.Core.Path.{subst}
use recall.Prelude.{
  ℕ, zero, suc, ◌<◌, ◌≤◌, ◌≡◌, refl, sym, ◌∙◌, ap, Bool, false, Option, none, some, List, [], ◌∷◌,
  arith, ◌==◌, if◌then◌else◌, length, get_elem?, set, get_elem?-set_there, get_elem?-set_elsewhere,
  Bool-cases, inl, inr,
}
use recall.Run.{Returns, returned, Returns-then, Returns-weaken, Returns-branch}
use recall.Engine.{Part}
use recall.Engine.Groups.{Every}
use recall.Engine.Owner.{Control, Response, Owner, handle}
use recall.Engine.Coordinate.{control, send_all}

-- The part of an owner, if it has one.
unfoldable pub part_of : List Part → ℕ → Option Part
part_of [] j = none
part_of (part ∷ rest) j = if part.owner == j then some part else part_of rest j

-- The owners of the parts ascend from a bound on.
unfoldable pub Ascends : ℕ → List Part → Type 0
Ascends low [] = Unit
Ascends low (part ∷ rest) = (low ≤ part.owner) × Ascends (suc part.owner) rest

pub part_of-before :
    (low : ℕ) (parts : List Part) (j : ℕ) → Ascends low parts → j < low → part_of parts j ≡ none
unfolding Ascends part_of
part_of-before low [] j a h = refl
part_of-before low (part ∷ rest) j a h =
    let later = part_of-before (suc part.owner) rest j a.1 (omega (arith, a.0)) in
    ground (arith, later, a.0)

-- From one list of owners to the next: the owner of each part as `R` says, and no other changed.
pub record Moved {κ} (R : Part → Owner → Owner → Type κ) (parts : List Part) (s t : List Owner)
    : Type κ where
  pub elsewhere : (j : ℕ) → part_of parts j ≡ none → get_elem? t j ≡ get_elem? s j
  pub there :
      (j : ℕ) (p : Part)
      → part_of parts j ≡ some p
      → (o : Owner) × (o' : Owner) × (get_elem? s j ≡ some o) × (get_elem? t j ≡ some o') × R p o o'

-- Each part has its owner, of which `P` holds.
abbrev pub Standing {κ} : (Part → Owner → Type κ) → List Part → List Owner → Type κ
Standing P parts s =
    (j : ℕ) (p : Part) → part_of parts j ≡ some p → (o : Owner) × (get_elem? s j ≡ some o) × P p o

module _ {κ} {R : Part → Owner → Owner → Type κ} where
  pub Moved-nil : (s : List Owner) → Moved R [] s s
  unfolding part_of
  Moved-nil s = record { elsewhere = λ j e. refl; there = λ j p e. absurd cc }

  -- The first part has moved, then the others.
  pub Moved-cons :
      (low : ℕ) (part : Part) (rest : List Part) (s t : List Owner) {o : Owner} (o' : Owner)
      → Ascends low (part ∷ rest)
      → get_elem? s part.owner ≡ some o
      → R part o o'
      → Moved R rest (set s part.owner o') t
      → Moved R (part ∷ rest) s t
  unfolding part_of Ascends
  Moved-cons low part rest s t {o} o' a e r m = record {
    elsewhere = λ j none_here.
        m.elsewhere j (ground (arith, none_here))
        ∙ get_elem?-set_elsewhere s part.owner j o' (ground (arith, none_here));
    there = λ j p h. elim (Bool-cases (part.owner == j)) [
      | inl same ↦ first j p (ground (arith, same)) (ground (arith, same, h))
      | inr other ↦
          let (x, x', before, after, moved) = m.there j p (ground (arith, other, h)) in
          (x, x', sym (get_elem?-set_elsewhere s part.owner j o' other) ∙ before, after, moved)
    ];
  }
    where
      nothing : part_of rest part.owner ≡ none
      nothing = part_of-before (suc part.owner) rest part.owner a.1 (omega arith)

      first :
          (j : ℕ) (p : Part)
          → part.owner ≡ j
          → part ≡ p
          → (x : Owner) × (x' : Owner) × (get_elem? s j ≡ some x)
            × (get_elem? t j ≡ some x')
            × R p x x'
      first j p same is =
          subst
            (λ (j : ℕ).
              (x : Owner) × (x' : Owner) × (get_elem? s j ≡ some x)
              × (get_elem? t j ≡ some x')
              × R p x x')
            same
            (
              o,
              o',
              e,
              m.elsewhere part.owner nothing ∙ get_elem?-set_there s part.owner o' e,
              subst (λ (q : Part). R q o o') is r,
            )

-- An owner that answers a message takes the place of the one before.
pub control-Returns {κ} :
    (reserves : ℕ → Bool) {Q : Owner × Response → Type κ} (s : List Owner) (index : ℕ)
    (message : Control) (o : Owner)
    → get_elem? s index ≡ some o
    → o.stopping ≡ false
    → Returns Q (handle reserves o message)
    → Returns
        (λ r. (o' : Owner) × (r.0 ≡ set s index o') × Q (o', r.1))
        (control reserves s index message)
unfolding control
control-Returns reserves s index message o e go h =
    rw e (
      Returns-branch o.stopping (λ b. absurd cc) λ b. Returns-then h λ r q. returned (r.0, refl, q))

module _ {κ} {P : Part → Owner → Type κ} where
  pub Standing-later :
      (low : ℕ) (part : Part) (rest : List Part) (s : List Owner) (o' : Owner)
      → Ascends low (part ∷ rest)
      → Standing P (part ∷ rest) s
      → Standing P rest (set s part.owner o')
  unfolding Ascends part_of
  Standing-later low part rest s o' a st j p h = elim (Bool-cases (part.owner == j)) [
    | inl same ↦
        let none_here = part_of-before (suc part.owner) rest j a.1 (ground (arith, same)) in
        absurd (ground (arith, h, none_here))
    | inr other ↦
        let (o, e, x) = st j p (ground (arith, other, h)) in
        (o, get_elem?-set_elsewhere s part.owner j o' other ∙ e, x)
  ]

  pub first_owner :
      (part : Part) (rest : List Part) (s : List Owner)
      → Standing P (part ∷ rest) s
      → (o : Owner) × (get_elem? s part.owner ≡ some o) × P part o
  unfolding part_of
  first_owner part rest s st = st part.owner part (ground arith)

module _ {κ κ'} (reserves : ℕ → Bool) (P : Part → Owner → Type κ)
    (R : Part → Owner → Owner → Type κ') where
  -- A round of the same message to the owner of each part.
  pub send_all-Moved :
      (message : Control)
      → ((p : Part) (o : Owner)
          → P p o
          → (o.stopping ≡ false) × Returns (λ r. R p o r.0) (handle reserves o message))
      → (low : ℕ) (parts : List Part) (s : List Owner) → Ascends low parts
      → Standing P parts s
      → Returns (Moved R parts s) (send_all reserves s parts message)
  unfolding send_all Ascends
  send_all-Moved message answers low [] s a st = returned (Moved-nil s)
  send_all-Moved message answers low (part ∷ rest) s a st =
      let (o, e, x) = first_owner part rest s st in
      let (go, h) = answers part o x in
      Returns-then (control-Returns reserves {Q = λ r. R part o r.0} s part.owner message o e go h)
        λ r (o', same, moved). rw same (
          Returns-weaken
            (send_all-Moved message answers (suc part.owner) rest (set s part.owner o') a.1
              (Standing-later low part rest s o' a st))
            λ t m. Moved-cons low part rest s t o' a e moved m)

pub part_of-owner : (parts : List Part) (j : ℕ) (p : Part) → part_of parts j ≡ some p → p.owner ≡ j
unfolding part_of
part_of-owner [] j p e = cc
part_of-owner (part ∷ rest) j p e = elim (Bool-cases (part.owner == j)) [
  | inl same ↦
      let is : part ≡ p = ground (arith, same, e) in
      subst (λ (q : Part). q.owner ≡ j) is (ground (arith, same))
  | inr other ↦ part_of-owner rest j p (ground (arith, other, e))
]

module _ {κ κ'} {P : Part → Owner → Type κ} {R : Part → Owner → Owner → Type κ'} where
  -- Nothing has moved.
  pub Moved-still :
      (parts : List Part) (s : List Owner)
      → Standing P parts s
      → ((p : Part) (o : Owner) → P p o → R p o o)
      → Moved R parts s s
  Moved-still parts s st f = record {
    elsewhere = λ j e. refl;
    there = λ j p e. let (o, before, x) = st j p e in (o, o, before, before, f p o x);
  }

  pub Moved-Standing :
      (parts : List Part) (s t : List Owner)
      → Moved R parts s t
      → ((p : Part) (o o' : Owner) → R p o o' → P p o')
      → Standing P parts t
  Moved-Standing parts s t m f j p e =
      let (o, o', before, after, moved) = m.there j p e in (o', after, f p o o' moved)

module _ {κ κ' κ''} {R : Part → Owner → Owner → Type κ} {R' : Part → Owner → Owner → Type κ'}
    {R'' : Part → Owner → Owner → Type κ''} where
  -- One phase after another, where the second knows of the owners before the first.
  pub Moved-then :
      (parts : List Part) (s t u : List Owner)
      → Moved R parts s t
      → Moved R' parts t u
      → ((p : Part) (o o' : Owner)
          → R' p o o'
          → (x : Owner) × (get_elem? s p.owner ≡ some x) × R'' p x o')
      → Moved R'' parts s u
  Moved-then parts s t u m m' f = record {
    elsewhere = λ j e. m'.elsewhere j e ∙ m.elsewhere j e;
    there = λ j p e.
        let (o, o', before, after, moved) = m'.there j p e in
        let (x, first, done) = f p o o' moved in
        (x, o', ap (get_elem? s) (sym (part_of-owner parts j p e)) ∙ first, after, done);
  }

pub part_of-owned :
    (n : ℕ) (parts : List Part) (j : ℕ) (p : Part)
    → Every (λ p. p.owner < n) parts
    → part_of parts j ≡ some p
    → j < n
unfolding part_of Every
part_of-owned n [] j p owned e = cc
part_of-owned n (part ∷ rest) j p owned e = elim (Bool-cases (part.owner == j)) [
  | inl same ↦ ground (arith, same, owned.0)
  | inr other ↦ part_of-owned n rest j p owned.1 (ground (arith, other, e))
]

pub get_elem?-some {ℓ} :
    {A : Type ℓ} (xs : List A) (i : ℕ) → i < length xs → (x : A) × (get_elem? xs i ≡ some x)
get_elem?-some [] i h = absurd (omega arith)
get_elem?-some (x ∷ xs) zero h = (x, refl)
get_elem?-some (x ∷ xs) (suc i) h = get_elem?-some xs i (omega arith)
