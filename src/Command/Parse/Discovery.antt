-- ===== src/Command/Parse/Discovery.antt =====
-- What `COMMAND INFO` says of a name against what the parser does with it.
use mathlib.Core.Path.{subst}
use recall.Prelude.{
  ◌≡◌, refl, ◌⊎◌, inl, inr, List, [], ◌∷◌, Bytes, none, codes, length, if◌then◌else◌, Option-cases,
  ap, Bool, Bool-cases, ℕ, zero, suc, some, true, false, get_elem?, arith, ◌≤◌, ◌<◌, ◌∙◌,
}
use recall.Prelude.Int.{ℤ, pos, negsuc}
use recall.Run.{Run, err, ◌>>=◌}
use recall.Protocol.{Reply, bulk, array, replies, integer, simple, nil, cons}
use recall.Command.Specs.{
  CommandSpec, find_spec, specs, wrong_arity, spec_reply, is_nought, info_reply, text, info_of,
  metadata, eq_ignore_ascii_case,
}
use recall.Command.Options.{ParseLimits, Command}
use recall.Command.Parse.{parse, parse_named, within_limits, wrong_number}

-- The reply to `COMMAND INFO` on one name.
abbrev pub discovery : Bytes → Reply
discovery name = metadata (info_of (name ∷ []))

-- The name of the entry, in any case of its letters.
abbrev names : CommandSpec → Bytes → Bool
names s name = eq_ignore_ascii_case name (text s.name)

-- What a description says of the access to keys, by the place of the first: nothing where there is
-- none, and otherwise whether the command writes.
abbrev pub access : ℤ → Bool → Reply
access (pos zero) write = array (replies [])
access (pos (suc n)) true = array (replies (simple (codes "write") ∷ []))
access (pos (suc n)) false = array (replies (simple (codes "readonly") ∷ []))
access (negsuc n) true = array (replies (simple (codes "write") ∷ []))
access (negsuc n) false = array (replies (simple (codes "readonly") ∷ []))

-- What a description of an entry says: its name, its arity, the access and the places of its keys.
unfoldable pub description : CommandSpec → Reply
unfolding text
description s = array (
    replies (
      bulk (some (text s.name))
      ∷ integer s.arity
      ∷ access s.first_key s.write
      ∷ integer s.first_key
      ∷ integer s.last_key
      ∷ integer s.key_step
      ∷ []))

-- The number of arguments, the name included, that an arity stands for: exactly so many where it is
-- positive, and so many at least where it is negative.
unfoldable pub IsCount : ℤ → ℕ → Type 0
IsCount (pos n) count = (0 < n) → (count ≡ n)
IsCount (negsuc n) count = suc n ≤ count

-- No entry of the table has the name, and it is unknown to both.
pub record IsUnknown (limits : ParseLimits) (name : Bytes) (rest : List Bytes) : Type 0 where
  pub absent : (i : ℕ) (s : CommandSpec) → get_elem? specs i ≡ some s → names s name ≡ false
  pub hidden : discovery name ≡ array (replies (bulk none ∷ []))
  pub refused : parse (name ∷ rest) limits ≡ err (codes "ERR unknown command")

-- Both go by one entry of the table, which has the name.
pub record IsKnown (limits : ParseLimits) (name : Bytes) (rest : List Bytes) : Type 0 where
  pub entry : CommandSpec
  pub listed : (i : ℕ) × (get_elem? specs i ≡ some entry)
  pub named : names entry name ≡ true
  pub described : discovery name ≡ array (replies (description entry ∷ []))
  pub too_few :
      (n : ℕ)
      → entry.arity ≡ negsuc n
      → length (name ∷ rest) ≤ n
      → parse (name ∷ rest) limits ≡ err (wrong_number entry.name)
  pub not_exact :
      (n : ℕ)
      → entry.arity ≡ pos (suc n)
      → ¬ (length (name ∷ rest) ≡ suc n)
      → parse (name ∷ rest) limits ≡ err (wrong_number entry.name)
  pub counted :
      IsCount entry.arity (length (name ∷ rest))
      → parse (name ∷ rest) limits
        ≡ (parse_named entry.name (name ∷ rest) limits >>= within_limits limits)

-- The entry that is found is in the table and has the name.
find_spec-found :
    (table : List CommandSpec) (name : Bytes) (s : CommandSpec)
    → find_spec table name ≡ some s
    → ((i : ℕ) × (get_elem? table i ≡ some s)) × (names s name ≡ true)
unfolding find_spec
find_spec-found [] name s e = cc
find_spec-found (t ∷ table) name s e = elim (Bool-cases (names t name)) [
  | inl same ↦
      let first : t ≡ s = ground (arith, e, same) in
      ((0, ap some first), subst (λ z. names z name ≡ true) first same)
  | inr other ↦
      let ((i, at), same) = find_spec-found table name s (ground (arith, e, other)) in
      ((suc i, at), same)
]

-- Where none is found, no entry has the name.
find_spec-absent :
    (table : List CommandSpec) (name : Bytes)
    → find_spec table name ≡ none
    → (i : ℕ) (s : CommandSpec) → get_elem? table i ≡ some s
    → names s name ≡ false
unfolding find_spec
find_spec-absent [] name e i s at = cc
find_spec-absent (t ∷ table) name e zero s at =
    let first : t ≡ s = cc at in
    subst (λ z. names z name ≡ false) first
      (elim (Bool-cases (names t name)) [
        | inl same ↦ absurd (ground (arith, e, same))
        | inr other ↦ other
      ])
find_spec-absent (t ∷ table) name e (suc i) s at = elim (Bool-cases (names t name)) [
  | inl same ↦ absurd (ground (arith, e, same))
  | inr other ↦ find_spec-absent table name (ground (arith, e, other)) i s at
]

module _ (limits : ParseLimits) (name : Bytes) (rest : List Bytes) (s : CommandSpec) where
  abbrev counts : ℕ
  counts = length (name ∷ rest)

  -- How the parser goes on with an entry.
  abbrev judged : Bool → Run Command
  judged wrong =
      if wrong
      then err (wrong_number s.name)
      else parse_named s.name (name ∷ rest) limits >>= within_limits limits

  is_some : (n : ℕ) → is_nought (pos (suc n)) ≡ false
  is_some n = ground arith

  flags-access :
      (a : ℤ) (b : Bool)
      → array (
          if is_nought a
          then nil
          else cons (simple (if b then codes "write" else codes "readonly")) nil)
        ≡ access a b
  flags-access (pos zero) b = refl
  flags-access (pos (suc n)) true = rw (is_some n) refl
  flags-access (pos (suc n)) false = rw (is_some n) refl
  flags-access (negsuc n) true = refl
  flags-access (negsuc n) false = refl

  is_description : spec_reply s ≡ description s
  unfolding spec_reply description
  is_description =
      ap
        (λ f. array (
          replies (
            bulk (some (text s.name))
            ∷ integer s.arity
            ∷ f
            ∷ integer s.first_key
            ∷ integer s.last_key
            ∷ integer s.key_step
            ∷ [])))
        (flags-access s.first_key s.write)

  wrong_few : (n : ℕ) → s.arity ≡ negsuc n → counts ≤ n → wrong_arity s.arity counts ≡ true
  unfolding wrong_arity
  wrong_few n e few = rw e (ground (arith, few))

  wrong_many :
      (n : ℕ) → s.arity ≡ pos (suc n) → ¬ (counts ≡ suc n) → wrong_arity s.arity counts ≡ true
  unfolding wrong_arity
  wrong_many n e other = rw e (ground (arith, other))

  right : (a : ℤ) → IsCount a counts → wrong_arity a counts ≡ false
  unfolding wrong_arity IsCount
  right (pos n) h = ground (arith, h)
  right (negsuc n) h = ground (arith, h)

-- Discovery and the parser agree on each name. Either no entry of the table has it in any case of
-- its letters, `COMMAND INFO` answers null for it and the parser calls it unknown, whatever follows.
-- Or an entry of the table has it, and `COMMAND INFO` describes that entry: its name, its arity,
-- whether it writes where it has a key, and the places of its keys. The parser then refuses the
-- request where it has fewer parts than a negative arity says, or another number than a positive
-- one, and else goes on by the name of that entry.
pub discovery_agrees :
    (limits : ParseLimits) (name : Bytes) (rest : List Bytes)
    → IsUnknown limits name rest ⊎ IsKnown limits name rest
unfolding parse metadata info_reply
discovery_agrees limits name rest = elim (Option-cases (find_spec specs name)) [
  | inl absent ↦
      let shown : info_reply name ≡ bulk none = rw (absent, info_reply) refl in
      inl (record {
        absent = find_spec-absent specs name absent;
        hidden = ap (λ r. array (replies (r ∷ []))) shown;
        refused = rw (absent, parse) refl;
      })
  | inr (s, found) ↦
      let shown : info_reply name ≡ description s =
        rw (found, info_reply) (is_description limits name rest s) in
      let parsed : parse (name ∷ rest) limits
          ≡ judged limits name rest s (wrong_arity s.arity (length (name ∷ rest))) =
        rw (found, parse) refl in
      inr (record {
        entry = s;
        listed = (find_spec-found specs name s found).0;
        named = (find_spec-found specs name s found).1;
        described = ap (λ r. array (replies (r ∷ []))) shown;
        too_few = λ n e few.
            parsed ∙ ap (judged limits name rest s) (wrong_few limits name rest s n e few);
        not_exact = λ n e other.
            parsed ∙ ap (judged limits name rest s) (wrong_many limits name rest s n e other);
        counted = λ h. parsed ∙ ap (judged limits name rest s) (right limits name rest s s.arity h);
      })
]
