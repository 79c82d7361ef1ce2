-- ===== src/Settings/Merged.antt =====
-- The sources of the settings laid over each other: which value of a key stands.

use recall.Prelude.{
  ◌≡◌, refl, sym, ◌∙◌, ap, Option, none, some, [], ◌∷◌, Bytes, bytes_eq, bytes_Eq, bytes_eq_iff,
  Bool-cases, inl, inr,
}
use recall.Map.{get, insert, Distinct}
use recall.Map.Laws.{get-insert, insert-Distinct}
use recall.Settings.{Values, extend}

-- The first of two values that is there.
abbrev pub first_of : Option Bytes → Option Bytes → Option Bytes
first_of (some v) later = some v
first_of none later = later

get-extend :
    (key : Bytes) (a b : Values)
    → Distinct b
    → get key (extend a b) ≡ first_of (get key b) (get key a)
unfolding extend get
get-extend key a [] d = refl
get-extend key a ((k, v) ∷ rest) d =
    let ih = get-extend key (insert k v a) rest d.1 in
    let wrote = get-insert k key v a in
    elim (Bool-cases (bytes_eq k key)) [
      | inl same ↦
          let is : k ≡ key = (bytes_eq_iff k key).0 same in
          let absent : get key rest ≡ none = ap (λ j. get j rest) (sym is) ∙ d.0 in
          ih ∙ rw (wrote, absent, same) refl
      | inr other ↦ ih ∙ rw (wrote, other) refl
    ]

-- Of the three sources, the arguments come before the process and the process before the file: the
-- value of a setting is that of the first of them that has it, where no source names a key twice.
pub extend-precedence :
    (key : Bytes) (file process arguments : Values)
    → Distinct process
    → Distinct arguments
    → get key (extend (extend file process) arguments)
      ≡ first_of (get key arguments) (first_of (get key process) (get key file))
extend-precedence key file process arguments p a =
    get-extend key (extend file process) arguments a
    ∙ ap (first_of (get key arguments)) (get-extend key file process p)

pub extend-Distinct : (a b : Values) → Distinct a → Distinct (extend a b)
unfolding extend
extend-Distinct a [] d = d
extend-Distinct a ((k, v) ∷ rest) d = extend-Distinct (insert k v a) rest (insert-Distinct k v a d)
