-- ===== src/Store/View.antt =====
-- What a client can see of a shard at a time: the entries that are not overdue. The effects of a
-- command that is being prepared are laid over the table.
use recall.Prelude.{
  ◌≡◌, refl, Option, none, some, [], ◌∷◌, Bytes, bytes_eq, bytes_eq_iff, bytes_Eq, arith,
  if◌then◌else◌, Bool-cases, Option-cases, inl, inr, ◌⊎◌,
}
use recall.Prelude.Int.{ℤ}
use recall.Map.{Map, get, insert, Distinct}
use recall.Map.Laws.{get-insert, insert-Distinct}
use recall.Store.{Entry, Effects, Shard, is_due, observe}
use recall.Store.Apply.{apply_entry}
use recall.Store.Valid.{apply_entries, get-apply_entry}

-- The entry that a key has, if any.
abbrev pub View : Type 0
View = Bytes → Option Entry

unfoldable pub live_of : ℤ → Option Entry → Option Entry
live_of now none = none
live_of now (some entry) = if is_due entry.expires_at_ms now then none else some entry

unfoldable pub live : Shard → ℤ → View
live s now k = live_of now (get k s.entries)

unfoldable pub write : View → Bytes → Option Entry → View
write v k o j = if bytes_eq k j then o else v j

abbrev pub or_table : Option (Option Entry) → Option Entry → Option Entry
or_table none old = old
or_table (some effect) old = effect

-- The table under the effects.
unfoldable pub patched : Effects → Map Bytes Entry → View
patched effects m k = or_table (get k effects) (get k m)

-- What can be seen once the effects are applied.
unfoldable pub after : Shard → ℤ → Effects → View
after s now effects k = live_of now (patched effects s.entries k)

-- The effects change nothing that can be seen.
abbrev pub Quiet : Shard → ℤ → Effects → Type 0
Quiet s now effects = (j : Bytes) → after s now effects j ≡ live s now j

pub get-apply_entries :
    (effects : Effects) (m : Map Bytes Entry) (j : Bytes)
    → Distinct effects
    → get j (apply_entries effects m) ≡ patched effects m j
unfolding apply_entries patched get
get-apply_entries [] m j d = refl
get-apply_entries ((k, effect) ∷ rest) m j d = ground (
  arith,
  get-apply_entries rest (apply_entry m k effect) j d.1,
  get-apply_entry m k j effect,
  d.0,
  bytes_eq_iff k j,
)

module _ (s : Shard) (now : ℤ) where
  pub Quiet-nil : Quiet s now []
  unfolding after patched live get
  Quiet-nil j = refl

  pub after-insert :
      (k : Bytes) (effect : Option Entry) (effects : Effects) (j : Bytes)
      → after s now (insert k effect effects) j
        ≡ (if bytes_eq k j then live_of now effect else after s now effects j)
  unfolding after patched
  after-insert k effect effects j = ground (arith, get-insert k j effect effects)

  module _ (k : Bytes) (effects : Effects) where
    pub observe-live : (observe s k now effects).0 ≡ live s now k
    unfolding observe live live_of
    observe-live = ground arith

    pub observe-Distinct : Distinct effects → Distinct (observe s k now effects).1
    unfolding observe
    observe-Distinct d =
        let gone : Option Entry = none in
        let marked : Distinct (insert k gone effects) = insert-Distinct k gone effects d in
        elim (Option-cases (get k s.entries)) [
          | inl absent ↦ rw (absent, observe) d
          | inr (entry, there) ↦ elim (Bool-cases (is_due entry.expires_at_ms now)) [
            | inl overdue ↦ rw (there, observe) (rw overdue marked)
            | inr current ↦ rw (there, observe) (rw current d)
          ]
        ]

    pub observe-Quiet : Quiet s now effects → Quiet s now (observe s k now effects).1
    unfolding observe live_of
    observe-Quiet q j =
        ground (arith, q j, after-insert k none effects j, bytes_eq_iff k j, overdue)
      where
        overdue : live s now j ≡ live_of now (get j s.entries)
        overdue = unfold live in refl

    -- `observe` adds at most a removal of the key.
    pub observe_cases :
        ((observe s k now effects).1 ≡ effects)
        ⊎ ((observe s k now effects).1 ≡ insert k none effects)
    unfolding observe
    observe_cases = elim (Option-cases (get k s.entries)) [
      | inl absent ↦ rw (absent, observe) (inl refl)
      | inr (entry, there) ↦ elim (Bool-cases (is_due entry.expires_at_ms now)) [
        | inl overdue ↦ rw (there, observe) (rw overdue (inr refl))
        | inr current ↦ rw (there, observe) (rw current (inl refl))
      ]
    ]
