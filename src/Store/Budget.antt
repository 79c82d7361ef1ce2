-- ===== src/Store/Budget.antt =====
-- The accounting of `preflight`: the two sums of its loop are the number of keys and the payload of
-- the table with the effects put in.
use recall.Prelude.{
  ℕ, ◌+◌, ◌-◌, ◌≤◌, ◌≡◌, ◌≢◌, refl, ◌∙◌, ap, Option, none, some, [], ◌∷◌, Bytes, bytes_eq_iff,
  bytes_Eq, arith, length,
}
use recall.Prelude.Int.{pos, ◌+ℤ◌, ◌-ℤ◌, pos_part, neg_part}
use recall.Map.{Map, get, Distinct, total, weight_at}
use recall.Store.{Entry, Effects}
use recall.Store.Prepare.{budget_loop, plus_if, minus_if}
use recall.Store.Apply.{apply_entry}
use recall.Store.Valid.{
  weight, apply_entries, get-apply_entry, apply_entry-Distinct, total-apply_entry,
}

pos-+ℤ : (a b : ℕ) → pos a +ℤ pos b ≡ pos (a + b)
unfolding ◌+ℤ◌ pos_part neg_part
pos-+ℤ a b = ground arith

pos--ℤ : (a b : ℕ) → b ≤ a → pos a -ℤ pos b ≡ pos (a - b)
unfolding ◌-ℤ◌ pos_part neg_part
pos--ℤ a b h = ground arith

abbrev pub one : Bytes → Entry → ℕ
one key entry = 1

pub length-total : (m : Map Bytes Entry) → length m ≡ total one m
unfolding total
length-total [] = refl
length-total ((k, v) ∷ m) = omega (arith, length-total m)

-- One effect in signed numbers: what leaves is subtracted, what comes is added.
signed_step :
    (w : Bytes → Entry → ℕ) (k : Bytes) (old next : Option Entry) (before after : ℕ)
    → after + weight_at w k old ≡ before + weight_at w k next
    → weight_at w k old ≤ before
    → plus_if (minus_if (pos before) old (w k)) next (w k) ≡ pos after
unfolding plus_if minus_if
signed_step w k none none before after h q = ap pos (omega arith)
signed_step w k none (some n) before after h q = pos-+ℤ before (w k n) ∙ ap pos (omega arith)
signed_step w k (some o) none before after h q = pos--ℤ before (w k o) q ∙ ap pos (omega arith)
signed_step w k (some o) (some n) before after h q =
    rw (pos--ℤ before (w k o) q, pos-+ℤ) (ap pos (omega arith))

pub total-ge :
    (w : Bytes → Entry → ℕ) (k : Bytes) (m : Map Bytes Entry)
    → Distinct m
    → weight_at w k (get k m) ≤ total w m
total-ge w k m d = omega (arith, total-apply_entry w m k none d)

-- `m` still has the entries of `m₀` at the keys that the effects name.
abbrev Agrees : Map Bytes Entry → Effects → Map Bytes Entry → Type 0
Agrees m₀ effects m = (j : Bytes) → get j effects ≢ none → get j m ≡ get j m₀

named_head :
    (k : Bytes) (effect : Option Entry) (rest : Effects) → get k ((k, effect) ∷ rest) ≢ none
unfolding get
named_head k effect rest h = ground (arith, bytes_eq_iff k k)

named_tail :
    (k j : Bytes) (effect : Option Entry) (rest : Effects)
    → get j rest ≢ none
    → get j ((k, effect) ∷ rest) ≢ none
unfolding get
named_tail k j effect rest h = ground (arith, h)

budget_loop-total :
    (m₀ : Map Bytes Entry) (effects : Effects) (m : Map Bytes Entry)
    → Distinct effects
    → Distinct m
    → Agrees m₀ effects m
    → budget_loop m₀ effects (pos (total one m)) (pos (total weight m))
      ≡ (pos (total one (apply_entries effects m)), pos (total weight (apply_entries effects m)))
unfolding budget_loop apply_entries
budget_loop-total m₀ [] m d dm h = refl
budget_loop-total m₀ ((k, effect) ∷ rest) m d dm h =
    rw
      (
        ← here,
        signed_step one k (get k m) effect (total one m) (total one (apply_entry m k effect))
            (total-apply_entry one m k effect dm) (total-ge one k m dm),
        signed_step weight k (get k m) effect (total weight m)
            (total weight (apply_entry m k effect)) (total-apply_entry weight m k effect dm)
            (total-ge weight k m dm),
      )
      (budget_loop-total m₀ rest (apply_entry m k effect) d.1 (apply_entry-Distinct m k effect dm)
        later)
  where
    here : get k m ≡ get k m₀
    here = h k (named_head k effect rest)

    later : Agrees m₀ rest (apply_entry m k effect)
    later j there = ground (
      arith,
      get-apply_entry m k j effect,
      d.0,
      there,
      h j (named_tail k j effect rest there),
      bytes_eq_iff k j,
    )

-- The sums that `preflight` compares with the limits.
pub budget_loop-after :
    (m : Map Bytes Entry) (effects : Effects)
    → Distinct effects
    → Distinct m
    → budget_loop m effects (pos (length m)) (pos (total weight m))
      ≡ (pos (length (apply_entries effects m)), pos (total weight (apply_entries effects m)))
budget_loop-after m effects d dm =
    rw (length-total m, length-total (apply_entries effects m))
      (budget_loop-total m effects m d dm λ j h. refl)
