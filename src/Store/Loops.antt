-- ===== src/Store/Loops.antt =====
-- The commands on several keys, against what they promise.
use mathlib.Core.Path.{fun_ext}
use recall.Prelude.{
  ℕ, ◌+◌, ◌≡◌, refl, sym, ◌∙◌, ap, Option, none, some, List, [], ◌∷◌, map, Bytes, bytes_eq,
  bytes_eq_iff, bytes_Eq, arith, if◌then◌else◌, Option-cases, inl, inr,
}
use recall.Prelude.Int.{ℤ}
use recall.Map.{get, insert, Distinct}
use recall.Map.Laws.{get-insert, insert-Distinct}
use recall.Protocol.{Replies, bulk, replies}
use recall.Store.{Entry, Effects, Shard, is_due, observe}
use recall.Store.Prepare.{
  value_of, is_present, delete_loop, exists_loop, multi_get_loop, multi_set_loop,
}
use recall.Store.View.{
  View, live_of, live, write, patched, after, Quiet, Quiet-nil, after-insert, observe-live,
  observe-Distinct, observe-Quiet, observe_cases,
}
use recall.Store.Agrees.{seen_value-value_of}
use recall.Store.Spec.{seen_value, presence, delete_all, count_present, assign_all}

module _ (s : Shard) (now : ℤ) where
  presence_of : (o : Option Entry) → (if is_present o then 1 else 0) ≡ presence o
  presence_of none = refl
  presence_of (some entry) = refl

  -- What the loop of `exists` gives from effects that show nothing.
  pub record Found (v : View) (n : ℕ) (r : ℕ × Effects) : Type 0 where
    pub count : r.0 ≡ n
    pub distinct : Distinct r.1
    pub shown : (j : Bytes) → after s now r.1 j ≡ v j

  pub exists_loop-Found :
      (ks : List Bytes) (n : ℕ) (effects : Effects)
      → Distinct effects
      → Quiet s now effects
      → Found (live s now) (n + count_present ks (live s now)) (exists_loop s now ks n effects)
  unfolding exists_loop count_present
  exists_loop-Found [] n effects d q = record { count = omega arith; distinct = d; shown = q }
  exists_loop-Found (k ∷ ks) n effects d q =
      let o = observe s k now effects in
      let rest =
        exists_loop-Found ks (n + (if is_present o.0 then 1 else 0)) o.1
          (observe-Distinct s now k effects d) (observe-Quiet s now k effects q) in
      record {
        count = ground (arith, rest.count, observe-live s now k effects, presence_of o.0);
        distinct = rest.distinct;
        shown = rest.shown;
      }

  pub record Fetched (v : View) (values : Replies) (r : Replies × Effects) : Type 0 where
    pub reply : r.0 ≡ values
    pub distinct : Distinct r.1
    pub shown : (j : Bytes) → after s now r.1 j ≡ v j

  pub multi_get_loop-Fetched :
      (ks : List Bytes) (effects : Effects)
      → Distinct effects
      → Quiet s now effects
      → Fetched
          (live s now)
          (replies (map (λ k. bulk (seen_value (live s now k))) ks))
          (multi_get_loop s now ks effects)
  unfolding multi_get_loop
  multi_get_loop-Fetched [] effects d q = record { reply = refl; distinct = d; shown = q }
  multi_get_loop-Fetched (k ∷ ks) effects d q =
      let o = observe s k now effects in
      let rest =
        multi_get_loop-Fetched ks o.1 (observe-Distinct s now k effects d)
          (observe-Quiet s now k effects q) in
      record {
        reply = cc (
          rest.reply,
          ap value_of (observe-live s now k effects),
          seen_value-value_of (live s now k),
        );
        distinct = rest.distinct;
        shown = rest.shown;
      }

  -- `multi_set` writes without a look at the table.
  pub multi_set_loop-shown :
      (pairs : List (Bytes × Bytes)) (effects : Effects) (v : View)
      → ((j : Bytes) → after s now effects j ≡ v j)
      → (j : Bytes) → after s now (multi_set_loop pairs effects) j ≡ assign_all pairs v j
  unfolding multi_set_loop assign_all write
  multi_set_loop-shown [] effects v h = h
  multi_set_loop-shown ((k, value) ∷ rest) effects v h =
      let entry : Entry = record { value = value; expires_at_ms = none } in
      multi_set_loop-shown rest (insert k (some entry) effects) (write v k (some entry))
        λ j. ground (arith, after-insert s now k (some entry) effects j, h j, kept entry refl)
    where
      kept : (entry : Entry) → entry.expires_at_ms ≡ none → live_of now (some entry) ≡ some entry
      kept entry e = unfold live_of is_due in rw e

  pub multi_set_loop-Distinct :
      (pairs : List (Bytes × Bytes)) (effects : Effects)
      → Distinct effects
      → Distinct (multi_set_loop pairs effects)
  unfolding multi_set_loop
  multi_set_loop-Distinct [] effects d = d
  multi_set_loop-Distinct ((k, value) ∷ rest) effects d =
      let effect : Option Entry = some (record { value = value; expires_at_ms = none }) in
      multi_set_loop-Distinct rest (insert k effect effects) (insert-Distinct k effect effects d)

  -- The effects of `delete` so far: they only take out, and lead to the view `v`.
  pub record Deleting (v : View) (effects : Effects) : Type 0 where
    pub distinct : Distinct effects
    pub removals : (j : Bytes) (effect : Option Entry) → get j effects ≡ some effect → effect ≡ none
    pub shown : (j : Bytes) → after s now effects j ≡ v j

  delete_again :
      (k : Bytes) (v : View) (effects : Effects) (effect : Option Entry)
      → Deleting v effects
      → get k effects ≡ some effect
      → v k ≡ none
  delete_again k v effects effect h e =
      sym (h.shown k)
      ∙ (unfold after patched live_of in rw e (ground (arith, h.removals k effect e)))

  delete_fresh :
      (k : Bytes) (v : View) (effects : Effects)
      → Deleting v effects
      → get k effects ≡ none
      → live s now k ≡ v k
  delete_fresh k v effects h e = same ∙ h.shown k
    where
      same : live s now k ≡ after s now effects k
      same = unfold after patched live in rw e

  get-removal :
      (k j : Bytes) (effects : Effects)
      → get j (insert k none (observe s k now effects).1)
        ≡ (if bytes_eq k j then some none else get j effects)
  get-removal k j effects = ground (
    arith,
    observe_cases s now k effects,
    get-insert k j none (observe s k now effects).1,
    get-insert k j none effects,
  )

  after-removal :
      (k : Bytes) (v : View) (effects : Effects)
      → ((j : Bytes) → after s now effects j ≡ v j)
      → (j : Bytes) → after s now (insert k none (observe s k now effects).1) j ≡ write v k none j
  unfolding write
  after-removal k v effects h j = ground (
    arith,
    observe_cases s now k effects,
    after-insert s now k none (observe s k now effects).1 j,
    after-insert s now k none effects j,
    h j,
    nothing,
  )
    where
      nothing : live_of now none ≡ none
      nothing = unfold live_of in refl

  delete_step :
      (k : Bytes) (v : View) (effects : Effects)
      → Deleting v effects
      → Deleting (write v k none) (insert k none (observe s k now effects).1)
  delete_step k v effects h =
      let gone : Option Entry = none in
      record {
        distinct =
            insert-Distinct k gone (observe s k now effects).1
              (observe-Distinct s now k effects h.distinct);
        removals = λ j effect e. ground (arith, get-removal k j effects, h.removals j effect);
        shown = after-removal k v effects h.shown;
      }

  -- Writing nothing where nothing is.
  write-none : (k : Bytes) (v : View) → v k ≡ none → write v k none ≡ v
  unfolding write
  write-none k v h = fun_ext λ j. ground (arith, bytes_eq_iff k j, h)

  pub record Deleted (n : ℕ) (w : View) (r : ℕ × Effects) : Type 0 where
    pub count : r.0 ≡ n
    pub end : Deleting w r.1

  pub delete_loop-Deleted :
      (ks : List Bytes) (n : ℕ) (effects : Effects) (v : View)
      → Deleting v effects
      → Deleted (n + (delete_all ks v).0) (delete_all ks v).1 (delete_loop s now ks n effects)
  unfolding delete_loop delete_all
  delete_loop-Deleted [] n effects v h = record { count = omega arith; end = h }
  delete_loop-Deleted (k ∷ ks) n effects v h = elim (Option-cases (get k effects)) [
    | inl fresh ↦
        let o = observe s k now effects in
        let rest =
          delete_loop-Deleted ks (n + (if is_present o.0 then 1 else 0)) (insert k none o.1)
            (write v k none) (delete_step k v effects h) in
        rw (fresh, delete_loop)
          (record {
            count = ground (
              arith,
              rest.count,
              observe-live s now k effects,
              presence_of o.0,
              delete_fresh k v effects h fresh,
            );
            end = rest.end;
          })
    | inr (effect, again) ↦
        let absent = delete_again k v effects effect h again in
        let rest = delete_loop-Deleted ks n effects v h in
        rw (again, delete_loop)
          (rw (write-none k v absent)
            (record { count = ground (arith, rest.count, absent); end = rest.end }))
  ]

  -- Before a command has effects.
  pub Deleting-nil : Deleting (live s now) []
  Deleting-nil = record {
    distinct = tt;
    removals = λ j effect e. unfold get in cc e;
    shown = Quiet-nil s now;
  }
