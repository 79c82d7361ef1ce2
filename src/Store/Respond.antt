-- ===== src/Store/Respond.antt =====
-- The commands on one key, against what they promise.
use recall.Prelude.{
  ◌≡◌, refl, sym, ◌∙◌, not, ap, Bool, true, false, ◌&&◌, Option, none, some, [], Bytes, bytes_Eq,
  arith, if◌then◌else◌, Bool-cases, Option-cases, inl, inr,
}
use recall.Prelude.Int.{ℤ, pos, ◌+ℤ◌, ◌-ℤ◌, leb_ℤ, checked_add, checked_sub, checked_add-later}
use recall.Map.{insert, Distinct}
use recall.Map.Laws.{insert-Distinct}
use recall.Run.{Run, ok, err, ◌>>=◌, or_else, Answers, value, refused}
use recall.Decimal.{int_to_string}
use recall.Protocol.{Reply, integer, bulk, ok_reply}
use recall.Command.Integer.{integer-Answers}
use recall.Command.{Condition, Expiry, clear, keep, after_milliseconds}
use recall.Store.{Entry, Effects, Shard, is_due, observe, failure}
use recall.Store.Prepare.{
  Outcome, value_of, expires_of, respond_get, respond_set, respond_increment, respond_expire,
  respond_ttl, respond_persist, deadline_for, deadline_after, is_blocked, is_i64_min, current_of,
  ttl_of,
}
use recall.Store.View.{
  live_of, live, write, after, Quiet, Quiet-nil, after-insert, observe-live, observe-Distinct,
  observe-Quiet,
}
use recall.Store.Agrees.{
  seen_value-value_of, seen_deadline-expires_of, may_assign-is_blocked, counter-current_of,
  is_lowest-is_i64_min, as_i64-step, as_i64-checked_add, new_deadline-deadline_for,
  time_left-ttl_of,
}
use recall.Store.Spec.{
  seen_value, time_left, as_i64, Answer, assign, count_up, retime, keep_forever,
}

-- A preparation gives the reply that is promised, and effects that lead to the entries that are
-- promised; or both fail, with one message.
abbrev pub Matches : Shard → ℤ → Outcome → Answer → Type 0
Matches s now (ok o) (ok a) = (o.0 ≡ a.0) × Distinct o.1 × ((j : Bytes) → after s now o.1 j ≡ a.1 j)
Matches s now (err e) (err e') = e ≡ e'
Matches s now _ _ = ⊥

is_due-later : (now d : ℤ) → leb_ℤ d now ≡ false → is_due (some d) now ≡ false
unfolding is_due
is_due-later now d h = h

is_due-none : (now : ℤ) → is_due none now ≡ false
unfolding is_due
is_due-none now = refl

module _ (s : Shard) (now : ℤ) (k : Bytes) where
  abbrev seen : Effects
  seen = (observe s k now []).1

  seen-Distinct : Distinct seen
  seen-Distinct = observe-Distinct s now k [] tt

  seen-Quiet : Quiet s now seen
  seen-Quiet = observe-Quiet s now k [] (Quiet-nil s now)

  live-current :
      (entry : Entry) → live s now k ≡ some entry → is_due entry.expires_at_ms now ≡ false
  unfolding live live_of
  live-current entry h = ground arith

  pub get_Matches :
      Matches s now (respond_get s k now []) (ok (bulk (seen_value (live s now k)), live s now))
  unfolding respond_get
  get_Matches = (
    ap (λ o. bulk (value_of o)) (observe-live s now k [])
        ∙ ap bulk (sym (seen_value-value_of (live s now k))),
    seen-Distinct,
    seen-Quiet,
  )

  -- One write over what was seen.
  wrote :
      (effect : Option Entry)
      → live_of now effect ≡ effect
      → (j : Bytes) → after s now (insert k effect seen) j ≡ write (live s now) k effect j
  unfolding write
  wrote effect h j = ground (arith, after-insert s now k effect seen j, seen-Quiet j, h)

  wrote_entry :
      (entry : Entry)
      → is_due entry.expires_at_ms now ≡ false
      → (j : Bytes)
      → after s now (insert k (some entry) seen) j ≡ write (live s now) k (some entry) j
  wrote_entry entry h = wrote (some entry) (unfold live_of in rw h)

  insert-seen : (effect : Option Entry) → Distinct (insert k effect seen)
  insert-seen effect = insert-Distinct k effect seen seen-Distinct

  expires_current : is_due (expires_of (live s now k)) now ≡ false
  expires_current = elim (Option-cases (live s now k)) [
    | inl absent ↦ rw absent (is_due-none now)
    | inr (entry, there) ↦ rw there (live-current entry there)
  ]

  pub ttl_Matches :
      (ms : Bool)
      → Matches s now
          (respond_ttl s k ms now [])
          (ok (integer (time_left (live s now k) now ms), live s now))
  unfolding respond_ttl
  ttl_Matches ms = (
    ap (λ o. integer (ttl_of o now ms)) (observe-live s now k [])
        ∙ ap integer (sym (time_left-ttl_of (live s now k) now ms expires_current)),
    seen-Distinct,
    seen-Quiet,
  )

  -- A deadline that an assignment sets is ahead.
  deadline_for-later :
      (expiry : Expiry)
      → Answers (λ d. is_due d now ≡ false) (deadline_for (live s now k) now expiry)
  unfolding deadline_for
  deadline_for-later clear = value (is_due-none now)
  deadline_for-later keep = value expires_current
  deadline_for-later (after_milliseconds duration) =
      elim (Option-cases (deadline_after now duration)) [
        | inl overflow ↦ rw overflow (refused _)
        | inr (d, sum) ↦
            rw sum
              (value (ground (arith, sum, is_due-later now d, checked_add-later now duration d)))
      ]

  module _ (v : Bytes) where
    abbrev entry_with : Option ℤ → Entry
    entry_with deadline = record { value = v; expires_at_ms = deadline }

    unless_blocked :
        (b : Bool) (d : Option ℤ)
        → is_due d now ≡ false
        → Matches s now
            (if b then ok (bulk none, seen) else ok (ok_reply, insert k (some (entry_with d)) seen))
            (if not b
              then ok (ok_reply, write (live s now) k (some (entry_with d)))
              else ok (bulk none, live s now))
    unless_blocked true d h = (refl, seen-Distinct, seen-Quiet)
    unless_blocked false d h =
        (refl, insert-seen (some (entry_with d)), wrote_entry (entry_with d) h)

    set_from :
        (b : Bool) {r : Run (Option ℤ)}
        → Answers (λ d. is_due d now ≡ false) r
        → Matches s now
            (r >>= λ d.
              if b
              then ok (bulk none, seen)
              else ok (ok_reply, insert k (some (entry_with d)) seen))
            (r >>= λ d.
              if not b
              then ok (ok_reply, write (live s now) k (some (entry_with d)))
              else ok (bulk none, live s now))
    set_from b (value {v = d} h) = unless_blocked b d h
    set_from b (refused e) = refl

    pub set_Matches :
        (condition : Condition) (expiry : Expiry)
        → Matches s now
            (respond_set s k v condition expiry now [])
            (assign k v condition expiry now (live s now))
    unfolding respond_set assign
    set_Matches condition expiry =
        rw
          (
            observe-live,
            new_deadline-deadline_for (live s now k) now expiry,
            may_assign-is_blocked condition (live s now k),
          )
          (set_from (is_blocked condition (live s now k)) (deadline_for-later expiry))

  -- One entry written, if the sum that it holds or expires at is in range.
  write_from :
      (o : Option ℤ) (message : Bytes) (reply : ℤ → Reply) (entry : ℤ → Entry)
      → ((n : ℤ) → o ≡ some n → is_due (entry n).expires_at_ms now ≡ false)
      → Matches s now
          (or_else o (err message) >>= λ n. ok (reply n, insert k (some (entry n)) seen))
          (or_else o (err message) >>= λ n. ok (reply n, write (live s now) k (some (entry n))))
  write_from none message reply entry h = refl
  write_from (some n) message reply entry h =
      (refl, insert-seen (some (entry n)), wrote_entry (entry n) (h n refl))

  current_of-Answers : (o : Option Entry) → Answers (λ n. Unit {0}) (current_of o)
  current_of-Answers none = value tt
  current_of-Answers (some entry) = integer-Answers entry.value

  module _ (amount : ℤ) (subtract : Bool) where
    abbrev stepped : ℤ → Option ℤ
    stepped n = if subtract then checked_sub n amount else checked_add n amount

    abbrev counted : ℤ → Entry
    counted n = record { value = int_to_string n; expires_at_ms = expires_of (live s now k) }

    increment_from :
        (message : Bytes) {r : Run ℤ}
        → Answers (λ n. Unit {0}) r
        → Matches s now
            (r >>= λ n. or_else (stepped n) (err message) >>= λ next.
              ok (integer next, insert k (some (counted next)) seen))
            (r >>= λ n.
              or_else (as_i64 (if subtract then n -ℤ amount else n +ℤ amount)) (err message)
              >>= λ next. ok (integer next, write (live s now) k (some (counted next))))
    increment_from message (value {v = n} h) =
        rw (as_i64-step subtract n amount)
          (write_from (stepped n) message integer counted λ next sum. expires_current)
    increment_from message (refused e) = refl

    pub increment_Matches :
        Matches s now
          (respond_increment s k amount subtract now [])
          (count_up k amount subtract (live s now))
    unfolding respond_increment count_up
    increment_Matches = elim (Bool-cases (subtract && is_i64_min amount)) [
      | inl lowest ↦ rw (is_lowest-is_i64_min amount, lowest) refl
      | inr other ↦
          rw
            (
              is_lowest-is_i64_min amount,
              other,
              observe-live,
              counter-current_of (live s now k),
              seen_deadline-expires_of (live s now k),
            )
            (increment_from _ (current_of-Answers (live s now k)))
    ]

  retime_from :
      (o : Option Entry) (ms : ℤ)
      → Matches s now
          (elim o [
            | none ↦ ok (integer (pos 0), seen)
            | some old ↦
                if leb_ℤ ms (pos 0)
                then ok (integer (pos 1), insert k none seen)
                else (or_else
                      (checked_add now ms)
                      (err (failure "ERR invalid expire time in 'expire' command"))
                    >>= λ deadline. ok (
                      integer (pos 1),
                      insert k (some (record old { expires_at_ms = some deadline })) seen,
                    ))
          ])
          (elim o [
            | none ↦ ok (integer (pos 0), live s now)
            | some old ↦
                if leb_ℤ ms (pos 0)
                then ok (integer (pos 1), write (live s now) k none)
                else (or_else
                      (as_i64 (now +ℤ ms))
                      (err (failure "ERR invalid expire time in 'expire' command"))
                    >>= λ deadline. ok (
                      integer (pos 1),
                      write (live s now) k (some (record old { expires_at_ms = some deadline })),
                    ))
          ])
  retime_from none ms = (refl, seen-Distinct, seen-Quiet)
  retime_from (some old) ms = elim (Bool-cases (leb_ℤ ms (pos 0))) [
    | inl past ↦ rw past (refl, insert-seen none, wrote none (unfold live_of in refl))
    | inr ahead ↦
        rw (ahead, as_i64-checked_add now ms)
          (write_from (checked_add now ms) _ (λ d. integer (pos 1))
            (λ d. record old { expires_at_ms = some d })
            λ d sum. is_due-later now d (checked_add-later now ms d sum (ground (arith, ahead))))
  ]

  pub expire_Matches :
      (ms : ℤ) → Matches s now (respond_expire s k ms now []) (retime k ms now (live s now))
  unfolding respond_expire retime
  expire_Matches ms = rw (observe-live s now k [], respond_expire) (retime_from (live s now k) ms)

  persist_from :
      (o : Option Entry)
      → Matches s now
          (elim o [
            | none ↦ ok (integer (pos 0), seen)
            | some old ↦ elim old.expires_at_ms [
              | none ↦ ok (integer (pos 0), seen)
              | some deadline ↦
                  ok (integer (pos 1), insert k (some (record old { expires_at_ms = none })) seen)
            ]
          ])
          (elim o [
            | none ↦ ok (integer (pos 0), live s now)
            | some old ↦ elim old.expires_at_ms [
              | none ↦ ok (integer (pos 0), live s now)
              | some deadline ↦ ok (
                integer (pos 1),
                write (live s now) k (some (record old { expires_at_ms = none })),
              )
            ]
          ])
  persist_from none = (refl, seen-Distinct, seen-Quiet)
  persist_from (some old) = by_deadline old.expires_at_ms
    where
      by_deadline :
          (o : Option ℤ)
          → Matches s now
              (elim o [
                | none ↦ ok (integer (pos 0), seen)
                | some deadline ↦
                    ok (integer (pos 1), insert k (some (record old { expires_at_ms = none })) seen)
              ])
              (elim o [
                | none ↦ ok (integer (pos 0), live s now)
                | some deadline ↦ ok (
                  integer (pos 1),
                  write (live s now) k (some (record old { expires_at_ms = none })),
                )
              ])
      by_deadline none = (refl, seen-Distinct, seen-Quiet)
      by_deadline (some d) = (
        refl,
        insert-seen (some (record old { expires_at_ms = none })),
        wrote_entry (record old { expires_at_ms = none }) (is_due-none now),
      )

  pub persist_Matches : Matches s now (respond_persist s k now []) (keep_forever k (live s now))
  unfolding respond_persist keep_forever
  persist_Matches = rw (observe-live s now k [], respond_persist) (persist_from (live s now k))
