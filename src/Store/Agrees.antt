-- ===== src/Store/Agrees.antt =====
-- The steps that `prepare` of crates/recall-store takes by its own tests and `i64` operations, against
-- what the promise of the operations says of them.
use recall.Prelude.{
  ℕ, zero, suc, ◌+◌, ◌-◌, ◌/◌, ◌^◌, ◌≡◌, refl, sym, ap, ◌∙◌, Bool, true, false, not, ltb, Option,
  none, some, arith, if◌then◌else◌,
}
use recall.Prelude.Int.{
  ℤ, pos, negsuc, pos_part, neg_part, ◌+ℤ◌, ◌-ℤ◌, leb_ℤ, ltb_ℤ, i64_min, i64_max, in_i64, checked,
  checked_add, checked_sub, saturating_sub, div, rem,
}
use recall.Run.{ok, err, ◌>>=◌, or_else}
use recall.Command.{
  Condition, always, if_absent, if_present, Expiry, clear, keep, after_milliseconds,
}
use recall.Store.{Entry, is_due, failure}
use recall.Store.Prepare.{
  value_of, expires_of, deadline_for, deadline_after, is_blocked, is_i64_min, current_of, ttl_of,
  remaining_of,
}
use recall.Store.Spec.{
  seen_value, seen_deadline, may_assign, new_deadline, ahead, as_i64, least, until, time_left,
  is_lowest, counter,
}

pub seen_value-value_of : (o : Option Entry) → seen_value o ≡ value_of o
seen_value-value_of none = refl
seen_value-value_of (some entry) = refl

pub seen_deadline-expires_of : (o : Option Entry) → seen_deadline o ≡ expires_of o
seen_deadline-expires_of none = refl
seen_deadline-expires_of (some entry) = refl

pub may_assign-is_blocked :
    (c : Condition) (o : Option Entry) → may_assign c o ≡ not (is_blocked c o)
may_assign-is_blocked always o = refl
may_assign-is_blocked if_absent none = refl
may_assign-is_blocked if_absent (some entry) = refl
may_assign-is_blocked if_present none = refl
may_assign-is_blocked if_present (some entry) = refl

pub counter-current_of : (o : Option Entry) → counter o ≡ current_of o
unfolding counter
counter-current_of none = refl
counter-current_of (some entry) = refl

pub is_lowest-is_i64_min : (a : ℤ) → is_lowest a ≡ is_i64_min a
unfolding pos_part neg_part
is_lowest-is_i64_min (pos n) = ground arith
is_lowest-is_i64_min (negsuc n) = ground arith

pub as_i64-checked : (a : ℤ) → as_i64 a ≡ checked a
unfolding as_i64 checked in_i64 pos_part neg_part
as_i64-checked (pos n) = ground arith
as_i64-checked (negsuc n) = ground arith

pub as_i64-checked_add : (a b : ℤ) → as_i64 (a +ℤ b) ≡ checked_add a b
unfolding checked_add
as_i64-checked_add a b = as_i64-checked (a +ℤ b)

pub as_i64-step :
    (subtract : Bool) (a b : ℤ)
    → as_i64 (if subtract then a -ℤ b else a +ℤ b)
      ≡ (if subtract then checked_sub a b else checked_add a b)
unfolding checked_sub checked_add
as_i64-step true a b = as_i64-checked (a -ℤ b)
as_i64-step false a b = as_i64-checked (a +ℤ b)

ahead-deadline_after : (now duration : ℤ) → ahead now duration ≡ deadline_after now duration
unfolding ahead pos_part neg_part
ahead-deadline_after now (pos zero) = refl
ahead-deadline_after now (pos (suc n)) =
    let later : ltb_ℤ (pos 0) (pos (suc n)) ≡ true = ground arith in
    rw later (as_i64-checked_add now (pos (suc n)))
ahead-deadline_after now (negsuc n) =
    let over : ltb_ℤ (pos 0) (negsuc n) ≡ false = ground arith in rw over refl

until-or_else :
    (q : Option ℤ)
    → until q ≡ (
        or_else q (err (failure "ERR invalid expire time in 'set' command")) >>= λ deadline.
        ok (some deadline))
until-or_else none = refl
until-or_else (some d) = refl

pub new_deadline-deadline_for :
    (o : Option Entry) (now : ℤ) (expiry : Expiry)
    → new_deadline o now expiry ≡ deadline_for o now expiry
unfolding new_deadline deadline_for
new_deadline-deadline_for o now clear = refl
new_deadline-deadline_for o now keep = ap ok (seen_deadline-expires_of o)
new_deadline-deadline_for o now (after_milliseconds duration) =
    ap until (ahead-deadline_after now duration) ∙ until-or_else (deadline_after now duration)

-- The difference of a later time and an earlier one.
sub-positive :
    (z : ℤ)
    → neg_part z ≡ 0
    → (if ltb (2 ^ 63 - 1) (pos_part z)
        then i64_max
        else if ltb (2 ^ 63) (neg_part z)
        then i64_min
        else z)
      ≡ pos (least (pos_part z) (2 ^ 63 - 1))
unfolding pos_part neg_part
sub-positive (pos n) h = ground arith
sub-positive (negsuc n) h = absurd (omega (arith, h))

rounded :
    (n : ℕ)
    → div (pos n) 1000 +ℤ (if leb_ℤ (pos 500) (rem (pos n) 1000) then pos 1 else pos 0)
      ≡ pos ((n + 500) / 1000)
unfolding div rem ◌+ℤ◌ pos_part neg_part
rounded n = ground arith

by_unit :
    (ms : Bool) (n : ℕ)
    → (if ms then pos n else pos ((n + 500) / 1000)) ≡ (
        if ms
        then pos n
        else div (pos n) 1000 +ℤ (if leb_ℤ (pos 500) (rem (pos n) 1000) then pos 1 else pos 0))
by_unit true n = refl
by_unit false n = sym (rounded n)

later_part : (d now : ℤ) → leb_ℤ d now ≡ false → neg_part (d -ℤ now) ≡ 0
unfolding ◌-ℤ◌ pos_part neg_part
later_part d now h = ground (arith, h)

remaining_of-least :
    (d now : ℤ) (ms : Bool)
    → leb_ℤ d now ≡ false
    → (if ms
        then pos (least (pos_part (d -ℤ now)) (2 ^ 63 - 1))
        else pos ((least (pos_part (d -ℤ now)) (2 ^ 63 - 1) + 500) / 1000))
      ≡ remaining_of d now ms
unfolding remaining_of saturating_sub
remaining_of-least d now ms h =
    rw (sub-positive (d -ℤ now) (later_part d now h))
      (by_unit ms (least (pos_part (d -ℤ now)) (2 ^ 63 - 1)))

-- Of an entry that is not due.
pub time_left-ttl_of :
    (o : Option Entry) (now : ℤ) (ms : Bool)
    → is_due (expires_of o) now ≡ false
    → time_left o now ms ≡ ttl_of o now ms
unfolding time_left is_due
time_left-ttl_of none now ms h = refl
time_left-ttl_of (some entry) now ms h = by_deadline entry.expires_at_ms h
  where
    by_deadline :
        (q : Option ℤ)
        → is_due q now ≡ false
        → elim q [
          | none ↦ negsuc 0
          | some d ↦
              let left = least (pos_part (d -ℤ now)) (2 ^ 63 - 1) in
              if ms then pos left else pos ((left + 500) / 1000)
        ]
          ≡ elim q [ none ↦ negsuc 0 | some d ↦ remaining_of d now ms ]
    by_deadline none h = refl
    by_deadline (some d) h = remaining_of-least d now ms h
