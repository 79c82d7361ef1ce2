-- ===== src/Store/Prepare.antt =====
-- `prepare` of the shard: the reply and the effects of each operation, and the budget that the
-- effects have to meet. A preparation changes nothing in the shard.
use recall.Prelude.{
  ℕ, ◌+◌, Bool, true, false, ◌&&◌, ◌||◌, Option, none, some, List, [], ◌∷◌, Bytes, ltb,
  if◌then◌else◌, length, bytes_Eq,
}
use recall.Prelude.Int.{
  ℤ, pos, negsuc, ◌+ℤ◌, ◌-ℤ◌, leb_ℤ, ltb_ℤ, i64_min, checked_add, checked_sub, saturating_sub, div,
  rem,
}
use recall.Map.{Map, get, insert}
use recall.Run.{Run, ok, err, panic, ◌>>=◌, or_else}
use recall.Decimal.{int_to_string}
use recall.Protocol.{Reply, integer, bulk, array, Replies, nil, cons, ok_reply, encoded_len}
use recall.Command
use recall.Command.{
  Condition, always, if_absent, if_present, Expiry, clear, keep, after_milliseconds, Operation,
  keys,
}
use recall.Store.{Entry, Effects, Prepared, Shard, failure, observe}

-- The reply of a command and its effects.
abbrev pub Outcome : Type 0
Outcome = Run (Reply × Effects)

abbrev pub value_of : Option Entry → Option Bytes
value_of none = none
value_of (some entry) = some entry.value

abbrev pub expires_of : Option Entry → Option ℤ
expires_of none = none
expires_of (some entry) = entry.expires_at_ms

abbrev pub is_present : Option Entry → Bool
is_present none = false
is_present (some entry) = true

unfoldable pub respond_get : Shard → Bytes → ℤ → Effects → Outcome
respond_get s key now effects =
    let (entry, effects') = observe s key now effects in ok (bulk (value_of entry), effects')

-- `now_ms.checked_add(duration).filter(|_| duration > 0)`
abbrev pub deadline_after : ℤ → ℤ → Option ℤ
deadline_after now duration = if ltb_ℤ (pos 0) duration then checked_add now duration else none

unfoldable pub deadline_for : Option Entry → ℤ → Expiry → Run (Option ℤ)
deadline_for old now clear = ok none
deadline_for old now keep = ok (expires_of old)
deadline_for old now (after_milliseconds duration) = do
  deadline ←
      or_else (deadline_after now duration)
        (err (failure "ERR invalid expire time in 'set' command"))
  ok (some deadline)

-- The condition of the assignment rules it out.
abbrev pub is_blocked : Condition → Option Entry → Bool
is_blocked always old = false
is_blocked if_absent none = false
is_blocked if_absent (some entry) = true
is_blocked if_present none = true
is_blocked if_present (some entry) = false

unfoldable pub respond_set : Shard → Bytes → Bytes → Condition → Expiry → ℤ → Effects → Outcome
respond_set s key value condition expiry now effects = do
  let observed = observe s key now effects
  deadline ← deadline_for observed.0 now expiry
  if is_blocked condition observed.0
      then ok (bulk none, observed.1)
      else ok (
        ok_reply,
        insert key (some (record { value = value; expires_at_ms = deadline })) observed.1,
      )

abbrev pub is_i64_min : ℤ → Bool
is_i64_min amount = leb_ℤ amount i64_min && leb_ℤ i64_min amount

-- The number that a counter stands at.
abbrev pub current_of : Option Entry → Run ℤ
current_of none = ok (pos 0)
current_of (some entry) = Command.integer entry.value

unfoldable pub respond_increment : Shard → Bytes → ℤ → Bool → ℤ → Effects → Outcome
respond_increment s key amount subtract now effects =
    if subtract && is_i64_min amount
    then err (failure "ERR increment or decrement would overflow")
    else do
      let observed = observe s key now effects
      current ← current_of observed.0
      next ←
          or_else (if subtract then checked_sub current amount else checked_add current amount)
            (err (failure "ERR increment or decrement would overflow"))
      ok (
        integer next,
        insert key
            (some (record { value = int_to_string next; expires_at_ms = expires_of observed.0 }))
            observed.1,
      )

-- The loop of `Delete`: a key that is in the effects already is passed over.
unfoldable pub delete_loop : Shard → ℤ → List Bytes → ℕ → Effects → ℕ × Effects
delete_loop s now [] removed effects = (removed, effects)
delete_loop s now (key ∷ rest) removed effects =
    let observed = observe s key now effects in
    let fresh =
      delete_loop s now rest (removed + (if is_present observed.0 then 1 else 0))
        (insert key none observed.1) in
    let again = delete_loop s now rest removed effects in
    elim (get key effects) [ none ↦ fresh | some effect ↦ again ]

unfoldable pub exists_loop : Shard → ℤ → List Bytes → ℕ → Effects → ℕ × Effects
exists_loop s now [] found effects = (found, effects)
exists_loop s now (key ∷ rest) found effects =
    let (entry, effects') = observe s key now effects in
    exists_loop s now rest (found + (if is_present entry then 1 else 0)) effects'

unfoldable pub multi_get_loop : Shard → ℤ → List Bytes → Effects → Replies × Effects
multi_get_loop s now [] effects = (nil, effects)
multi_get_loop s now (key ∷ rest) effects =
    let (entry, effects') = observe s key now effects in
    let (values, effects'') = multi_get_loop s now rest effects' in
    (cons (bulk (value_of entry)) values, effects'')

unfoldable pub multi_set_loop : List (Bytes × Bytes) → Effects → Effects
multi_set_loop [] effects = effects
multi_set_loop ((key, value) ∷ rest) effects =
    multi_set_loop rest (insert key (some (record { value = value; expires_at_ms = none })) effects)

unfoldable pub respond_expire : Shard → Bytes → ℤ → ℤ → Effects → Outcome
respond_expire s key milliseconds now effects =
    let (entry, effects') = observe s key now effects in
    elim entry [
      | none ↦ ok (integer (pos 0), effects')
      | some old ↦
          if leb_ℤ milliseconds (pos 0) then ok (integer (pos 1), insert key none effects') else do
            deadline ←
                or_else (checked_add now milliseconds)
                  (err (failure "ERR invalid expire time in 'expire' command"))
            ok (
              integer (pos 1),
              insert key (some (record old { expires_at_ms = some deadline })) effects',
            )
    ]

-- The time left, in milliseconds or rounded to seconds.
unfoldable pub remaining_of : ℤ → ℤ → Bool → ℤ
remaining_of deadline now milliseconds =
    let remaining = saturating_sub deadline now in
    if milliseconds
    then remaining
    else div remaining 1000 +ℤ (if leb_ℤ (pos 500) (rem remaining 1000) then pos 1 else pos 0)

abbrev pub ttl_of : Option Entry → ℤ → Bool → ℤ
ttl_of none now milliseconds = negsuc 1
ttl_of (some entry) now milliseconds = elim entry.expires_at_ms [
  | none ↦ negsuc 0
  | some deadline ↦ remaining_of deadline now milliseconds
]

unfoldable pub respond_ttl : Shard → Bytes → Bool → ℤ → Effects → Outcome
respond_ttl s key milliseconds now effects =
    let (entry, effects') = observe s key now effects in
    ok (integer (ttl_of entry now milliseconds), effects')

unfoldable pub respond_persist : Shard → Bytes → ℤ → Effects → Outcome
respond_persist s key now effects =
    let (entry, effects') = observe s key now effects in
    elim entry [
      | none ↦ ok (integer (pos 0), effects')
      | some old ↦ elim old.expires_at_ms [
        | none ↦ ok (integer (pos 0), effects')
        | some deadline ↦
            ok (integer (pos 1), insert key (some (record old { expires_at_ms = none })) effects')
      ]
    ]

-- The `match` of `prepare` over the operations.
unfoldable pub respond : Shard → Operation → ℤ → Effects → Outcome
respond s (Operation.get key) now effects = respond_get s key now effects
respond s (Operation.set key value condition expiry) now effects =
    respond_set s key value condition expiry now effects
respond s (Operation.increment key amount subtract) now effects =
    respond_increment s key amount subtract now effects
respond s (Operation.delete ks) now effects =
    let (removed, effects') = delete_loop s now ks 0 effects in ok (integer (pos removed), effects')
respond s (Operation.exists ks) now effects =
    let (found, effects') = exists_loop s now ks 0 effects in ok (integer (pos found), effects')
respond s (Operation.multi_get ks) now effects =
    let (values, effects') = multi_get_loop s now ks effects in ok (array values, effects')
respond s (Operation.multi_set pairs) now effects = ok (ok_reply, multi_set_loop pairs effects)
respond s (Operation.expire key milliseconds) now effects =
    respond_expire s key milliseconds now effects
respond s (Operation.ttl key milliseconds) now effects = respond_ttl s key milliseconds now effects
respond s (Operation.persist key) now effects = respond_persist s key now effects

-- `if let Some(old) = .. { n -= .. }` and `if let Some(next) = .. { n += .. }`
unfoldable pub minus_if : ℤ → Option Entry → (Entry → ℕ) → ℤ
minus_if n none amount = n
minus_if n (some entry) amount = n -ℤ pos (amount entry)

unfoldable pub plus_if : ℤ → Option Entry → (Entry → ℕ) → ℤ
plus_if n none amount = n
plus_if n (some entry) amount = n +ℤ pos (amount entry)

-- The accounting loop of `preflight`, in signed numbers.
unfoldable pub budget_loop : Map Bytes Entry → Effects → ℤ → ℤ → ℤ × ℤ
budget_loop entries [] keys_after payload = (keys_after, payload)
budget_loop entries ((key, next) ∷ rest) keys_after payload =
    budget_loop entries rest
      (plus_if (minus_if keys_after (get key entries) (λ _. 1)) next (λ _. 1))
      (plus_if (minus_if payload (get key entries) (λ entry. length key + length entry.value)) next
        (λ entry. length key + length entry.value))

-- `usize::try_from(payload).expect(..)`
abbrev pub to_usize : ℤ → Run ℕ
to_usize (pos n) = ok n
to_usize (negsuc n) = panic

-- `response.encoded_len().is_none_or(|bytes| bytes > max_reply_bytes)`
abbrev pub exceeds : Option ℕ → ℕ → Bool
exceeds none limit = true
exceeds (some bytes) limit = ltb limit bytes

unfoldable pub preflight : Shard → Effects → Reply → Run Prepared
preflight s effects response =
    if exceeds (encoded_len response) s.limits.max_reply_bytes
    then err (failure "ERR response exceeds configured limit")
    else do
      let after = budget_loop s.entries effects (pos (length s.entries)) (pos s.payload_bytes)
      if ltb_ℤ (pos s.limits.max_keys) after.0 || ltb_ℤ (pos s.limits.max_payload_bytes) after.1
          then err (failure "OOM owner key or payload budget exhausted")
          else do
            payload_after ← to_usize after.1
            ok (record {
              revision = s.revision;
              effects = effects;
              payload_after = payload_after;
              response = response;
            })

-- `Shard::prepare`; `reserves n` says whether the allocator grants room for `n` effects.
unfoldable pub prepare : (reserves : ℕ → Bool) → Shard → Operation → ℤ → Run Prepared
prepare reserves s operation now =
    if reserves (length (keys operation))
    then (do outcome ← respond s operation now []; preflight s outcome.1 outcome.0)
    else err (failure "OOM could not reserve command effects")
