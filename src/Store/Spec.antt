-- ===== src/Store/Spec.antt =====
-- What each operation promises, on the entries that a client can see at the time of the command:
-- its reply, and the entries afterwards. Nothing here knows of effects, timers or budgets.
use recall.Prelude.{
  zero, suc, true, false, leb, ◌-◌, ◌^◌, ◌/◌, ◌==◌, ℕ, ◌+◌, Bool, ◌&&◌, Option, none, some, List,
  [], ◌∷◌, map, Bytes, if◌then◌else◌,
}
use recall.Prelude.Int.{ℤ, pos, negsuc, leb_ℤ, ◌+ℤ◌, ◌-ℤ◌, pos_part, i64_min, i64_max}
use recall.Run.{Run, ok, err, ◌>>=◌, or_else}
use recall.Decimal.{int_to_string}
use recall.Protocol.{Reply, integer, bulk, array, replies, ok_reply}
use recall.Command
use recall.Command.{
  Condition, always, if_absent, if_present, Expiry, clear, keep, after_milliseconds, Operation,
}
use recall.Store.{Entry, failure}
use recall.Store.View.{View, write}

abbrev pub presence : Option Entry → ℕ
presence none = 0
presence (some entry) = 1

-- What a client reads of a key, and when the key goes away.
abbrev pub seen_value : Option Entry → Option Bytes
seen_value none = none
seen_value (some entry) = some entry.value

abbrev pub seen_deadline : Option Entry → Option ℤ
seen_deadline none = none
seen_deadline (some entry) = entry.expires_at_ms

-- NX assigns to a key that is not there, XX to one that is.
abbrev pub may_assign : Condition → Option Entry → Bool
may_assign always entry = true
may_assign if_absent entry = presence entry == 0
may_assign if_present entry = presence entry == 1

-- A result, where it is an i64.
unfoldable pub as_i64 : ℤ → Option ℤ
as_i64 a = if leb_ℤ i64_min a && leb_ℤ a i64_max then some a else none

-- The time after a duration, where that is positive and the sum an i64.
unfoldable pub ahead : ℤ → ℤ → Option ℤ
ahead now (pos zero) = none
ahead now (pos (suc n)) = as_i64 (now +ℤ pos (suc n))
ahead now (negsuc n) = none

abbrev pub until : Option ℤ → Run (Option ℤ)
until none = err (failure "ERR invalid expire time in 'set' command")
until (some deadline) = ok (some deadline)

-- Without an option the new value stays for ever, with KEEPTTL as long as the old one, and with a
-- duration until it is over.
unfoldable pub new_deadline : Option Entry → ℤ → Expiry → Run (Option ℤ)
new_deadline old now clear = ok none
new_deadline old now keep = ok (seen_deadline old)
new_deadline old now (after_milliseconds duration) = until (ahead now duration)

abbrev pub least : ℕ → ℕ → ℕ
least a b = if leb a b then a else b

-- -2 for no key, -1 for one that stays, and else the milliseconds that are left, or the seconds, to
-- the nearest; what is left counts up to the greatest i64.
unfoldable pub time_left : Option Entry → ℤ → (milliseconds : Bool) → ℤ
time_left none now milliseconds = negsuc 1
time_left (some entry) now milliseconds = elim entry.expires_at_ms [
  | none ↦ negsuc 0
  | some deadline ↦
      let left = least (pos_part (deadline -ℤ now)) (2 ^ 63 - 1) in
      if milliseconds then pos left else pos ((left + 500) / 1000)
]

-- The number that a counter stands at: 0 where there is none.
unfoldable pub counter : Option Entry → Run ℤ
counter none = ok (pos 0)
counter (some entry) = Command.integer entry.value

-- The amount whose negation is no i64.
abbrev pub is_lowest : ℤ → Bool
is_lowest (pos n) = false
is_lowest (negsuc n) = n == 2 ^ 63 - 1

-- Keys go one by one; a key that is gone already does not count again.
unfoldable pub delete_all : List Bytes → View → ℕ × View
delete_all [] v = (0, v)
delete_all (k ∷ ks) v =
    let (removed, w) = delete_all ks (write v k none) in (presence (v k) + removed, w)

-- A key counts each time that it is named.
unfoldable pub count_present : List Bytes → View → ℕ
count_present [] v = 0
count_present (k ∷ ks) v = presence (v k) + count_present ks v

-- The last value of a key stands.
unfoldable pub assign_all : List (Bytes × Bytes) → View → View
assign_all [] v = v
assign_all ((k, value) ∷ rest) v =
    assign_all rest (write v k (some (record { value = value; expires_at_ms = none })))

abbrev pub Answer : Type 0
Answer = Run (Reply × View)

unfoldable pub assign : Bytes → Bytes → Condition → Expiry → ℤ → View → Answer
assign k value condition expiry now v = do
  deadline ← new_deadline (v k) now expiry
  if may_assign condition (v k)
      then ok (ok_reply, write v k (some (record { value = value; expires_at_ms = deadline })))
      else ok (bulk none, v)

unfoldable pub count_up : Bytes → ℤ → Bool → View → Answer
count_up k amount subtract v =
    if subtract && is_lowest amount
    then err (failure "ERR increment or decrement would overflow")
    else do
      current ← counter (v k)
      next ←
          or_else (as_i64 (if subtract then current -ℤ amount else current +ℤ amount))
            (err (failure "ERR increment or decrement would overflow"))
      ok (
        integer next,
        write v k
            (some (record { value = int_to_string next; expires_at_ms = seen_deadline (v k) })),
      )

unfoldable pub retime : Bytes → ℤ → ℤ → View → Answer
retime k milliseconds now v = elim (v k) [
  | none ↦ ok (integer (pos 0), v)
  | some old ↦ if leb_ℤ milliseconds (pos 0) then ok (integer (pos 1), write v k none) else do
    deadline ←
        or_else (as_i64 (now +ℤ milliseconds))
          (err (failure "ERR invalid expire time in 'expire' command"))
    ok (integer (pos 1), write v k (some (record old { expires_at_ms = some deadline })))
]

unfoldable pub keep_forever : Bytes → View → Answer
keep_forever k v = elim (v k) [
  | none ↦ ok (integer (pos 0), v)
  | some old ↦ elim old.expires_at_ms [
    | none ↦ ok (integer (pos 0), v)
    | some deadline ↦ ok (integer (pos 1), write v k (some (record old { expires_at_ms = none })))
  ]
]

unfoldable pub answer : Operation → ℤ → View → Answer
answer (Operation.get k) now v = ok (bulk (seen_value (v k)), v)
answer (Operation.set k value condition expiry) now v = assign k value condition expiry now v
answer (Operation.increment k amount subtract) now v = count_up k amount subtract v
answer (Operation.delete ks) now v =
    let (removed, w) = delete_all ks v in ok (integer (pos removed), w)
answer (Operation.exists ks) now v = ok (integer (pos (count_present ks v)), v)
answer (Operation.multi_get ks) now v =
    ok (array (replies (map (λ k. bulk (seen_value (v k))) ks)), v)
answer (Operation.multi_set pairs) now v = ok (ok_reply, assign_all pairs v)
answer (Operation.expire k milliseconds) now v = retime k milliseconds now v
answer (Operation.ttl k milliseconds) now v = ok (integer (time_left (v k) now milliseconds), v)
answer (Operation.persist k) now v = keep_forever k v
