-- ===== src/Command/Parse/Named.antt =====
-- Each command of the table is parsed without a panic, once its arity is right.
use recall.Prelude.{
  refl, Bool, ◌<◌, ◌≡◌, true, false, List, [], ◌∷◌, Bytes, arith, codes, length, String, leb, ◌==◌,
  ◌%◌, ◌&&◌,
}
use recall.Prelude.Int.{ℤ, pos, in_i64, negsuc, pos_part, neg_part}
use recall.Run.{Answers, value, refused, Answers-then, Answers-branch}
use recall.Command.{Operation, keys}
use recall.Command.Integer.{integer-in_i64}
use recall.Command.Specs.{Name, wrong_arity, eq_ignore_ascii_case}
use recall.Command.Options.{ParseLimits, ClientCommand, Command}
use recall.Command.Parse.{
  library_name, client_set_name, client_set_info, parse_client, chunks, amount_of, increment_of,
  expire_of, auth_of, command_of, parse_named,
}
use recall.Command.Options.Safe.{
  arg-Answers, in_seconds-Answers, parse_set-Answers, client_name-Answers, parse_hello-Answers,
  HasRange, IsFormed, IsSound,
}

IsClient : ParseLimits → ClientCommand → Type 0
unfolding IsSound
IsClient limits command = IsSound IsFormed limits (Command.client command)

library_name-Answers : (v : Bytes) → Answers (λ _. Unit {0}) (library_name v)
unfolding library_name
library_name-Answers v =
    Answers-branch (eq_ignore_ascii_case v (codes "lib-name")) (λ b. value tt)
      λ b. Answers-branch (eq_ignore_ascii_case v (codes "lib-ver")) (λ b. value tt) λ b. refused _

parse_client-Answers :
    (a : List Bytes) (limits : ParseLimits)
    → 1 < length a
    → Answers (IsClient limits) (parse_client a limits)
unfolding parse_client client_set_name client_set_info IsClient IsSound
parse_client-Answers a limits h = Answers-then (arg-Answers a 1 h) λ sub _.
    let is = λ (word : String). eq_ignore_ascii_case sub (codes word) in
    Answers-branch (is "getname" && length a == 2) (λ b. value tt)
      λ b.
        Answers-branch (is "setname" && length a == 3)
          (λ c.
            Answers-then (arg-Answers a 2 (ground arith))
              λ name _. Answers-then (client_name-Answers name limits) λ _ good. value good)
          λ c.
            Answers-branch (is "setinfo" && length a == 4)
              (λ d. Answers-then (arg-Answers a 3 (ground arith)) λ name _.
                Answers-then (client_name-Answers name limits) λ _ good.
                  Answers-then (arg-Answers a 2 (ground arith))
                    λ attribute _. Answers-then (library_name-Answers attribute) λ _ _. value good)
              (λ d. refused _)

chunks-keyed :
    (k v : Bytes) (rest : List Bytes)
    → 0 < length (keys (Operation.multi_set (chunks (k ∷ v ∷ rest))))
unfolding chunks keys
chunks-keyed k v rest = omega arith

amount_of-Answers : (a : List Bytes) → Answers (λ n. in_i64 n ≡ true) (amount_of a)
unfolding amount_of in_i64 pos_part neg_part
amount_of-Answers a =
    Answers-branch (length a == 3)
      (λ b. Answers-then (arg-Answers a 2 (ground arith)) λ v _. integer-in_i64 v) (λ b. value refl)

-- The fields of the table that the parser reads, by name.
unfoldable pub arity_of : Name → ℤ
arity_of Name.ping = negsuc 0
arity_of Name.hello = negsuc 0
arity_of Name.command = negsuc 0
arity_of Name.info = negsuc 0
arity_of Name.quit = pos 1
arity_of Name.auth = negsuc 1
arity_of Name.del = negsuc 1
arity_of Name.exists = negsuc 1
arity_of Name.mget = negsuc 1
arity_of Name.client = negsuc 1
arity_of Name.set = negsuc 2
arity_of Name.mset = negsuc 2
arity_of Name.incrby = pos 3
arity_of Name.decrby = pos 3
arity_of Name.expire = pos 3
arity_of Name.pexpire = pos 3
arity_of _ = pos 2

single :
    (operation : Operation) → length (keys operation) ≡ 1 → HasRange operation → IsFormed operation
single operation h x = record { keyed = omega arith; ranged = x }

increment_of-Answers :
    (a : List Bytes) (limits : ParseLimits) (subtract : Bool)
    → 1 < length a
    → Answers (IsSound IsFormed limits) (increment_of a subtract)
unfolding increment_of IsSound HasRange keys
increment_of-Answers a limits subtract h = Answers-then (arg-Answers a 1 h) λ key _.
    Answers-then (amount_of-Answers a)
      λ amount x. value (single (Operation.increment key amount subtract) refl x)

expire_of-Answers :
    (a : List Bytes) (limits : ParseLimits) (seconds : Bool)
    → 2 < length a
    → Answers (IsSound IsFormed limits) (expire_of a seconds)
unfolding expire_of IsSound HasRange keys
expire_of-Answers a limits seconds h = Answers-then (arg-Answers a 2 h) λ text _.
    Answers-then (integer-in_i64 text) λ n fits.
      Answers-then (in_seconds-Answers seconds (codes "expire") n fits) λ d range.
        Answers-then (arg-Answers a 1 (omega arith))
          λ key _. value (single (Operation.expire key d) refl range)

auth_of-Answers :
    (a : List Bytes) (limits : ParseLimits) → Answers (IsSound IsFormed limits) (auth_of a)
unfolding auth_of IsSound
auth_of-Answers a limits =
    Answers-branch (length a == 2)
      (λ b. Answers-then (arg-Answers a 1 (ground arith)) λ password _. value tt)
      λ b.
        Answers-branch (length a == 3)
          (λ c.
            Answers-then (arg-Answers a 1 (ground arith))
              λ username _. Answers-then (arg-Answers a 2 (ground arith)) λ password _. value tt)
          (λ c. refused _)

command_of-Answers :
    (a : List Bytes) (limits : ParseLimits)
    → 0 < length a
    → Answers (IsSound IsFormed limits) (command_of a)
unfolding command_of IsSound
command_of-Answers a limits h =
    Answers-branch (length a == 1) (λ b. value tt)
      λ b. Answers-then (arg-Answers a 1 (ground arith)) λ sub _.
        Answers-branch (eq_ignore_ascii_case sub (codes "count") && length a == 2) (λ c. value tt)
          λ c.
            Answers-branch (eq_ignore_ascii_case sub (codes "info")) (λ d. value tt)
              (λ d. refused _)

pub parse_named-Answers :
    (name : Name) (a : List Bytes) (limits : ParseLimits)
    → 0 < length a
    → wrong_arity (arity_of name) (length a) ≡ false
    → Answers (IsSound IsFormed limits) (parse_named name a limits)
unfolding parse_named arity_of wrong_arity IsSound HasRange keys IsClient
parse_named-Answers Name.ping a limits n h =
    Answers-branch (leb (length a) 2) (λ b. value tt) (λ b. refused _)
parse_named-Answers Name.echo a limits n h =
    Answers-then (arg-Answers a 1 (ground arith)) λ message _. value tt
parse_named-Answers Name.quit a limits n h = value tt
parse_named-Answers Name.auth a limits n h = auth_of-Answers a limits
parse_named-Answers Name.hello a limits n h = parse_hello-Answers a limits n
parse_named-Answers Name.select a limits n h =
    Answers-then (arg-Answers a 1 (ground arith))
      λ v _. Answers-then (integer-in_i64 v) λ database fits. value fits
parse_named-Answers Name.get a limits n h =
    Answers-then (arg-Answers a 1 (ground arith))
      λ key _. value (single (Operation.get key) refl tt)
parse_named-Answers Name.set a limits n h =
    Answers-then (parse_set-Answers a (ground arith)) λ operation x. value x
parse_named-Answers Name.incr a limits n h = increment_of-Answers a limits false (ground arith)
parse_named-Answers Name.incrby a limits n h = increment_of-Answers a limits false (ground arith)
parse_named-Answers Name.decr a limits n h = increment_of-Answers a limits true (ground arith)
parse_named-Answers Name.decrby a limits n h = increment_of-Answers a limits true (ground arith)
parse_named-Answers Name.del (name ∷ k ∷ rest) limits n h =
    let some_key : 0 < length (k ∷ rest) = omega arith in
    value (record { keyed = some_key; ranged = tt })
parse_named-Answers Name.del (name ∷ []) limits n h = absurd (ground arith)
parse_named-Answers Name.del [] limits n h = absurd (omega arith)
parse_named-Answers Name.exists (name ∷ k ∷ rest) limits n h =
    let some_key : 0 < length (k ∷ rest) = omega arith in
    value (record { keyed = some_key; ranged = tt })
parse_named-Answers Name.exists (name ∷ []) limits n h = absurd (ground arith)
parse_named-Answers Name.exists [] limits n h = absurd (omega arith)
parse_named-Answers Name.mget (name ∷ k ∷ rest) limits n h =
    let some_key : 0 < length (k ∷ rest) = omega arith in
    value (record { keyed = some_key; ranged = tt })
parse_named-Answers Name.mget (name ∷ []) limits n h = absurd (ground arith)
parse_named-Answers Name.mget [] limits n h = absurd (omega arith)
parse_named-Answers Name.mset (name ∷ k ∷ v ∷ rest) limits n h =
    Answers-branch (length (name ∷ k ∷ v ∷ rest) % 2 == 1)
      (λ b. value (record { keyed = chunks-keyed k v rest; ranged = tt })) (λ b. refused _)
parse_named-Answers Name.mset (name ∷ k ∷ []) limits n h = absurd (ground arith)
parse_named-Answers Name.mset (name ∷ []) limits n h = absurd (ground arith)
parse_named-Answers Name.mset [] limits n h = absurd (omega arith)
parse_named-Answers Name.expire a limits n h = expire_of-Answers a limits true (ground arith)
parse_named-Answers Name.pexpire a limits n h = expire_of-Answers a limits false (ground arith)
parse_named-Answers Name.ttl a limits n h =
    Answers-then (arg-Answers a 1 (ground arith))
      λ key _. value (single (Operation.ttl key false) refl tt)
parse_named-Answers Name.pttl a limits n h =
    Answers-then (arg-Answers a 1 (ground arith))
      λ key _. value (single (Operation.ttl key true) refl tt)
parse_named-Answers Name.persist a limits n h =
    Answers-then (arg-Answers a 1 (ground arith))
      λ key _. value (single (Operation.persist key) refl tt)
parse_named-Answers Name.command a limits n h = command_of-Answers a limits n
parse_named-Answers Name.client a limits n h =
    Answers-then (parse_client-Answers a limits (ground arith)) λ sub x. value x
parse_named-Answers Name.info a limits n h =
    Answers-branch (leb (length a) 2) (λ b. value tt) (λ b. refused _)
