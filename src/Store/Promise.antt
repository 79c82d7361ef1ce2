-- ===== src/Store/Promise.antt =====
-- Every operation is prepared as it is promised.
use native.Mathlib.Nat.{zero-add}
use recall.Prelude.{refl, ◌∙◌, ap, []}
use recall.Prelude.Int.{ℤ, pos}
use recall.Protocol.{integer, array}
use recall.Command.{Operation}
use recall.Store.{Shard}
use recall.Store.Prepare.{respond}
use recall.Store.View.{live, Quiet-nil}
use recall.Store.Spec.{answer}
use recall.Store.Respond.{
  Matches, get_Matches, set_Matches, increment_Matches, expire_Matches, ttl_Matches,
  persist_Matches,
}
use recall.Store.Loops.{
  exists_loop-Found, multi_get_loop-Fetched, multi_set_loop-shown, multi_set_loop-Distinct,
  delete_loop-Deleted, Deleting-nil,
}

-- The reply and the effects that `prepare` computes are those that the specification promises, and
-- it fails exactly where the specification fails, with the same message.
pub respond-Matches :
    (s : Shard) (operation : Operation) (now : ℤ)
    → Matches s now (respond s operation now []) (answer operation now (live s now))
unfolding respond answer
respond-Matches s (Operation.get k) now = get_Matches s now k
respond-Matches s (Operation.set k value condition expiry) now =
    set_Matches s now k value condition expiry
respond-Matches s (Operation.increment k amount subtract) now =
    increment_Matches s now k amount subtract
respond-Matches s (Operation.delete ks) now =
    let done = delete_loop-Deleted s now ks 0 [] (live s now) (Deleting-nil s now) in
    (ap (λ n. integer (pos n)) (done.count ∙ zero-add _), done.end.distinct, done.end.shown)
respond-Matches s (Operation.exists ks) now =
    let done = exists_loop-Found s now ks 0 [] tt (Quiet-nil s now) in
    (ap (λ n. integer (pos n)) (done.count ∙ zero-add _), done.distinct, done.shown)
respond-Matches s (Operation.multi_get ks) now =
    let done = multi_get_loop-Fetched s now ks [] tt (Quiet-nil s now) in
    (ap array done.reply, done.distinct, done.shown)
respond-Matches s (Operation.multi_set pairs) now = (
  refl,
  multi_set_loop-Distinct s now pairs [] tt,
  multi_set_loop-shown s now pairs [] (live s now) (Quiet-nil s now),
)
respond-Matches s (Operation.expire k ms) now = expire_Matches s now k ms
respond-Matches s (Operation.ttl k ms) now = ttl_Matches s now k ms
respond-Matches s (Operation.persist k) now = persist_Matches s now k
