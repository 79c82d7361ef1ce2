-- ===== src/Expiry/Sift.antt =====
-- `up` and `down`: they end, never index out of bounds, keep the timers, and restore the order.
use recall.Prelude.{
  ℕ, zero, suc, ◌+◌, ◌-◌, ◌*◌, ◌<◌, ◌≡◌, refl, ◌∙◌, ◌⊎◌, List, arith, length, exchange,
  get_or-exchange, length-exchange, ltb, leb,
}
use recall.Prelude.Int.{◌≤ℤ◌, leb_ℤ}
use recall.Run.{Returns, returned, Returns-then, Returns-weaken, Returns-branch}
use recall.Expiry.{Timer, ExpiryIndex, blank, parent, up_loop, up, earlier_child, down_loop, down}
use recall.Expiry.Order.{due, IsHeap, RiseHole, SinkHole}
use recall.Expiry.Positions.{
  IsIndexed, SameTimers, load-ok, swapped, swap-ok, swapped-IsIndexed, swapped-SameTimers,
}

exchange-RiseHole :
    {B : Type 0} (a : List Timer) (i : ℕ)
    → RiseHole B a i
    → 0 < i
    → ¬ (due a (parent i) ≤ℤ due a i)
    → RiseHole B (exchange a (parent i) i blank) (parent i)
exchange-RiseHole a i v pos late =
    let size = length-exchange a (parent i) i blank in
    let at = λ (c : ℕ). get_or-exchange a (parent i) i c blank (omega (arith, v.inside)) v.inside in
    record {
      inside = omega (arith, size, v.inside);
      edges = λ c p q r s. ground (arith, size, at c, at (parent c), v.edges c, v.bridged c);
      bridged = λ c p q r s.
          ground (arith, size, at c, at (parent (parent i)), v.edges c, v.edges (parent i));
      below = λ b c p q r. ground (arith, size, at c, at (parent i), v.edges c);
    }

-- What `up` answers: the same timers, and the place from which `down` has to go on.
pub record Risen (B : Type 0) (e : ExpiryIndex) (r : ExpiryIndex × ℕ) : Type 0 where
  pub indexed : IsIndexed r.0
  pub same : SameTimers e r.0
  pub hole : SinkHole B r.0.heap r.1

SameTimers-refl : (e : ExpiryIndex) → SameTimers e e
SameTimers-refl e = record { size = refl; deadlines = λ k. refl }

SameTimers-trans : {a b c : ExpiryIndex} → SameTimers a b → SameTimers b c → SameTimers a c
SameTimers-trans p q = record {
  size = q.size ∙ p.size;
  deadlines = λ k. q.deadlines k ∙ p.deadlines k;
}

up_loop_restores :
    {B : Type 0} (fuel : ℕ) (e : ExpiryIndex) (i : ℕ)
    → i < fuel
    → IsIndexed e
    → RiseHole B e.heap i
    → Returns (Risen B e) (up_loop fuel e i)
unfolding up_loop
up_loop_restores zero e i f x v = absurd (omega arith)
up_loop_restores (suc fuel) e i f x v =
    let above : parent i < length e.heap = omega (arith, v.inside) in
    rw (load-ok e.heap i v.inside, load-ok e.heap (parent i) above)
      (Returns-branch (ltb 0 i)
        (λ pos.
          Returns-branch (leb_ℤ (due e.heap (parent i)) (due e.heap i))
            (λ settled. returned (record {
              indexed = x;
              same = SameTimers-refl e;
              hole = record {
                inside = v.inside;
                edges = λ c p q r. ground (arith, v.edges c);
                bridged = v.bridged;
                below = v.below;
              };
            }))
            (λ late. rw (swap-ok e (parent i) i above v.inside) (
              Returns-weaken
                (up_loop_restores fuel (swapped e (parent i) i) (parent i) (ground arith)
                  (swapped-IsIndexed e (parent i) i above v.inside x)
                  (exchange-RiseHole e.heap i v (ground arith) (ground arith)))
                λ r done. record {
                  indexed = done.indexed;
                  same =
                      SameTimers-trans (swapped-SameTimers e (parent i) i above v.inside x)
                        done.same;
                  hole = done.hole;
                })))
        (λ root. returned (record {
          indexed = x;
          same = SameTimers-refl e;
          hole = record {
            inside = v.inside;
            edges = λ c p q r. v.edges c p q (ground arith) r;
            bridged = v.bridged;
            below = v.below;
          };
        })))

pub up_restores :
    {B : Type 0} (e : ExpiryIndex) (i : ℕ)
    → IsIndexed e
    → RiseHole B e.heap i
    → Returns (Risen B e) (up e i)
unfolding up
up_restores e i x v = up_loop_restores (i + 1) e i (omega arith) x v

-- `m` is a child of `i`, and no child is due before it.
record IsEarlierChild (a : List Timer) (i m : ℕ) : Type 0 where
  least : (other : ℕ) → parent other ≡ i → 0 < other → other < length a → due a m ≤ℤ due a other
  child : (m ≡ i * 2 + 1) ⊎ (m ≡ i * 2 + 1 + 1)
  inside : m < length a

child_places : (c i : ℕ) → 0 < c → parent c ≡ i → (c ≡ i * 2 + 1) ⊎ (c ≡ i * 2 + 1 + 1)
child_places c i p q = omega arith

earlier_child-IsEarlierChild :
    (a : List Timer) (i : ℕ)
    → i * 2 + 1 < length a
    → Returns (IsEarlierChild a i) (earlier_child a i)
unfolding earlier_child
earlier_child-IsEarlierChild a i h =
    Returns-branch (ltb (i * 2 + 1 + 1) (length a))
      (λ both.
        rw (load-ok a (i * 2 + 1) h, load-ok a (i * 2 + 1 + 1) (ground arith))
          (returned (record {
            inside = ground arith;
            child = ground arith;
            least = λ c r p q. ground (arith, child_places c i p r);
          })))
      (λ one. returned (record {
        inside = h;
        child = omega arith;
        least = λ c r p q. ground (arith, child_places c i p r);
      }))

exchange-SinkHole :
    (a : List Timer) (i m : ℕ)
    → SinkHole ⊥ a i
    → IsEarlierChild a i m
    → ¬ (due a i ≤ℤ due a m)
    → SinkHole ⊥ (exchange a i m blank) m
exchange-SinkHole a i m v s late =
    let size = length-exchange a i m blank in
    let at = λ (c : ℕ). get_or-exchange a i m c blank v.inside s.inside in
    record {
      inside = omega (arith, size, s.inside);
      edges = λ c p q r. ground (
        arith,
        size,
        at c,
        at (parent c),
        v.edges c,
        v.bridged m,
        v.bridged c,
        s.child,
        s.least c,
      );
      bridged = λ c p q r t. ground (arith, size, at c, at (parent m), v.edges c, s.child);
      below = λ b. absurd b;
    }

SinkHole-IsHeap :
    (a : List Timer) (i : ℕ)
    → SinkHole ⊥ a i
    → ((c : ℕ) → 0 < c → c < length a → parent c ≡ i → due a i ≤ℤ due a c)
    → IsHeap a
SinkHole-IsHeap a i v low c p q = ground (arith, v.edges c p q, low c p q)

-- What `down` answers: the same timers, in order.
pub record Sunk (e : ExpiryIndex) (r : ExpiryIndex) : Type 0 where
  pub indexed : IsIndexed r
  pub same : SameTimers e r
  pub ordered : IsHeap r.heap

down_loop_restores :
    (fuel : ℕ) (e : ExpiryIndex) (i : ℕ)
    → length e.heap - i < fuel
    → IsIndexed e
    → SinkHole ⊥ e.heap i
    → Returns (Sunk e) (down_loop fuel e i)
unfolding down_loop
down_loop_restores zero e i f x v = absurd (omega arith)
down_loop_restores (suc fuel) e i f x v =
    Returns-branch (leb (length e.heap) (i * 2 + 1))
      (λ leaf. returned (record {
        indexed = x;
        same = SameTimers-refl e;
        ordered = SinkHole-IsHeap e.heap i v λ c p q r. absurd (ground arith);
      }))
      (λ more. Returns-then (earlier_child-IsEarlierChild e.heap i (ground arith)) λ m s.
        rw (load-ok e.heap i v.inside, load-ok e.heap m s.inside)
          (Returns-branch (leb_ℤ (due e.heap i) (due e.heap m))
            (λ settled. returned (record {
              indexed = x;
              same = SameTimers-refl e;
              ordered = SinkHole-IsHeap e.heap i v λ c p q r. ground (arith, s.least c r p q);
            }))
            (λ late. rw (swap-ok e i m v.inside s.inside) (
              Returns-weaken
                (down_loop_restores fuel (swapped e i m) m
                  (omega (arith, length-exchange e.heap i m blank, s.child, v.inside))
                  (swapped-IsIndexed e i m v.inside s.inside x)
                  (exchange-SinkHole e.heap i m v s (ground arith)))
                λ r done. record {
                  indexed = done.indexed;
                  same = SameTimers-trans (swapped-SameTimers e i m v.inside s.inside x) done.same;
                  ordered = done.ordered;
                }))))

pub down_restores :
    (e : ExpiryIndex) (i : ℕ) → IsIndexed e → SinkHole ⊥ e.heap i → Returns (Sunk e) (down e i)
unfolding down
down_restores e i x v = down_loop_restores (length e.heap + 1) e i (omega arith) x v
