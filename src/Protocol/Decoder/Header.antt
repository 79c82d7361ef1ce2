-- ===== src/Protocol/Decoder/Header.antt =====
-- `header_end` and `length_header`: they end, read no index out of bounds, and find a line of the
-- input.
use recall.Prelude.{
  ℕ, zero, suc, ◌+◌, ◌-◌, ◌≤◌, ◌<◌, ◌≡◌, refl, not, ◌&&◌, ◌||◌, Option, none, some, List, [], ◌∷◌,
  Bytes, arith, ltb, leb, ◌==◌, length, take, drop, get_elem?,
}
use recall.Run.{
  Run, ok, Answers, value, refused, Answers-then, Answers-branch, Answers-or_else, Answers-weaken,
  checked_minus-ok, at,
}
use recall.Protocol.Decoder.{
  Decoder, slice, header_step, header_loop, header_end, push_digit, read_length, length_header,
}

pub at-Answers {ℓ} :
    {V : Type ℓ} (xs : List V) (i : ℕ)
    → i < length xs
    → Answers (λ v. get_elem? xs i ≡ some v) (at xs i)
at-Answers [] i h = absurd (omega arith)
at-Answers (x ∷ xs) zero h = value refl
at-Answers (x ∷ xs) (suc i) h = at-Answers xs i (omega arith)

pub slice-ok :
    (input : Bytes) (from to : ℕ)
    → from ≤ to
    → to ≤ length input
    → slice input from to ≡ ok (take (to - from) (drop from input))
unfolding slice
slice-ok input from to h k = ground arith

-- What a round of `header_end` may answer.
HasStepped : Decoder → Bytes → Option (Option ℕ) → Type 0
HasStepped d input none = d.scan + 2 ≤ length input
HasStepped d input (some none) =
    (length input ≤ d.scan + 1) × (length input < d.limits.max_frame_bytes)
HasStepped d input (some (some end)) =
    (end ≡ d.scan) × (d.scan + 2 ≤ length input) × (d.scan + 2 ≤ d.limits.max_frame_bytes)

header_step-Answers :
    (d : Decoder) (input : Bytes)
    → d.cursor ≤ d.scan
    → Answers (HasStepped d input) (header_step d input)
unfolding header_step HasStepped
header_step-Answers d input h =
    Answers-branch (ltb (d.scan + 1) (length input))
      (λ more. rw (checked_minus-ok d.scan d.cursor h) (
        Answers-branch
          (ltb d.limits.max_header_bytes (d.scan - d.cursor + 2)
            || ltb d.limits.max_frame_bytes (d.scan + 2))
          (λ long. refused _)
          λ fits. Answers-then (at-Answers input d.scan (ground arith)) λ here _.
            Answers-then (at-Answers input (d.scan + 1) (ground arith)) λ after _.
              Answers-branch (here == 13 && after == 10)
                (λ ends. value (refl, ground arith, ground arith))
                λ b. Answers-branch (here == 10) (λ bad. refused _) (λ go. value (ground arith))))
      λ stop.
        Answers-branch
          (leb d.limits.max_header_bytes (length input - d.cursor)
            || leb d.limits.max_frame_bytes (length input))
          (λ long. refused _) (λ short. value (ground arith, ground arith))

-- What `header_end` answers: the decoder with the scan moved on, at the end of the line or near the
-- end of the input.
pub data HasScanned (d : Decoder) (input : Bytes) : Option ℕ × Decoder → Type 0 where
  found :
      (end : ℕ)
      → d.scan ≤ end
      → end + 2 ≤ length input
      → end + 2 ≤ d.limits.max_frame_bytes
      → HasScanned d input (some end, record d { scan = end })
  missing :
      (s : ℕ)
      → d.scan ≤ s
      → (d.scan ≤ length input → s ≤ length input)
      → length input ≤ s + 1
      → length input < d.limits.max_frame_bytes
      → HasScanned d input (none, record d { scan = s })

moved_on :
    {d : Decoder} {input : Bytes} {r : Option ℕ × Decoder}
    → d.scan + 2 ≤ length input
    → HasScanned (record d { scan = d.scan + 1 }) input r
    → HasScanned d input r
moved_on h (found end a b c) = found end (omega arith) b c
moved_on h (missing s a i b c) = missing s (omega arith) (λ k. i (omega arith)) b c

loop_end :
    (d : Decoder) (input : Bytes) (next : Run (Option ℕ × Decoder)) (answer : Option (Option ℕ))
    → HasStepped d input answer
    → (d.scan + 2 ≤ length input → Answers (HasScanned (record d { scan = d.scan + 1 }) input) next)
    → Answers (HasScanned d input) (elim answer [ some end ↦ ok (end, d) | none ↦ next ])
unfolding HasStepped
loop_end d input next none step ih = Answers-weaken (ih step) λ r p. moved_on step p
loop_end d input next (some none) step ih =
    value (missing d.scan (omega arith) (λ k. k) step.0 step.1)
loop_end d input next (some (some end)) step ih =
    rw step.0 (value (found d.scan (omega arith) step.1 step.2))

header_loop-Answers :
    (fuel : ℕ) (d : Decoder) (input : Bytes)
    → length input - d.scan < fuel
    → d.cursor ≤ d.scan
    → Answers (HasScanned d input) (header_loop fuel d input)
unfolding header_loop
header_loop-Answers zero d input f h = absurd (omega arith)
header_loop-Answers (suc fuel) d input f h =
    Answers-then (header_step-Answers d input h) λ answer step.
      loop_end d input (header_loop fuel (record d { scan = d.scan + 1 }) input) answer step
        (λ more.
          header_loop-Answers fuel (record d { scan = d.scan + 1 }) input (omega arith)
            (omega arith))

-- `header_end` answers with the end of a line, with nothing near the end of the input, or with an
-- error.
pub header_end-Answers :
    (d : Decoder) (input : Bytes)
    → d.cursor ≤ d.scan
    → Answers (HasScanned d input) (header_end d input)
unfolding header_end
header_end-Answers d input h = header_loop-Answers (length input + 1) d input (omega arith) h

read_length-Answers : (digits : Bytes) (n : ℕ) → Answers (λ _. Unit {0}) (read_length digits n)
unfolding read_length
read_length-Answers [] n = value tt
read_length-Answers (digit ∷ rest) n =
    Answers-branch (leb 48 digit && leb digit 57)
      (λ b.
        Answers-then {P = λ _. Unit {0}} (Answers-or_else (push_digit n digit) _ λ v e. tt)
          λ n' _. read_length-Answers rest n')
      (λ b. refused _)

pub length_header-Answers :
    (d : Decoder) (input : Bytes) (end prefix : ℕ)
    → end ≤ length input
    → Answers (λ _. Unit {0}) (length_header d input end prefix)
unfolding length_header
length_header-Answers d input end prefix h =
    Answers-branch (leb end (d.cursor + 1)) (λ b. refused _)
      λ b. Answers-then (at-Answers input d.cursor (ground arith)) λ first _.
        Answers-branch (not (first == prefix)) (λ c. refused _)
          λ c. rw (slice-ok input (d.cursor + 1) end (ground arith) h) (read_length-Answers _ 0)
