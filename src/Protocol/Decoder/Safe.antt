-- ===== src/Protocol/Decoder/Safe.antt =====
-- `decode` answers on every input: no index is out of bounds, no subtraction goes below zero, and the
-- loop ends. What a request holds keeps the limits.
use mathlib.Core.Path.{subst}
use recall.Prelude.{
  ℕ, suc, ◌+◌, ◌-◌, ◌≤◌, ◌<◌, ◌≡◌, refl, ◌∙◌, ap, sym, false, not, Option, none, some, List, [],
  ◌∷◌, ◌++◌, Bytes, bytes_eq, arith, codes, ltb, leb, ◌==◌, length, length-append, length-take,
  length-drop, take, drop, Bool-cases, inl, inr,
}
use recall.Run.{
  panic, Answers, value, refused, Answers-then, Answers-branch, Answers-or_else, Answers-weaken,
  checked_minus-ok, or_else,
}
use recall.Protocol.{checked_add, and_then, crlf}
use recall.Protocol.Limits.{Limits}
use recall.Protocol.Decoder.{
  Decoder, Request, Progress, waiting, another, complete, fresh, collect, all_spans, decode_end,
  decode_body, decode_round,
}
use recall.Protocol.Decoder.Header.{slice-ok}
use recall.Protocol.Decoder.Parts.{
  IsSpans, IsCounted, IsMeasured, IsDecoding, IsSpans-append, IsSpans-later, HasCount, HasLength,
  decode_count-Answers, decode_length-Answers, left_over,
}

-- No argument is longer than the limit.
unfoldable pub AllWithin : ℕ → List Bytes → Type 0
AllWithin limit [] = Unit
AllWithin limit (a ∷ rest) = (length a ≤ limit) × AllWithin limit rest

collect-Answers :
    (limits : Limits) (cursor : ℕ) (input : Bytes) (spans : List (ℕ × ℕ))
    → IsSpans limits cursor spans
    → cursor ≤ length input
    → Answers
        (λ args. (length args ≡ length spans) × AllWithin limits.max_bulk_bytes args)
        (collect input spans)
unfolding collect IsSpans AllWithin
collect-Answers limits cursor input [] s h = value (refl, tt)
collect-Answers limits cursor input ((from, to) ∷ rest) s h =
    rw (slice-ok input from to s.0 (omega (arith, s.1))) (
      Answers-then (collect-Answers limits cursor input rest s.3 h) λ args x. value (
        ap suc x.0,
        (
          omega (
            arith,
            s.0,
            s.1,
            s.2,
            length-drop from input,
            length-take (to - from) (drop from input),
          ),
          x.1,
        ),
      ))

-- What a request promises: its arguments are some, not too many and not too long, and its bytes are
-- within the limit of a frame.
pub record IsRequest (limits : Limits) (r : Request) : Type 0 where
  pub some_argument : 0 < length r.arguments
  pub few : length r.arguments ≤ limits.max_arguments
  pub short : AllWithin limits.max_bulk_bytes r.arguments
  pub framed : r.wire_bytes ≤ limits.max_frame_bytes

-- What a round answers, from the place where it began.
pub data HasProgress (limits : Limits) (before : ℕ) (input : Bytes)
    : Progress × Decoder × Bytes → Type 0 where
  waited :
      (d : Decoder)
      → IsDecoding d input
      → d.limits ≡ limits
      → length input < limits.max_frame_bytes
      → HasProgress limits before input (waiting, d, input)
  went_on :
      (d : Decoder)
      → IsDecoding d input
      → d.limits ≡ limits
      → before < d.cursor
      → HasProgress limits before input (another, d, input)
  completed :
      (request : Request)
      → IsRequest limits request
      → before < request.wire_bytes
      → request.wire_bytes ≤ length input
      → HasProgress limits before input
          (complete request, fresh limits, drop request.wire_bytes input)

left_spans :
    {c : ℕ} (spans : List (ℕ × ℕ)) (o : Option ℕ)
    → o ≡ some c
    → (elim o [ none ↦ false | some count ↦ length spans == count ]) ≡ false
    → length spans ≤ c
    → length spans < c
left_spans spans none e h few = cc
left_spans spans (some b) e h few = ground (arith, e, h, few)

-- The end of a round that has read an argument, which may be the last.
decode_end-Answers :
    (d : Decoder) (input : Bytes) (c before : ℕ)
    → d.argument_count ≡ some c
    → 0 < length d.spans
    → length d.spans ≤ c
    → c ≤ d.limits.max_arguments
    → IsSpans d.limits d.cursor d.spans
    → d.cursor ≤ d.scan
    → d.scan ≤ length input
    → d.cursor ≤ d.limits.max_frame_bytes
    → before < d.cursor
    → Answers
        (HasProgress d.limits before input)
        (decode_end (record d { bulk_length = none }) input)
unfolding decode_end IsCounted IsMeasured
decode_end-Answers d input c before e some_one few most read same inside framed more =
    elim (Bool-cases (all_spans d)) [
      | inl all ↦ rw all (
          Answers-then (collect-Answers d.limits d.cursor input d.spans read (omega arith))
            λ args x.
              Answers-branch (leb d.cursor (length input))
                (λ b. value (
                  completed (record { arguments = args; wire_bytes = d.cursor })
                    (record {
                      some_argument = omega (arith, x.0);
                      few = omega (arith, x.0);
                      short = x.1;
                      framed = framed;
                    })
                    more (omega arith)))
                (λ b. absurd (ground (arith, b))))
      | inr left ↦ rw left (
          value (
            went_on (record d { bulk_length = none })
              (record {
                ordered = same;
                inside = inside;
                framed = framed;
                read = read;
                counted =
                    subst (IsCounted (record d { bulk_length = none })) (sym e)
                      (left_spans d.spans d.argument_count e left few, most);
                measured = tt;
              })
              refl more))
    ]

present : {n : ℕ} (o : Option ℕ) → o ≡ some n → Answers (λ x. x ≡ n) (or_else o panic)
present none e = cc
present (some m) e = value (ground (arith, e))

end_of :
    (a b e : ℕ) → and_then (checked_add a b) (λ end. checked_add end 2) ≡ some e → e ≡ a + b + 2
unfolding checked_add
end_of a b e h = ground (arith, h)

-- The third part of a round.
decode_body-Answers :
    (d : Decoder) (input : Bytes) (c n : ℕ)
    → IsDecoding d input
    → (length d.spans < c) × (c ≤ d.limits.max_arguments)
    → n ≤ d.limits.max_bulk_bytes
    → d.argument_count ≡ some c
    → d.bulk_length ≡ some n
    → Answers (HasProgress d.limits d.cursor input) (decode_body d input)
unfolding decode_body
decode_body-Answers d input c n v left fits e m = Answers-then (present d.bulk_length m) λ n' same.
    Answers-then
      (Answers-or_else (and_then (checked_add d.cursor n') (λ end. checked_add end 2))
        (codes "frame length overflow") (end_of d.cursor n'))
      λ end where_it_ends.
        Answers-branch (ltb d.limits.max_frame_bytes end) (λ long. refused _)
          λ framed.
            Answers-branch (ltb (length input) end)
              (λ short. value (waited d v refl (ground (arith, framed, short))))
              λ enough.
                let ends : end ≡ d.cursor + n + 2 = omega (arith, same, where_it_ends) in
                let here : d.cursor + n ≡ end - 2 = omega (arith, ends) in
                let inside : end ≤ length input = ground (arith, enough) in
                rw
                  (
                    checked_minus-ok end 2 (omega (arith, ends)),
                    slice-ok input (end - 2) end (omega arith) inside,
                  )
                  (Answers-branch
                    (not (bytes_eq (take (end - (end - 2)) (drop (end - 2) input)) crlf))
                    (λ bad. refused _)
                    λ good.
                      let spans = d.spans ++ (d.cursor, end - 2) ∷ [] in
                      let one_more : length spans ≡ length d.spans + 1 =
                        length-append d.spans ((d.cursor, end - 2) ∷ []) in
                      decode_end-Answers (record d { spans = spans; cursor = end; scan = end })
                        input c d.cursor e (omega (arith, one_more)) (omega (arith, one_more, left))
                        left.1
                        (IsSpans-append d.limits end d.cursor (end - 2) d.spans
                          (IsSpans-later d.limits d.cursor end d.spans (omega (arith, ends)) v.read)
                          (omega (arith, here)) (omega arith) (omega (arith, here, fits)))
                        (omega arith) inside (ground (arith, framed)) (omega (arith, ends)))

measured-fits :
    (limits : Limits) (o : Option ℕ) (n : ℕ)
    → IsMeasured limits o
    → o ≡ some n
    → n ≤ limits.max_bulk_bytes
unfolding IsMeasured
measured-fits limits none n h e = cc
measured-fits limits (some m) n h e = ground (arith, h, e)

-- A later start is a later end.
earlier :
    {limits : Limits} {a b : ℕ} {input : Bytes} {r : Progress × Decoder × Bytes}
    → a ≤ b
    → HasProgress limits b input r
    → HasProgress limits a input r
earlier h (waited d v s room) = waited d v s room
earlier h (went_on d v s later) = went_on d v s (omega arith)
earlier h (completed r x later inside) = completed r x (omega arith) inside

pub HasProgress-same :
    {l m : Limits} {a : ℕ} {input : Bytes} {r : Progress × Decoder × Bytes}
    → l ≡ m
    → HasProgress l a input r
    → HasProgress m a input r
HasProgress-same {a} {input} {r} e h = subst (λ l. HasProgress l a input r) e h

pub decode_round-Answers :
    (d : Decoder) (input : Bytes)
    → IsDecoding d input
    → Answers (HasProgress d.limits d.cursor input) (decode_round d input)
unfolding decode_round HasCount HasLength
decode_round-Answers d input v =
    Answers-then (decode_count-Answers d input v) λ (counted, d') (ahead, counts).
      Answers-branch (not counted)
        (λ stop. value (waited d' ahead.valid ahead.same (ahead.room (ground (arith, stop)))))
        λ go.
          let (c, e) = counts (ground (arith, go)) in
          Answers-then (decode_length-Answers d' input ahead.valid c e)
            λ (measured, d'') (further, e', measures).
              Answers-branch (not measured)
                (λ stop. value (
                  waited d'' further.valid (further.same ∙ ahead.same)
                    (rw (← ahead.same) (further.room (ground (arith, stop))))))
                λ on.
                  let (n, m) = measures (ground (arith, on)) in
                  Answers-weaken
                    (decode_body-Answers d'' input c n further.valid
                      (left_over d'' input further.valid c e')
                      (measured-fits d''.limits d''.bulk_length n further.valid.measured m) e' m)
                    λ r p.
                      HasProgress-same (further.same ∙ ahead.same)
                        (earlier (omega (arith, ahead.later, further.later)) p)
