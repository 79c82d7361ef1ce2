-- ===== src/Protocol/Decoder/Parts.antt =====
-- The first two parts of a round of `decode`, and what holds of a decoder in the middle of a frame.
use recall.Prelude.{
  ℕ, ◌+◌, ◌-◌, ◌≤◌, ◌<◌, ◌≡◌, refl, ap, sym, Bool, true, false, ◌||◌, Option, none, some, List, [],
  ◌∷◌, ◌++◌, Bytes, arith, codes, ltb, ◌==◌, if◌then◌else◌, length, Option-cases, inl, inr,
}
use mathlib.Core.Path.{subst}
use recall.Run.{ok, err, Answers, value, refused, Answers-then, Answers-branch, ◌>>=◌}
use recall.Protocol.Limits.{Limits}
use recall.Protocol.Decoder.{Decoder, length_header, decode_count, decode_length, advance_header}
use recall.Protocol.Decoder.Header.{
  HasScanned, found, missing, header_end-Answers, length_header-Answers,
}

-- The spans of the arguments lie before the cursor, and none is longer than the limit.
unfoldable pub IsSpans : Limits → ℕ → List (ℕ × ℕ) → Type 0
IsSpans limits cursor [] = Unit
IsSpans limits cursor ((from, to) ∷ rest) =
    (from ≤ to) × (to ≤ cursor) × (to - from ≤ limits.max_bulk_bytes) × IsSpans limits cursor rest

-- Before the number of arguments is known, nothing is read; after that, some arguments are left.
unfoldable pub IsCounted : Decoder → Option ℕ → Type 0
IsCounted d none = (d.spans ≡ []) × (d.bulk_length ≡ none)
IsCounted d (some count) = (length d.spans < count) × (count ≤ d.limits.max_arguments)

unfoldable pub IsMeasured : Limits → Option ℕ → Type 0
IsMeasured limits none = Unit
IsMeasured limits (some n) = n ≤ limits.max_bulk_bytes

-- A decoder in the middle of a frame.
pub record IsDecoding (d : Decoder) (input : Bytes) : Type 0 where
  pub ordered : d.cursor ≤ d.scan
  pub inside : d.scan ≤ length input
  pub framed : d.cursor ≤ d.limits.max_frame_bytes
  pub read : IsSpans d.limits d.cursor d.spans
  pub counted : IsCounted d d.argument_count
  pub measured : IsMeasured d.limits d.bulk_length

pub IsSpans-later :
    (limits : Limits) (a b : ℕ) (spans : List (ℕ × ℕ))
    → a ≤ b
    → IsSpans limits a spans
    → IsSpans limits b spans
unfolding IsSpans
IsSpans-later limits a b [] h s = tt
IsSpans-later limits a b (s ∷ rest) h x =
    (x.0, omega (arith, x.1), x.2, IsSpans-later limits a b rest h x.3)

pub IsSpans-append :
    (limits : Limits) (cursor from to : ℕ) (spans : List (ℕ × ℕ))
    → IsSpans limits cursor spans
    → from ≤ to
    → to ≤ cursor
    → to - from ≤ limits.max_bulk_bytes
    → IsSpans limits cursor (spans ++ (from, to) ∷ [])
unfolding IsSpans
IsSpans-append limits cursor from to [] s a b c = (a, b, c, tt)
IsSpans-append limits cursor from to (x ∷ rest) s a b c =
    (s.0, s.1, s.2, IsSpans-append limits cursor from to rest s.3 a b c)

-- What the first two parts of a round answer: the decoder, moved on, or a wait for input that the
-- frame has room for.
pub record IsAhead (d : Decoder) (input : Bytes) (r : Bool × Decoder) : Type 0 where
  pub valid : IsDecoding r.1 input
  pub same : r.1.limits ≡ d.limits
  pub later : d.cursor ≤ r.1.cursor
  pub room : r.0 ≡ false → length input < d.limits.max_frame_bytes

module _ (d : Decoder) (input : Bytes) (v : IsDecoding d input) where
  unfoldable pub HasCount : Bool × Decoder → Type 0
  HasCount r = IsAhead d input r × (r.0 ≡ true → (c : ℕ) × (r.1.argument_count ≡ some c))

  scanned : (s : ℕ) → d.scan ≤ s → s ≤ length input → IsDecoding (record d { scan = s }) input
  unfolding IsCounted
  scanned s h k = record {
    ordered = omega (arith, v.ordered);
    inside = k;
    framed = v.framed;
    read = v.read;
    counted = by_count d.argument_count v.counted;
    measured = v.measured;
  }
    where
      by_count : (o : Option ℕ) → IsCounted d o → IsCounted (record d { scan = s }) o
      by_count none h = h
      by_count (some c) h = h

  waits :
      (s : ℕ)
      → d.scan ≤ s
      → s ≤ length input
      → length input < d.limits.max_frame_bytes
      → IsAhead d input (false, record d { scan = s })
  waits s h k room = record {
    valid = scanned s h k;
    same = refl;
    later = omega arith;
    room = λ _. room;
  }

  no_spans : (o : Option ℕ) → IsCounted d o → o ≡ none → d.spans ≡ []
  unfolding IsCounted
  no_spans none h e = h.0
  no_spans (some c) h e = cc

  some_spans :
      {c : ℕ} (o : Option ℕ)
      → IsCounted d o
      → o ≡ some c
      → (length d.spans < c) × (c ≤ d.limits.max_arguments)
  unfolding IsCounted
  some_spans none h e = cc
  some_spans (some b) h e = ground (arith, h, e)

  stays : IsAhead d input (true, d)
  stays = record { valid = v; same = refl; later = omega arith; room = λ h. absurd cc }

  decode_count-found :
      (r : Option ℕ × Decoder)
      → d.argument_count ≡ none
      → HasScanned d input r
      → Answers HasCount (elim r.0 [
        | none ↦ ok (false, r.1)
        | some end ↦ do
          count ← length_header r.1 input end b'*'
          if count == 0 || ltb r.1.limits.max_arguments count
              then err (codes "invalid or excessive argument count")
              else ok (true, advance_header (record r.1 { argument_count = some count }) end)
      ])
  unfolding HasCount IsCounted
  decode_count-found r e (missing s a i b c) = value (waits s a (i v.inside) c, λ h. absurd cc)
  decode_count-found r e (found end a b c) =
      Answers-then (length_header-Answers (record d { scan = end }) input end b'*' (omega arith))
        λ count _.
          Answers-branch (count == 0 || ltb d.limits.max_arguments count) (λ bad. refused _)
            λ good.
              let none_read : length d.spans ≡ 0 =
                ap length (no_spans d.argument_count v.counted e) in
              let ahead : IsAhead d input (
                true,
                advance_header (record d { scan = end; argument_count = some count }) end,
              ) =
                record {
                  valid = record {
                    ordered = omega arith;
                    inside = b;
                    framed = c;
                    read =
                        IsSpans-later d.limits d.cursor (end + 2) d.spans (omega (arith, v.ordered))
                          v.read;
                    counted = (ground (arith, none_read, good), ground (arith, good));
                    measured = v.measured;
                  };
                  same = refl;
                  later = omega (arith, v.ordered);
                  room = λ h. absurd cc;
                } in
              value (ahead, λ _. (count, refl))

  pub decode_count-Answers : Answers HasCount (decode_count d input)
  unfolding decode_count HasCount
  decode_count-Answers = elim (Option-cases d.argument_count) [
    | inl e ↦
        rw (e, decode_count)
          (Answers-then (header_end-Answers d input v.ordered) λ r h. decode_count-found r e h)
    | inr (c, e) ↦ rw (e, decode_count) (value (stays, λ _. (c, e)))
  ]

  module _ (c : ℕ) (e : d.argument_count ≡ some c) where
    pub left_over : (length d.spans < c) × (c ≤ d.limits.max_arguments)
    left_over = some_spans d.argument_count v.counted e

    unfoldable pub HasLength : Bool × Decoder → Type 0
    HasLength r =
        IsAhead d input r
        × (r.1.argument_count ≡ some c)
        × (r.0 ≡ true → (n : ℕ) × (r.1.bulk_length ≡ some n))

    decode_length-found :
        (r : Option ℕ × Decoder)
        → HasScanned d input r
        → Answers HasLength (elim r.0 [
          | none ↦ ok (false, r.1)
          | some end ↦ do
            count ← length_header r.1 input end b'$'
            if ltb r.1.limits.max_bulk_bytes count
                then err (codes "bulk argument exceeds configured limit")
                else ok (true, record (advance_header r.1 end) { bulk_length = some count })
        ])
    unfolding HasLength IsMeasured IsCounted
    decode_length-found r (missing s a i b room) =
        value (waits s a (i v.inside) room, e, λ h. absurd cc)
    decode_length-found r (found end a b room) =
        Answers-then (length_header-Answers (record d { scan = end }) input end b'$' (omega arith))
          λ count _.
            Answers-branch (ltb d.limits.max_bulk_bytes count) (λ bad. refused _)
              λ good.
                let ahead : IsAhead d input
                    (true, record (advance_header d end) { bulk_length = some count }) =
                  record {
                    valid = record {
                      ordered = omega arith;
                      inside = b;
                      framed = room;
                      read =
                          IsSpans-later d.limits d.cursor (end + 2) d.spans
                            (omega (arith, v.ordered)) v.read;
                      counted =
                          subst
                            (λ o.
                              IsCounted (record (advance_header d end) { bulk_length = some count })
                                o)
                            (sym e) left_counted;
                      measured = ground (arith, good);
                    };
                    same = refl;
                    later = omega (arith, v.ordered);
                    room = λ h. absurd cc;
                  } in
                value (ahead, e, λ _. (count, refl))
      where
        left_counted : (length d.spans < c) × (c ≤ d.limits.max_arguments)
        left_counted = left_over

    pub decode_length-Answers : Answers HasLength (decode_length d input)
    unfolding decode_length HasLength
    decode_length-Answers = elim (Option-cases d.bulk_length) [
      | inl m ↦
          rw (m, decode_length)
            (Answers-then (header_end-Answers d input v.ordered) λ r h. decode_length-found r h)
      | inr (n, m) ↦ rw (m, decode_length) (value (stays, e, λ _. (n, m)))
    ]
