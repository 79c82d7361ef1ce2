-- ===== src/Engine/Tests.antt =====
-- A split by the length of the key, and the theorem on it.
use recall.Prelude.{arith, ◌≡◌, refl, [], ◌∷◌, codes, length}
use recall.Run.{ok}
use recall.Command.{Operation}
use recall.Engine.{split, split_keys, group, push, enumerate, route}
use recall.Engine.Routed.{SplitWell, split-SplitWell}

abbrev three_keys : Operation
three_keys = Operation.multi_get (codes "ab" ∷ codes "c" ∷ codes "de" ∷ [])

three_keys-split :
    split three_keys length 2
    ≡ ok (
        record {
          owner = 0;
          operation = Operation.multi_get (codes "ab" ∷ codes "de" ∷ []);
          positions = 0 ∷ 2 ∷ [];
        }
        ∷ record { owner = 1; operation = Operation.multi_get (codes "c" ∷ []); positions = 1 ∷ [] }
        ∷ [])
unfolding split split_keys group push enumerate route
three_keys-split = refl

split-SplitWell_example : SplitWell length 2 three_keys (split three_keys length 2)
split-SplitWell_example = split-SplitWell length 2 three_keys (omega arith)
