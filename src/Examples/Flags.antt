-- ===== src/Examples/Flags.antt =====
-- A plan with two signals.
use swift_proof.Prelude.{List, String, [], any, map, refl, true, ◌&&◌, ◌∷◌, ◌≡◌}
use swift_proof.Prelude.Int.{pos}
use swift_proof.Texts.{has}
use swift_proof.Model.{Signal}
use swift_proof.Categories.{categorize, category_of, category_order, raises}
use swift_proof.Categories.Flagged.{categorize_lem, category, flags, ids_of}

abbrev plan_signal : String → String → String → Signal
plan_signal id kind severity = record {
  id = id;
  kind = kind;
  path = "a.go";
  line = pos 1;
  side = "base";
  scope = "";
  symbol = "";
  severity = severity;
  summary = "";
  evidence = "";
}

abbrev raised : List Signal
raised =
    plan_signal "s-1" "plan_wide_impact" "medium"
    ∷ plan_signal "s-2" "plan_file_deletion" "low"
    ∷ []

raised_test : (categorize raised).1 ≡ true
unfolding categorize
raised_test = refl

categorize_lem_example :
    ((categorize raised).0
      ≡ map (λ n. category n (any (flags n) raised) (ids_of n raised)) category_order)
    × ((categorize raised).1 ≡ any (λ s. has (category_of s) category_order && raises s) raised)
categorize_lem_example = categorize_lem raised
