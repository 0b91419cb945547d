-- ===== src/Tests/Segmentation.antt =====
-- A segment of two rules, one of them on a fact that can be lost.
use atlas_erpbackend.Prelude.{ℕ, ◌≡◌, ◌↔◌, refl, Bool, true, some, [], ◌∷◌, leb, ◌==◌}
use atlas_erpbackend.Text.{Text, codes, text_eq, to_upper, trim, is_space}
use atlas_erpbackend.Text.Decimal.{print, read}
use atlas_erpbackend.Segmentation.{
  Language, text, number, many, not_in, between, match_all, SegmentDefinition, FactContext, single,
  text_kind, number_kind, same_value, matches_any, is_between, evaluate_rule, matches_definition,
}
use atlas_erpbackend.Segmentation.Schema.{Vocabulary, definition_issues}
use atlas_erpbackend.Segmentation.Closed.{forget, matches_definition-forget}
use atlas_erpbackend.Segmentation.Shape.{AreShaped, definition_issues-AreShaped}

-- Naturals for the numbers, and one case of letters.
abbrev spoken : Language
spoken = record {
  Number = ℕ;
  number_of = read;
  print_number = print;
  same = λ a b. a == b;
  at_most = leb;
  is_finite = λ n. true;
  to_lower_case = to_upper;
}

abbrev segment : SegmentDefinition ℕ
segment = record {
  match = match_all;
  rules =
      record {
        attribute = codes "rubro";
        operator = not_in;
        value = many (text (codes "farmacia") ∷ []);
      }
      ∷ record {
        attribute = codes "ventas";
        operator = between;
        value = many (number 10 ∷ number 20 ∷ []);
      }
      ∷ [];
}

abbrev known_facts : FactContext ℕ
known_facts =
    (codes "rubro", single (text (codes "Libros")))
    ∷ (codes "ciudad", single (text (codes "La Paz")))
    ∷ (codes "ventas", single (number 15))
    ∷ []

abbrev is_city : Text → Bool
is_city name = text_eq name (codes "ciudad")

without_city : matches_definition spoken (some segment) (some (forget is_city known_facts)) ≡ true
unfolding matches_definition evaluate_rule matches_any same_value is_between trim is_space to_upper
without_city = refl

matches_definition-forget_example :
    matches_definition spoken (some segment) (some known_facts) ≡ true
matches_definition-forget_example =
    matches_definition-forget spoken is_city (some segment) known_facts without_city

abbrev attributes : Vocabulary
attributes = (codes "rubro", text_kind) ∷ (codes "ventas", number_kind) ∷ []

definition_issues-AreShaped_example :
    (definition_issues spoken attributes segment ≡ []) ↔ AreShaped spoken attributes segment.rules
definition_issues-AreShaped_example = definition_issues-AreShaped spoken attributes segment
