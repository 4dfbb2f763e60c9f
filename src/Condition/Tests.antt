-- ===== src/Condition/Tests.antt =====
-- condition.py: runs, and the theorems at concrete conditions.
use openrois.Common.{
  ◌≡◌, refl, ◌↔◌, true, List, [], ◌∷◌, All, all, any, Text, codes, text_eq, upper, is_space, ok,
  err,
}
use openrois.Common.Dict
use openrois.Common.Dict.{Dict}
use openrois.Condition.Syntax.{
  equal, like, Comparison, expected_property, unterminated, selection_properties,
  component_ref_property,
}
use openrois.Condition.Tokens.{
  tokens, token_loop, next_token, read_token, skip_spaces, is_blank, word_chars, literal_chars,
  quoted_chars, closing_quote, is_word_start, is_word_char,
}
use openrois.Condition.Like.{like_loop, like_regex, full_match}
use openrois.Condition.Parse.{
  mem_text, drop_last, inner, undouble, is_keyword, property_name, operator_of, literal_of,
  check_pattern, comparison_of, and_joins, later_comparisons, first_comparison, parse_condition,
  holds, comparison_matches, condition_matches,
}
use openrois.Condition.Print.{print_comparison, print_condition}
use openrois.Condition.RoundTrip.{IsPrintable, parse_condition-print_condition}
use openrois.Condition.Accepts.{
  IsAccepted, parse_condition-IsAccepted, Answers, Holds, parse_condition-Answers,
}
use openrois.Condition.Patterns.{Like, holds-Like}
use openrois.Condition.Fuel.{Ends, parse_condition-Ends}
use openrois.Condition.Keywords.{parse_condition-keyword}

-- component_ref LIKE 'r/%' AND stream_id = 'it''s'
abbrev stream_id : Text
stream_id = codes "stream_id"

abbrev supported : List Text
supported = component_ref_property ∷ stream_id ∷ codes "not" ∷ []

abbrev on_robot : Comparison
on_robot = record { property = component_ref_property; operator = like; value = codes "r/%" }

abbrev its : Comparison
its = record { property = stream_id; operator = equal; value = codes "it's" }

on_robot-IsPrintable : IsPrintable supported on_robot
unfolding is_word_start is_word_char all is_keyword upper text_eq mem_text any check_pattern
    like_regex like_loop
on_robot-IsPrintable = record {
  identifier = refl;
  plain = refl;
  supported = refl;
  pattern_fits = refl;
}

its-IsPrintable : IsPrintable supported its
unfolding is_word_start is_word_char all is_keyword upper text_eq mem_text any check_pattern
its-IsPrintable = record { identifier = refl; plain = refl; supported = refl; pattern_fits = refl }

parse_condition-print_condition_example :
    parse_condition (print_condition (on_robot ∷ its ∷ [])) supported ≡ ok (on_robot ∷ its ∷ [])
parse_condition-print_condition_example =
    parse_condition-print_condition supported (on_robot ∷ its ∷ [])
      (on_robot-IsPrintable, (its-IsPrintable, tt))

-- the text with odd white space and the keywords in lower case
abbrev spaced : Text
spaced = codes " component_ref like 'r/%'  and stream_id='it''s' "

spaced_parses : parse_condition spaced supported ≡ ok (on_robot ∷ its ∷ [])
unfolding parse_condition tokens token_loop next_token read_token skip_spaces is_blank is_space
    word_chars literal_chars is_word_start is_word_char first_comparison later_comparisons
    comparison_of property_name operator_of literal_of check_pattern like_regex like_loop mem_text
    any text_eq upper is_keyword inner drop_last undouble and_joins
spaced_parses = refl

parse_condition-IsAccepted_example : All (IsAccepted supported) (on_robot ∷ its ∷ [])
parse_condition-IsAccepted_example =
    parse_condition-IsAccepted supported spaced (on_robot ∷ its ∷ []) spaced_parses

abbrev robot_properties : Dict Text
robot_properties = (component_ref_property, codes "r/nav") ∷ (stream_id, codes "it's") ∷ []

parse_condition-Answers_example :
    Answers
      (All (Holds robot_properties) (on_robot ∷ its ∷ []))
      (condition_matches (on_robot ∷ its ∷ []) robot_properties)
parse_condition-Answers_example =
    parse_condition-Answers robot_properties spaced supported (on_robot ∷ its ∷ []) spaced_parses

matches_robot : condition_matches (on_robot ∷ its ∷ []) robot_properties ≡ ok true
unfolding condition_matches comparison_matches holds Dict.get text_eq like_regex like_loop
    full_match
matches_robot = refl

holds-Like_example :
    (holds like (codes "_%/nav") (codes "r/nav") ≡ ok true) ↔ Like (codes "_%/nav") (codes "r/nav")
holds-Like_example = holds-Like (codes "_%/nav") (codes "r/nav")

parse_condition-Ends_example :
    Ends (parse_condition (codes "component_ref = 'r") selection_properties)
parse_condition-Ends_example =
    parse_condition-Ends selection_properties (codes "component_ref = 'r")

unterminated_literal :
    parse_condition (codes "component_ref = 'r''") selection_properties ≡ err (unterminated 19)
unfolding parse_condition tokens token_loop next_token read_token skip_spaces is_blank is_space
    word_chars literal_chars is_word_start is_word_char
unterminated_literal = refl

abbrev negated : Comparison
negated = record { property = codes "not"; operator = equal; value = codes "x" }

-- in double quotes the keyword is a property
quoted_keyword : parse_condition (codes "\"not\" = 'x'") supported ≡ ok (negated ∷ [])
unfolding parse_condition tokens token_loop next_token read_token skip_spaces is_blank is_space
    word_chars quoted_chars closing_quote literal_chars is_word_start is_word_char first_comparison
    later_comparisons comparison_of property_name operator_of literal_of check_pattern mem_text any
    text_eq upper is_keyword inner drop_last undouble
quoted_keyword = refl

parse_condition-keyword_example :
    parse_condition (print_comparison negated) supported ≡ err (expected_property 0)
unfolding is_word_start is_word_char all is_keyword upper text_eq
parse_condition-keyword_example = parse_condition-keyword supported negated refl refl
