-- ===== src/Condition/Keywords.antt =====
-- condition.py: a property that is spelled like a keyword, as the argument of an adapter's query may
-- be. A condition may name it in double quotes; `str` and `eq` write it without them.
use openrois.Common.{suc, ◌≡◌, refl, true, List, [], arith, append-nil, length, Text, err}
use openrois.Condition.Syntax.{Comparison, expected_property}
use openrois.Condition.Tokens.{tokens}
use openrois.Condition.Parse.{
  is_keyword, property_name, comparison_of, first_comparison, parse_condition,
}
use openrois.Condition.Print.{print_comparison}
use openrois.Condition.Lexing.{
  is_identifier, Lexes, Lexes-nil, end_at, comparison_tokens, comparison-Lexes,
}

-- A keyword at the place of a property is refused, so what `str` writes for a comparison of such a
-- property is not read back, whatever properties the method supports.
pub parse_condition-keyword :
    (allowed : List Text) (c : Comparison)
    → is_identifier c.property ≡ true
    → is_keyword c.property ≡ true
    → parse_condition (print_comparison c) allowed ≡ err (expected_property 0)
unfolding parse_condition tokens
parse_condition-keyword allowed c h k =
    rw (printed_lexes (suc (length (print_comparison c))) (omega arith))
      (unfold first_comparison comparison_of property_name in rw k refl)
  where
    printed_lexes : Lexes 0 (print_comparison c) (comparison_tokens 0 c)
    printed_lexes = rw append-nil at (comparison-Lexes 0 c [] [] h refl (Lexes-nil (end_at 0 c)))
