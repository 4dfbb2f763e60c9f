-- ===== src/Condition/Parse.antt =====
-- condition.py: `parse_condition`, and `matches` of a comparison and of a condition.
use openrois.Common.{
  Bool, true, false, ◌&&◌, ◌||◌, none, some, List, [], ◌∷◌, if◌then◌else◌, any, Text, codes,
  text_eq, upper, Result, ok, err, ◌>>=◌, ◌==◌,
}
use openrois.Common.Dict
use openrois.Common.Dict.{Dict}
use openrois.Condition.Syntax.{
  Operator, equal, like, Comparison, Condition, ConditionError, not_in_subset, expected_and,
  incomplete_comparison, expected_property, unsupported_property, expected_operator,
  expected_literal,
}
use openrois.Condition.Tokens.{Kind, literal, quoted, word, equals, Token, quote_mark, tokens}
use openrois.Condition.Like.{like_regex, full_match}

-- `x in xs`
unfoldable pub mem_text : Text → List Text → Bool
mem_text t = any (λ x. text_eq x t)

unfoldable pub drop_last : Text → Text
drop_last [] = []
drop_last (c ∷ []) = []
drop_last (c ∷ d ∷ s) = c ∷ drop_last (d ∷ s)

-- `value[1:-1]`
unfoldable pub inner : Text → Text
unfolding drop_last
inner [] = []
inner (c ∷ s) = drop_last s

-- `value.replace("''", "'")`
unfoldable pub undouble : Text → Text
undouble [] = []
undouble (c ∷ []) = c ∷ []
undouble (c ∷ d ∷ s) =
    let after_pair = undouble s in
    let after_one = undouble (d ∷ s) in
    if c == quote_mark && d == quote_mark then quote_mark ∷ after_pair else c ∷ after_one

-- the words that are no property names
unfoldable pub is_keyword : Text → Bool
is_keyword value =
    text_eq (upper value) (codes "AND")
    || text_eq (upper value) (codes "LIKE")
    || text_eq (upper value) (codes "OR")
    || text_eq (upper value) (codes "NOT")

-- `c.operator == "="`
unfoldable pub is_equal : Operator → Bool
is_equal equal = true
is_equal like = false

-- the name that the first token of a comparison gives
unfoldable pub property_name : Kind → Token → Result ConditionError Text
property_name quoted t = ok (inner t.value)
property_name word t = if is_keyword t.value then err (expected_property t.position) else ok t.value
property_name _ t = err (expected_property t.position)

unfoldable pub operator_of : Kind → Token → Result ConditionError Operator
operator_of equals t = ok equal
operator_of word t =
    if text_eq (upper t.value) (codes "LIKE") then ok like else err (expected_operator t.position)
operator_of _ t = err (expected_operator t.position)

unfoldable pub literal_of : Kind → Token → Result ConditionError Text
literal_of literal t = ok (undouble (inner t.value))
literal_of _ t = err (expected_literal t.position)

-- `if operator == "LIKE": _like_regex(literal)`
unfoldable pub check_pattern : Operator → Text → Result ConditionError (Unit {0})
check_pattern equal value = ok tt
check_pattern like value = do _ ← like_regex value; ok tt

abbrev pub check_supported : Text → List Text → Result ConditionError (Unit {0})
check_supported name allowed =
    if mem_text name allowed then ok tt else err (unsupported_property name)

-- One round of the loop of `parse_condition`, behind the AND.
unfoldable pub comparison_of : List Text → Token → Token → Token → Result ConditionError Comparison
comparison_of allowed p o l = do
  name ← property_name p.kind p
  _ ← check_supported name allowed
  operator ← operator_of o.kind o
  value ← literal_of l.kind l
  _ ← check_pattern operator value
  ok (record { property = name; operator = operator; value = value })

-- the test of the token between two comparisons
unfoldable pub and_joins : Kind → Token → Result ConditionError (Unit {0})
and_joins word t =
    if text_eq (upper t.value) (codes "OR") || text_eq (upper t.value) (codes "NOT")
    then err (not_in_subset t.position)
    else if text_eq (upper t.value) (codes "AND")
    then ok tt
    else err (expected_and t.position)
and_joins _ t = err (expected_and t.position)

-- the rounds with `comparisons` not empty
unfoldable pub later_comparisons : List Text → List Token → Result ConditionError Condition
later_comparisons allowed [] = ok []
later_comparisons allowed (j ∷ p ∷ o ∷ l ∷ rest) = do
  _ ← and_joins j.kind j
  comparison ← comparison_of allowed p o l
  later ← later_comparisons allowed rest
  ok (comparison ∷ later)
later_comparisons allowed (j ∷ rest) = do _ ← and_joins j.kind j; err incomplete_comparison

unfoldable pub first_comparison : List Text → List Token → Result ConditionError Condition
first_comparison allowed [] = ok []
first_comparison allowed (p ∷ o ∷ l ∷ rest) = do
  comparison ← comparison_of allowed p o l
  later ← later_comparisons allowed rest
  ok (comparison ∷ later)
first_comparison allowed _ = err incomplete_comparison

unfoldable pub parse_condition : Text → List Text → Result ConditionError Condition
parse_condition text allowed = do found ← tokens text; first_comparison allowed found

-- the test of `Comparison.matches` on a value that is there
unfoldable pub holds : Operator → Text → Text → Result ConditionError Bool
holds equal value actual = ok (text_eq actual value)
holds like value actual = do parts ← like_regex value; ok (full_match parts actual)

-- `Comparison.matches`
unfoldable pub comparison_matches : Comparison → Dict Text → Result ConditionError Bool
comparison_matches c properties = elim (Dict.get c.property properties) [
  | none ↦ ok false
  | some actual ↦ holds c.operator c.value actual
]

-- `Condition.matches`: `all` stops at the first comparison that fails.
unfoldable pub condition_matches : Condition → Dict Text → Result ConditionError Bool
condition_matches [] properties = ok true
condition_matches (c ∷ condition) properties =
    let later = condition_matches condition properties in
    do held ← comparison_matches c properties; if held then later else ok false

-- `Condition.equal_values`
unfoldable pub equal_values : Condition → Text → List Text
equal_values [] name = []
equal_values (c ∷ condition) name =
    let later = equal_values condition name in
    if text_eq c.property name && is_equal c.operator then c.value ∷ later else later
