-- ===== src/Condition/Print.antt =====
-- condition.py: `str` of a comparison and of a condition, and the functions that build conditions.
use openrois.Common.{List, [], ◌∷◌, ◌++◌, ◌==◌, if◌then◌else◌, Text, codes}
use openrois.Condition.Syntax.{
  Operator, equal, like, Comparison, Condition, component_ref_property, component_type_property,
}
use openrois.Condition.Tokens.{quote_mark, is_blank}

-- `value.replace("'", "''")`
unfoldable pub double_quotes : Text → Text
double_quotes [] = []
double_quotes (c ∷ s) = if c == quote_mark then c ∷ c ∷ double_quotes s else c ∷ double_quotes s

unfoldable pub quote : Text → Text
unfolding double_quotes
quote value = quote_mark ∷ (double_quotes value ++ quote_mark ∷ [])

unfoldable pub operator_text : Operator → Text
operator_text equal = codes "="
operator_text like = codes "LIKE"

-- `Comparison.__str__`
unfoldable pub print_comparison : Comparison → Text
unfolding quote operator_text
print_comparison c = c.property ++ (b' ' ∷ (operator_text c.operator ++ (b' ' ∷ quote c.value)))

-- `" AND ".join`, of the texts behind the first one
unfoldable pub join_later : List Text → Text
join_later [] = []
join_later (t ∷ later) = codes " AND " ++ (t ++ join_later later)

unfoldable pub join_and : List Text → Text
unfolding join_later
join_and [] = []
join_and (t ∷ later) = t ++ join_later later

unfoldable pub print_all : Condition → List Text
unfolding print_comparison
print_all [] = []
print_all (c ∷ condition) = print_comparison c ∷ print_all condition

-- `Condition.__str__`
unfoldable pub print_condition : Condition → Text
unfolding join_and print_all
print_condition condition = join_and (print_all condition)

-- `eq` and `like`
unfoldable pub eq_condition : Text → Text → Text
unfolding print_comparison
eq_condition property value =
    print_comparison (record { property = property; operator = equal; value = value })

unfoldable pub like_condition : Text → Text → Text
unfolding print_comparison
like_condition property pattern =
    print_comparison (record { property = property; operator = like; value = pattern })

unfoldable pub not_blank : List Text → List Text
not_blank [] = []
not_blank (t ∷ texts) = if is_blank t then not_blank texts else t ∷ not_blank texts

unfoldable pub all_of : List Text → Text
unfolding join_and not_blank
all_of conditions = join_and (not_blank conditions)

unfoldable pub component_ref : Text → Text
unfolding eq_condition
component_ref ref = eq_condition component_ref_property ref

-- `component_type_urn` of the identifier with this authority and code
unfoldable pub component_type_urn : Text → Text → Text
component_type_urn authority code =
    codes "urn:x-rois:def:component:" ++ (authority ++ (codes "::" ++ code))

unfoldable pub component_type : Text → Text → Text
unfolding eq_condition component_type_urn
component_type authority code =
    eq_condition component_type_property (component_type_urn authority code)
