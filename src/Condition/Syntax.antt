-- ===== src/Condition/Syntax.antt =====
-- condition.py: `Comparison`, `Condition`, the properties and the errors.
use openrois.Common.{ℕ, List, [], ◌∷◌, Text, codes}

-- The property that selects a component by its fully qualified ref.
abbrev pub component_ref_property : Text
component_ref_property = codes "component_ref"

-- The property that selects components by the URN of their profile identifier.
abbrev pub component_type_property : Text
component_type_property = codes "component_type"

abbrev pub selection_properties : List Text
selection_properties = component_ref_property ∷ component_type_property ∷ []

pub data Operator : Type 0 where
  equal like : Operator

pub record Comparison : Type 0 where
  pub property : Text
  pub operator : Operator
  pub value : Text

abbrev pub Condition : Type 0
Condition = List Comparison

-- `ConditionError`, by the place that raises it, with the position that its message names.
-- `out_of_fuel` is no error of the source: the loops of the model end with it if they run too long.
pub data ConditionError : Type 0 where
  unterminated unexpected_character : ℕ → ConditionError
  not_in_subset expected_and : ℕ → ConditionError
  incomplete_comparison : ConditionError
  unreadable expected_property : ℕ → ConditionError
  unsupported_property : Text → ConditionError
  expected_operator expected_literal : ℕ → ConditionError
  dangling_escape : ConditionError
  out_of_fuel : ConditionError
