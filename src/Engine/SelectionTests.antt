-- ===== src/Engine/SelectionTests.antt =====
-- engine.py: the theorems on selections, queries and parameters at one engine.
use openrois.Common.{
  ◌≡◌, refl, false, none, some, List, [], ◌∷◌, keep, Text, codes, text_eq, any, ok, upper, is_space,
}
use openrois.Common.Dict
use openrois.Common.Dict.{Dict}
use openrois.Condition.Parse.{
  mem_text, drop_last, inner, undouble, is_keyword, property_name, operator_of, literal_of,
  check_pattern, comparison_of, later_comparisons, first_comparison, parse_condition,
  condition_matches,
}
use openrois.Profiles.Units.{Named, MessageProfile, ComponentProfile}
use openrois.Engine.State.{local, child, Engine}
use openrois.Engine.Routes.{components, add_children, add_source}
use openrois.Engine.Binds.{is_empty}
use openrois.Engine.Execute.{last_named}
use openrois.Engine.Selection.{select, matching}
use openrois.Engine.Pick.{
  pick, pick_parsed, pick_matching, pick_candidate, pick_arguments, picked, candidates_in,
  all_argument_names, argument_names, messages_of, selecting, giving, given_arguments, agrees,
  is_equality, argument_of, values,
}
use openrois.Engine.Requests.{parameter_set}
use openrois.Engine.Selecting.{Selected, select-Selected}
use openrois.Engine.Picking.{Serves, pick-Serves}
use openrois.Engine.Parameters.{parameter_set-running}
use openrois.Condition.Syntax.{Operator, Condition, component_ref_property, selection_properties}
use openrois.Condition.Tokens.{
  tokens, token_loop, next_token, read_token, skip_spaces, is_blank, word_chars, literal_chars,
  is_word_start, is_word_char,
}
use openrois.Condition.Like.{like_regex, like_loop}
use openrois.Condition.Print.{
  print_condition, print_all, join_and, join_later, print_comparison, operator_text, quote,
  double_quotes,
}
use openrois.Engine.Samples.{any_value, nav, arm, actuator, robot_source, ada, running, robot}

-- the condition selects the component of the engine itself
abbrev on_robot : Text
on_robot = codes "component_ref LIKE 'r/%'"

abbrev robot_only : Condition
robot_only =
    record { property = component_ref_property; operator = Operator.like; value = codes "r/%" } ∷ []

on_robot_parses : parse_condition on_robot selection_properties ≡ ok robot_only
unfolding parse_condition tokens token_loop next_token read_token skip_spaces is_blank is_space
    word_chars literal_chars is_word_start is_word_char first_comparison comparison_of property_name
    operator_of literal_of check_pattern like_regex like_loop mem_text any text_eq upper is_keyword
    inner drop_last undouble later_comparisons
on_robot_parses = refl

select-Selected_example :
    (refs : List Text) × (select robot on_robot ≡ ok (some refs))
    × Selected robot_only (components robot) refs
select-Selected_example = select-Selected robot on_robot robot_only on_robot_parses

-- a component with a query that takes an argument
abbrev map_of : MessageProfile
map_of = record {
  name = codes "map";
  arguments =
      record {
        name = codes "floor";
        data_type_ref = codes "string";
        default_value = none;
        read_only = false;
      }
      ∷ [];
  timeout = none;
}

abbrev mapper : ComponentProfile
mapper = record actuator { query_profiles = map_of ∷ [] }

abbrev mapping : Engine
mapping = record robot { local_source = record robot_source { profiles = (nav, mapper) ∷ [] } }

abbrev first_floor : Named
first_floor = record { name = codes "floor"; data_type_ref = codes "string"; value = codes "1" }

picks_nav :
    pick any_value mapping (codes "floor = '1'") (codes "map") false
    ≡ ok (picked nav local (first_floor ∷ []) (codes "floor = '1'"))
unfolding pick pick_parsed pick_matching pick_candidate pick_arguments candidates_in
    all_argument_names argument_names messages_of selecting giving keep matching condition_matches
    given_arguments agrees is_equality argument_of last_named values is_empty components
    add_children add_source Dict.get Dict.put parse_condition tokens token_loop next_token
    read_token skip_spaces is_blank is_space word_chars literal_chars is_word_start is_word_char
    first_comparison comparison_of property_name operator_of literal_of check_pattern like_regex
    like_loop mem_text any text_eq upper is_keyword inner drop_last undouble later_comparisons
    print_condition print_all join_and join_later print_comparison operator_text quote double_quotes
picks_nav = refl

pick-Serves_example : Serves any_value mapping false (codes "map") nav local (first_floor ∷ [])
pick-Serves_example =
    pick-Serves any_value mapping false (codes "map") (codes "floor = '1'") nav local
      (first_floor ∷ []) (codes "floor = '1'") picks_nav

cmd_is_there : Dict.get (codes "r/cmd-1") robot.commands ≡ some 0
unfolding Dict.get text_eq
cmd_is_there = refl

parameter_set-running_example :
    Dict.get (codes "r/cmd-1") (parameter_set robot ada arm (child 7) (codes "r/cmd-1")).0.commands
    ≡ some 0
parameter_set-running_example =
    parameter_set-running robot ada arm (child 7) (codes "r/cmd-1") (codes "r/cmd-1") 0 running
      cmd_is_there refl refl
