-- ===== src/Engine/SequenceTests.antt =====
-- engine.py: an execute with two branches and a command behind them.
use openrois.Common.{◌≡◌, refl, true, none, List, [], ◌∷◌, map, if◌then◌else◌, Text, codes, text_eq}
use openrois.Profiles.Status.{CompletedStatus}
use openrois.Profiles.Units.{CommandUnit, Item, single, concurrent}
use openrois.Engine.Execute.{all_units, units_of}
use openrois.Engine.Sequences.{
  ran, skipped, ended_id, is_ok, skip_all, run_branch, run_branches, run_item, run_sequence,
}
use openrois.Engine.Running.{expected_items, run_sequence-ends_all}

abbrev command : Text → CommandUnit
command id = record {
  component_ref = codes "r/nav";
  command_type = codes "go";
  command_id = id;
  arguments = [];
  delay_time = none;
}

abbrev plan : List Item
plan =
    concurrent
      (record { command_list = command (codes "a") ∷ command (codes "b") ∷ [] }
        ∷ record { command_list = command (codes "c") ∷ [] }
        ∷ [])
      none
    ∷ single (command (codes "d"))
    ∷ []

-- the first command of the first branch fails
abbrev outcome : CommandUnit → CompletedStatus
outcome u = if text_eq u.command_id (codes "a") then CompletedStatus.error else CompletedStatus.ok

-- The other branch runs to its end; the rest of the failed branch and the item behind are skipped.
plan_runs :
    run_sequence outcome plan
    ≡ ran (codes "a") CompletedStatus.error
      ∷ skipped (codes "b")
      ∷ ran (codes "c") CompletedStatus.ok
      ∷ skipped (codes "d")
      ∷ []
unfolding run_sequence run_item run_branches run_branch skip_all is_ok text_eq all_units units_of
plan_runs = refl

run_sequence-ends_all_example :
    (map ended_id (run_sequence outcome plan) ≡ map (λ u. u.command_id) (all_units plan))
    × (run_sequence outcome plan ≡ expected_items outcome true plan)
run_sequence-ends_all_example = run_sequence-ends_all outcome plan
