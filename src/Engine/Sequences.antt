-- ===== src/Engine/Sequences.antt =====
-- engine.py: how an execute runs its commands: `_run_sequence` and `_run_branch`, without a
-- cancellation. `ends` has the status that `_run_unit` returns for each command. The branches of one item
-- run together: what is written for one branch behind another may come in any order between them.
use openrois.Common.{Bool, true, false, ◌&&◌, List, [], ◌∷◌, ◌++◌, if◌then◌else◌, Text}
use openrois.Profiles.Status.{CompletedStatus}
use openrois.Profiles.Units.{CommandUnit, Branch, Item, single, concurrent}
use openrois.Engine.Execute.{all_units}

-- what became of a command
pub data Ended : Type 0 where
  ran : Text → CompletedStatus → Ended
  skipped : Text → Ended

unfoldable pub ended_id : Ended → Text
ended_id (ran id status) = id
ended_id (skipped id) = id

unfoldable pub is_ok : CompletedStatus → Bool
is_ok CompletedStatus.ok = true
is_ok _ = false

-- `_skip`, without its test: a command that has not begun is in the table, with no status and no task,
-- while the execute is not cancelled, so each one ends.
unfoldable pub skip_all : List CommandUnit → List Ended
skip_all [] = []
skip_all (unit ∷ units) = skipped unit.command_id ∷ skip_all units

module _ (ends : CommandUnit → CompletedStatus) where
  -- `_run_branch`
  unfoldable pub run_branch : List CommandUnit → List Ended × Bool
  run_branch [] = ([], true)
  run_branch (unit ∷ units) =
      let rest = run_branch units in
      if is_ok (ends unit)
      then (ran unit.command_id (ends unit) ∷ rest.0, rest.1)
      else (ran unit.command_id (ends unit) ∷ skip_all units, false)

  -- the `gather` of the branches of an item, and whether all of them ended OK
  unfoldable pub run_branches : List Branch → List Ended × Bool
  run_branches [] = ([], true)
  run_branches (branch ∷ branches) =
      let first = run_branch branch.command_list in
      let others = run_branches branches in (first.0 ++ others.0, first.1 && others.1)

  unfoldable pub run_item : Item → List Ended × Bool
  run_item (single unit) = run_branch (unit ∷ [])
  run_item (concurrent branches delay) = run_branches branches

  -- `_run_sequence`
  unfoldable pub run_sequence : List Item → List Ended
  run_sequence [] = []
  run_sequence (item ∷ items) =
      let ended = run_item item in
      let later = run_sequence items in
      if ended.1 then ended.0 ++ later else ended.0 ++ skip_all (all_units items)
