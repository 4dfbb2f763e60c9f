-- ===== src/Engine/Running.antt =====
-- engine.py: every command of an execute ends once, and which of them run.
use openrois.Common.{
  ◌≡◌, refl, sym, ap, ◌∙◌, Bool, true, false, ◌&&◌, List, [], ◌∷◌, ◌++◌, map, arith, all, Text,
  Bool-cases, inl, inr,
}
use mathlib.Core.List.{map-append}
use openrois.Profiles.Status.{CompletedStatus}
use openrois.Profiles.Units.{CommandUnit, Branch, Item, single, concurrent}
use openrois.Engine.Execute.{units_of, branch_units, all_units}
use openrois.Engine.Sequences.{
  Ended, ran, skipped, ended_id, is_ok, skip_all, run_branch, run_branches, run_item, run_sequence,
}

-- a command that runs, or is skipped, by whether all before it ended OK
abbrev pub run_if : Bool → Text → CompletedStatus → Ended
run_if true id status = ran id status
run_if false id status = skipped id

module _ (ends : CommandUnit → CompletedStatus) where
  -- the commands of a branch, each running where all before it ended OK
  abbrev pub expected_units : Bool → List CommandUnit → List Ended
  expected_units before [] = []
  expected_units before (unit ∷ units) =
      run_if before unit.command_id (ends unit) ∷ expected_units (before && is_ok (ends unit)) units

  abbrev pub expected_branches : Bool → List Branch → List Ended
  expected_branches before [] = []
  expected_branches before (branch ∷ branches) =
      expected_units before branch.command_list ++ expected_branches before branches

  abbrev pub expected_item : Bool → Item → List Ended
  expected_item before (single unit) = expected_units before (unit ∷ [])
  expected_item before (concurrent branches delay) = expected_branches before branches

  -- the commands of the items, where an item waits for every command of those before it
  abbrev pub expected_items : Bool → List Item → List Ended
  expected_items before [] = []
  expected_items before (item ∷ items) =
      expected_item before item
      ++ expected_items (before && all (λ u. is_ok (ends u)) (units_of item)) items

  expected_units-skipped : (units : List CommandUnit) → expected_units false units ≡ skip_all units
  unfolding skip_all
  expected_units-skipped [] = refl
  expected_units-skipped (unit ∷ units) =
      ap (λ rest. skipped unit.command_id ∷ rest) (expected_units-skipped units)

  skip_all-append : (xs ys : List CommandUnit) → skip_all (xs ++ ys) ≡ skip_all xs ++ skip_all ys
  unfolding skip_all
  skip_all-append [] ys = refl
  skip_all-append (x ∷ xs) ys = ap (λ rest. skipped x.command_id ∷ rest) (skip_all-append xs ys)

  all-append :
      (xs ys : List CommandUnit)
      → all (λ u. is_ok (ends u)) (xs ++ ys)
        ≡ all (λ u. is_ok (ends u)) xs && all (λ u. is_ok (ends u)) ys
  unfolding all
  all-append [] ys = ground arith
  all-append (x ∷ xs) ys = ground (arith, all-append xs ys)

  run_branch-expected :
      (units : List CommandUnit)
      → ((run_branch ends units).0 ≡ expected_units true units)
        × ((run_branch ends units).1 ≡ all (λ u. is_ok (ends u)) units)
  unfolding run_branch all
  run_branch-expected [] = (refl, refl)
  run_branch-expected (unit ∷ units) = elim (Bool-cases (is_ok (ends unit))) [
    | inl good ↦
        let (same, flag) = run_branch-expected units in
        rw good (ap (λ rest. ran unit.command_id (ends unit) ∷ rest) same, flag)
    | inr bad ↦ rw bad (
      ap (λ rest. ran unit.command_id (ends unit) ∷ rest) (sym (expected_units-skipped units)),
      refl,
    )
  ]

  run_branches-expected :
      (branches : List Branch)
      → ((run_branches ends branches).0 ≡ expected_branches true branches)
        × ((run_branches ends branches).1 ≡ all (λ u. is_ok (ends u)) (branch_units branches))
  unfolding run_branches branch_units
  run_branches-expected [] = (refl, unfold all in refl)
  run_branches-expected (branch ∷ branches) =
      let (same, flag) = run_branch-expected branch.command_list in
      let (others, flags) = run_branches-expected branches in
      (
        rw (same, others) refl,
        rw (flag, flags) (sym (all-append branch.command_list (branch_units branches))),
      )

  run_item-expected :
      (item : Item)
      → ((run_item ends item).0 ≡ expected_item true item)
        × ((run_item ends item).1 ≡ all (λ u. is_ok (ends u)) (units_of item))
  unfolding run_item units_of
  run_item-expected (single unit) = run_branch-expected (unit ∷ [])
  run_item-expected (concurrent branches delay) = run_branches-expected branches

  expected_branches-skipped :
      (branches : List Branch) → expected_branches false branches ≡ skip_all (branch_units branches)
  unfolding branch_units skip_all
  expected_branches-skipped [] = refl
  expected_branches-skipped (branch ∷ branches) =
      rw (expected_units-skipped branch.command_list, expected_branches-skipped branches)
        (sym (skip_all-append branch.command_list (branch_units branches)))

  expected_items-skipped :
      (items : List Item) → expected_items false items ≡ skip_all (all_units items)
  unfolding all_units units_of
  expected_items-skipped [] = unfold skip_all in refl
  expected_items-skipped (single unit ∷ items) =
      rw (expected_items-skipped items) (unfold skip_all in refl)
  expected_items-skipped (concurrent branches delay ∷ items) =
      rw (expected_branches-skipped branches, expected_items-skipped items)
        (sym (skip_all-append (branch_units branches) (all_units items)))

  run_sequence-expected : (items : List Item) → run_sequence ends items ≡ expected_items true items
  unfolding run_sequence
  run_sequence-expected [] = refl
  run_sequence-expected (item ∷ items) =
      let (same, flag) = run_item-expected item in
      elim (Bool-cases (all (λ u. is_ok (ends u)) (units_of item))) [
        | inl good ↦
            rw (flag, same, good)
              (ap (λ rest. expected_item true item ++ rest) (run_sequence-expected items))
        | inr bad ↦
            rw (flag, same, bad)
              (ap (λ rest. expected_item true item ++ rest) (sym (expected_items-skipped items)))
      ]

  ids-expected_units :
      (before : Bool) (units : List CommandUnit)
      → map ended_id (expected_units before units) ≡ map (λ u. u.command_id) units
  unfolding ended_id
  ids-expected_units before [] = refl
  ids-expected_units true (unit ∷ units) =
      ap (λ ids. unit.command_id ∷ ids) (ids-expected_units (is_ok (ends unit)) units)
  ids-expected_units false (unit ∷ units) =
      ap (λ ids. unit.command_id ∷ ids) (ids-expected_units false units)

  ids-expected_branches :
      (before : Bool) (branches : List Branch)
      → map ended_id (expected_branches before branches)
        ≡ map (λ u. u.command_id) (branch_units branches)
  unfolding branch_units
  ids-expected_branches before [] = refl
  ids-expected_branches before (branch ∷ branches) =
      map-append ended_id (expected_units before branch.command_list)
        (expected_branches before branches)
      ∙ rw (ids-expected_units before branch.command_list, ids-expected_branches before branches)
          (sym (map-append (λ u. u.command_id) branch.command_list (branch_units branches)))

  ids-expected_item :
      (before : Bool) (item : Item)
      → map ended_id (expected_item before item) ≡ map (λ u. u.command_id) (units_of item)
  unfolding units_of
  ids-expected_item before (single unit) = ids-expected_units before (unit ∷ [])
  ids-expected_item before (concurrent branches delay) = ids-expected_branches before branches

  ids-expected_items :
      (before : Bool) (items : List Item)
      → map ended_id (expected_items before items) ≡ map (λ u. u.command_id) (all_units items)
  unfolding all_units
  ids-expected_items before [] = refl
  ids-expected_items before (item ∷ items) =
      let later = before && all (λ u. is_ok (ends u)) (units_of item) in
      map-append ended_id (expected_item before item) (expected_items later items)
      ∙ rw (ids-expected_item before item, ids-expected_items later items)
          (sym (map-append (λ u. u.command_id) (units_of item) (all_units items)))

  -- Whatever the commands of an execute end with, each of them ends once, run or skipped, and it runs
  -- exactly where every command before it in its branch and every command of the items before ended OK.
  pub run_sequence-ends_all :
      (items : List Item)
      → (map ended_id (run_sequence ends items) ≡ map (λ u. u.command_id) (all_units items))
        × (run_sequence ends items ≡ expected_items true items)
  run_sequence-ends_all items = (
    ap (map ended_id) (run_sequence-expected items) ∙ ids-expected_items true items,
    run_sequence-expected items,
  )
