-- ===== src/Local/Recent.antt =====
-- local.py: how long results and events are kept.
use openrois.Common.{
  ℕ, suc, ◌≤◌, ◌<◌, ◌≡◌, ◌⊎◌, refl, sym, ap, ◌∙◌, false, none, some, List, [], ◌∷◌, ◌++◌, arith,
  if◌then◌else◌, ltb, length, length-append, drop_oldest, drop_oldest-bound, Text, text_eq,
  text_eq_iff, Bool-cases, inl, inr,
}
use openrois.Common.Dict
use openrois.Common.Dict.{Dict, get-put, get-pop}
use openrois.Profiles.Status.{ReturnCode}
use openrois.Profiles.Units.{Named}
use openrois.Local.State.{Local}
use openrois.Local.Results.{results_kept, kept_results, keep_results, result_reply, command_result}

drop_oldest-append :
    {A : Type 0} (kept : ℕ) (d : List A) (x : A)
    → drop_oldest (suc kept) (d ++ x ∷ []) ≡ drop_oldest kept d ++ x ∷ []
unfolding drop_oldest
drop_oldest-append kept [] x = ground arith
drop_oldest-append kept (y ∷ d) x =
    ground (arith, drop_oldest-append kept d x, length-append d (x ∷ []))

drop_oldest-few : {A : Type 0} (kept : ℕ) (d : List A) → length d ≤ kept → drop_oldest kept d ≡ d
unfolding drop_oldest
drop_oldest-few kept [] h = refl
drop_oldest-few kept (y ∷ d) h = ground arith

module _ {V : Type 0} where
  get-append :
      (k j : Text) (v : V) (d : Dict V)
      → Dict.get j (d ++ (k, v) ∷ [])
        ≡ elim (Dict.get j d) [ some w ↦ some w | none ↦ (if text_eq k j then some v else none) ]
  unfolding Dict.get
  get-append k j v [] = refl
  get-append k j v ((i, w) ∷ d) = ground (arith, get-append k j v d)

  get-drop_oldest :
      (kept : ℕ) (j : Text) (d : Dict V)
      → Dict.get j d ≡ none
      → Dict.get j (drop_oldest kept d) ≡ none
  unfolding Dict.get drop_oldest
  get-drop_oldest kept j [] h = refl
  get-drop_oldest kept j ((i, w) ∷ d) h = ground (arith, get-drop_oldest kept j d, h)

  length-pop : (k : Text) (d : Dict V) → length (Dict.pop k d) ≤ length d
  unfolding Dict.pop
  length-pop k [] = omega arith
  length-pop k ((i, w) ∷ d) = ground (arith, length-pop k d)

get-kept_results :
    (results : Dict (List Named)) (k : Text) (values : List Named)
    → Dict.get k (kept_results results k values) ≡ some values
unfolding kept_results
get-kept_results results k values = rw (drop_oldest-append 4095 (Dict.pop k results) (k, values)) (
    rw (get-append k k values (drop_oldest 4095 (Dict.pop k results))) (
      rw
        (get-drop_oldest 4095 k (Dict.pop k results)
          (ground (arith, get-pop k k results, text_eq_iff k k)))
        (ground (arith, text_eq_iff k k))))

get-kept_results-other :
    (results : Dict (List Named)) (k j : Text) (values : List Named)
    → text_eq k j ≡ false
    → length results < results_kept
    → Dict.get j (kept_results results k values) ≡ Dict.get j results
unfolding kept_results
get-kept_results-other results k j values other few =
    ap (Dict.get j) (
      drop_oldest-few results_kept (Dict.pop k results ++ (k, values) ∷ []) (
        ground
          (arith, length-append (Dict.pop k results) ((k, values) ∷ []), length-pop k results)))
    ∙ get-append k j values (Dict.pop k results)
    ∙ ground (arith, other, get-pop k j results)

-- Once the results of a command are kept they are there, whatever was kept before, and the table
-- never has more than 4096. The results of every other command stay as they were, unless the table was
-- full.
pub keep_results-recent :
    (l : Local) (k j : Text) (values : List Named)
    → (length (keep_results l k values).results ≤ results_kept)
      × (command_result (keep_results l k values) k ≡ (ReturnCode.ok, values))
      × ((command_result (keep_results l k values) j
            ≡ (if text_eq k j then (ReturnCode.ok, values) else command_result l j))
          ⊎ (results_kept ≤ length l.results))
unfolding keep_results command_result
keep_results-recent l k j values = (
  unfold kept_results in drop_oldest-bound results_kept (Dict.pop k l.results ++ (k, values) ∷ []),
  ap result_reply (get-kept_results l.results k values) ∙ (unfold result_reply in refl),
  others,
)
  where
    others :
        (result_reply (Dict.get j (kept_results l.results k values))
          ≡ (if text_eq k j then (ReturnCode.ok, values) else result_reply (Dict.get j l.results)))
        ⊎ (results_kept ≤ length l.results)
    others = elim (Bool-cases (text_eq k j)) [
      | inl same ↦ inl (
          rw (same, sym ((text_eq_iff k j).0 same))
            (ap result_reply (get-kept_results l.results k values) ∙ (unfold result_reply in refl)))
      | inr other ↦ elim (Bool-cases (ltb (length l.results) results_kept)) [
        | inl few ↦ inl (
            rw other (
              ap result_reply
                (get-kept_results-other l.results k j values other (ground (arith, few)))))
        | inr full ↦ inr (ground (arith, full))
      ]
    ]
