-- ===== src/Local/Starting.antt =====
-- local.py: what `start` makes of the components.
use mathlib.Core.Path.{subst}
use openrois.Common.{
  ℕ, ◌≡◌, refl, sym, Bool, true, ◌&&◌, List, [], ◌∷◌, if◌then◌else◌, all, All, map, Text,
}
use openrois.Common.Dict.{Dict}
use openrois.Local.State.{Lifecycle, Hosted, Local}
use openrois.Local.Hosting.{
  is_known_resource, Opening, open_resources, connected_state, start_each, start,
}
use openrois.Local.Opening.{
  Tried, none_tried, IsTried, Keeps, Keeps-refl, Keeps-trans, all_kept, open_resources-IsLooped,
}

-- A component started where `is_open` says which resources are open.
abbrev pub started_state : (ℕ → Bool) → (Text → Bool) → Text × Hosted → Text × Hosted
started_state is_open connects (ref, h) = (
  ref,
  record h {
    state = if all is_open h.resources && connects ref then Lifecycle.ready else Lifecycle.failed;
  },
)

-- Each resource of a component is among the ones that were tried.
abbrev pub AreTried : List ℕ → Text × Hosted → Type 0
AreTried tried (ref, h) = all (λ r. is_known_resource r tried) h.resources ≡ true

module _ (opens : List ℕ → ℕ → Bool) (connects : Text → Bool) where
  record AreStarted (o o' : Opening) (hosted hosted' : Dict Hosted) : Type 0 where
    is_tried : IsTried opens o'
    keeps : (k : ℕ) → Keeps opens o o' k
    all_tried : All (AreTried o'.tried) hosted
    states : hosted' ≡ map (started_state (λ r. is_known_resource r o'.opened) connects) hosted

  start_each-AreStarted :
      (o : Opening) (hosted : Dict Hosted)
      → IsTried opens o
      → AreStarted o
          (start_each opens connects o hosted).0
          hosted
          (start_each opens connects o hosted).1
  unfolding start_each connected_state
  start_each-AreStarted o [] known = record {
    is_tried = known;
    keeps = Keeps-refl opens o;
    all_tried = tt;
    states = refl;
  }
  start_each-AreStarted o ((ref, h) ∷ hosted) known =
      let first = open_resources-IsLooped opens o h.resources true known in
      let m = (open_resources opens o h.resources true).0 in
      let others = start_each-AreStarted m hosted first.is_tried in
      let o' = (start_each opens connects m hosted).0 in
      let (tried, opened) = all_kept opens m o' h.resources others.keeps first.all_tried in
      record {
        is_tried = others.is_tried;
        keeps = λ k. Keeps-trans opens o m o' k (first.keeps k) (others.keeps k);
        all_tried = (tried, others.all_tried);
        states = rw (others.states, first.is_usable, opened) refl;
      }

-- What `start` makes of the components, with the resources that it tried.
pub record IsStarted (opens : List ℕ → ℕ → Bool) (connects : Text → Bool) (l l' : Local)
    (tried : List ℕ) : Type 0 where
  pub failed : List ℕ
  pub once : Tried opens tried l'.opened failed
  pub all_tried : All (AreTried tried) l.hosted
  pub states :
      l'.hosted ≡ map (started_state (λ r. is_known_resource r l'.opened) connects) l.hosted

-- Where no resource is open before, `start` calls `open` once on each resource of the components,
-- shared or not, and on no resource twice; those whose call succeeded are open, and it connects
-- exactly the components whose resources are all open and whose backend connects.
pub start-IsStarted :
    (opens : List ℕ → ℕ → Bool) (connects : Text → Bool) (l : Local)
    → l.opened ≡ []
    → IsStarted opens connects l (start opens connects l).0 (start opens connects l).1
unfolding start
start-IsStarted opens connects l none_open =
    let o : Opening = record { opened = l.opened; failed = []; tried = [] } in
    let started =
      start_each-AreStarted opens connects o l.hosted
        (subst (λ opened. Tried opens [] opened []) (sym none_open) none_tried) in
    record {
      failed = (start_each opens connects o l.hosted).0.failed;
      once = started.is_tried;
      all_tried = started.all_tried;
      states = started.states;
    }
