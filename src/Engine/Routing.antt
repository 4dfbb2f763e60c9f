-- ===== src/Engine/Routing.antt =====
-- engine.py: ids route back to the source that assigned them.
use openrois.Common.{
  ℕ, ◌≡◌, refl, ◌∙◌, true, false, not, ◌||◌, none, some, List, [], ◌∷◌, ◌++◌, arith, if◌then◌else◌,
  any, all, Text, text_eq, text_eq_iff,
}
use openrois.Condition.Parse.{mem_text}
use openrois.Engine.State.{child, Source, Engine}
use openrois.Engine.Routes.{
  before_slash, child_owner, source_of_engine, owner_of, ids_of_others, engine_ids_are_free,
}
use openrois.Engine.Busy.{mem_text-append}
use openrois.Engine.Events.{add_child, announce_profile}
use openrois.Engine.Frames.{announce-SameBinds, owner_of-SameBinds}

pub mem_text-cons :
    (t x : Text) (xs : List Text) → mem_text t (x ∷ xs) ≡ text_eq x t || mem_text t xs
unfolding mem_text any
mem_text-cons t x xs = refl

mem_text-nil : (t : Text) → mem_text t [] ≡ false
unfolding mem_text any
mem_text-nil t = refl

all-not_mem :
    (ids taken : List Text) (t : Text)
    → all (λ i. not (mem_text i taken)) ids ≡ true
    → mem_text t ids ≡ true
    → mem_text t taken ≡ false
unfolding all
all-not_mem [] taken t h m = cc (mem_text-nil t)
all-not_mem (i ∷ ids) taken t h m =
    ground (arith, mem_text-cons t i ids, text_eq_iff i t, all-not_mem ids taken t)

-- the owner among the children with one more behind them
child_owner-append :
    (g : Text) (children : List (ℕ × Source)) (k : ℕ) (s : Source)
    → mem_text g (ids_of_others none children) ≡ false
    → child_owner g (children ++ (k, s) ∷ [])
      ≡ (if mem_text g s.engine_ids then some (child k) else none)
unfolding child_owner ids_of_others
child_owner-append g [] k s h = refl
child_owner-append g ((j, u) ∷ children) k s h = ground (
  arith,
  child_owner-append g children k s,
  mem_text-append g u.engine_ids (ids_of_others none children),
)

child_owner-other :
    (g : Text) (children : List (ℕ × Source)) (k : ℕ) (s : Source)
    → mem_text g s.engine_ids ≡ false
    → child_owner g (children ++ (k, s) ∷ []) ≡ child_owner g children
unfolding child_owner
child_owner-other g [] k s h = ground arith
child_owner-other g ((j, u) ∷ children) k s h = ground (arith, child_owner-other g children k s)

source_of_engine-added :
    (e : Engine) (g : Text) (k : ℕ) (s : Source)
    → engine_ids_are_free e none s.engine_ids ≡ true
    → source_of_engine (record e { children = e.children ++ (k, s) ∷ [] }) g
      ≡ (if mem_text g s.engine_ids then some (child k) else source_of_engine e g)
unfolding source_of_engine engine_ids_are_free
source_of_engine-added e g k s free = ground (
  arith,
  all-not_mem s.engine_ids (e.local_source.engine_ids ++ ids_of_others none e.children) g free,
  mem_text-append g e.local_source.engine_ids (ids_of_others none e.children),
  child_owner-append g e.children k s,
  child_owner-other g e.children k s,
)

add_child-some :
    (e e' : Engine) (k : ℕ) (s : Source)
    → add_child e k s ≡ some e'
    → (engine_ids_are_free e none s.engine_ids ≡ true)
      × (e' ≡ announce_profile (record e { children = e.children ++ (k, s) ∷ [] }))
unfolding add_child
add_child-some e e' k s added = ground arith

owner_of-known :
    (e : Engine) (t g : Text) → before_slash t ≡ some g → owner_of e t ≡ source_of_engine e g
unfolding owner_of
owner_of-known e t g slash = rw (slash, owner_of) refl

-- Once a child is added, an id that starts with one of its engine ids and a slash routes to it, and
-- every other id with a slash routes to the source that it routed to before.
pub add_child-owner_of :
    (e e' : Engine) (k : ℕ) (s : Source) (g t : Text)
    → add_child e k s ≡ some e'
    → before_slash t ≡ some g
    → owner_of e' t ≡ (if mem_text g s.engine_ids then some (child k) else owner_of e t)
add_child-owner_of e e' k s g t added slash =
    let (free, made) = add_child-some e e' k s added in
    let grown : Engine = record e { children = e.children ++ (k, s) ∷ [] } in
    rw made (
      owner_of-SameBinds t (announce-SameBinds grown)
      ∙ owner_of-known grown t g slash
      ∙ rw (owner_of-known e t g slash) (source_of_engine-added e g k s free))
