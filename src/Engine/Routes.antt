-- ===== src/Engine/Routes.antt =====
-- engine.py: which components the engine reaches, and which source owns an id.
use openrois.Common.{
  ℕ, ◌==◌, Bool, not, Option, none, some, List, [], ◌∷◌, ◌++◌, if◌then◌else◌, all, Text,
}
use openrois.Common.Dict
use openrois.Common.Dict.{Dict}
use openrois.Condition.Parse.{mem_text}
use openrois.Profiles.Units.{ComponentProfile}
use openrois.Engine.State.{SourceId, local, child, Source, Engine}

abbrev pub Entry : Type 0
Entry = ComponentProfile × SourceId

-- `components.setdefault(ref, (profile, source))` for each component of one source
unfoldable pub add_source : SourceId → Dict ComponentProfile → Dict Entry → Dict Entry
add_source source [] components = components
add_source source ((ref, profile) ∷ profiles) components =
    let known = add_source source profiles components in
    let added = add_source source profiles (Dict.put ref (profile, source) components) in
    elim (Dict.get ref components) [ none ↦ added | some _ ↦ known ]

unfoldable pub add_children : List (ℕ × Source) → Dict Entry → Dict Entry
add_children [] components = components
add_children ((k, s) ∷ children) components =
    add_children children (add_source (child k) s.profiles components)

-- `_components`
unfoldable pub components : Engine → Dict Entry
components e = add_children e.children (add_source local e.local_source.profiles [])

-- `_profile`
unfoldable pub profile_of : Engine → Text → Option ComponentProfile
profile_of e ref = elim (Dict.get ref (components e)) [ none ↦ none | some (p, _) ↦ some p ]

-- the part before the first slash, as `partition` gives it, or `none` without a slash
unfoldable pub before_slash : Text → Option Text
before_slash [] = none
before_slash (c ∷ s) =
    let later = before_slash s in
    if c == b'/'
    then some []
    else elim later [ none ↦ none | some engine_id ↦ some (c ∷ engine_id) ]

unfoldable pub child_owner : Text → List (ℕ × Source) → Option SourceId
child_owner engine_id [] = none
child_owner engine_id ((k, s) ∷ children) =
    if mem_text engine_id s.engine_ids then some (child k) else child_owner engine_id children

unfoldable pub source_of_engine : Engine → Text → Option SourceId
source_of_engine e engine_id =
    if mem_text engine_id e.local_source.engine_ids
    then some local
    else child_owner engine_id e.children

-- `_owner_of`
unfoldable pub owner_of : Engine → Text → Option SourceId
owner_of e assigned_id = elim (before_slash assigned_id) [
  | none ↦ none
  | some engine_id ↦ source_of_engine e engine_id
]

-- the engine ids of the children other than `k`
unfoldable pub ids_of_others : Option ℕ → List (ℕ × Source) → List Text
ids_of_others k [] = []
ids_of_others none ((j, s) ∷ children) = s.engine_ids ++ ids_of_others none children
ids_of_others (some k) ((j, s) ∷ children) =
    if j == k
    then ids_of_others (some k) children
    else s.engine_ids ++ ids_of_others (some k) children

-- `check_engine_ids`: true where it raises no error. `none` is a child not added yet.
unfoldable pub engine_ids_are_free : Engine → Option ℕ → List Text → Bool
engine_ids_are_free e k engine_ids =
    let taken = e.local_source.engine_ids ++ ids_of_others k e.children in
    all (λ i. not (mem_text i taken)) engine_ids
