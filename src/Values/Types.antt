-- ===== src/Values/Types.antt =====
-- values.py: the kinds of types that a `data_type_ref` code names.
use openrois.Common.{
  ◌≡◌, refl, Option, none, some, List, [], ◌∷◌, map, leb, ◌&&◌, if◌then◌else◌, ◌+◌, Text, text_eq,
  codes,
}
use openrois.Condition.Parse.{mem_text}
use openrois.Profiles.Status.{ComponentStatus}

-- `str.lower` on ASCII. No other character has a lower case that stands in a name tested here.
unfoldable pub lower : Text → Text
lower = map (λ c. if leb b'A' c && leb c b'Z' then c + 32 else c)

-- `_INTEGER`, `_FLOAT` and `_BOOLEAN`
abbrev pub integer_names : List Text
integer_names = codes "int" ∷ codes "integer" ∷ codes "long" ∷ codes "short" ∷ []

abbrev pub float_names : List Text
float_names = codes "float" ∷ codes "double" ∷ []

abbrev pub boolean_names : List Text
boolean_names = codes "bool" ∷ codes "boolean" ∷ []

-- the types whose values must be texts
abbrev pub text_names : List Text
text_names = codes "string" ∷ codes "roisidentifier" ∷ codes "datetime" ∷ []

-- The tests of `base`, in their order: an array, with the type of its items, or a scalar.
pub data Scalar : Type 0 where
  integers floats booleans statuses texts others : Scalar

pub data TypeKind : Type 0 where
  array_of : Text → TypeKind
  scalar : Scalar → TypeKind

-- `data_type[: -len(_ARRAY_SUFFIX)]`, or `none` without the suffix
unfoldable pub item_type : Text → Option Text
item_type [] = none
item_type (c ∷ s) =
    let later = item_type s in
    if text_eq (c ∷ s) (codes "[]")
    then some []
    else elim later [ none ↦ none | some t ↦ some (c ∷ t) ]

unfoldable pub scalar_of : Text → Scalar
scalar_of base =
    if mem_text base integer_names
    then integers
    else if mem_text base float_names
    then floats
    else if mem_text base boolean_names
    then booleans
    else if text_eq base (codes "component_status")
    then statuses
    else if mem_text base text_names
    then texts
    else others

unfoldable pub kind_of : Text → TypeKind
unfolding lower
kind_of data_type = elim (item_type data_type) [
  | none ↦ scalar (scalar_of (lower data_type))
  | some t ↦ array_of t
]

-- the names of `ComponentStatus`
unfoldable pub status_name : ComponentStatus → Text
status_name ComponentStatus.uninitialized = codes "UNINITIALIZED"
status_name ComponentStatus.ready = codes "READY"
status_name ComponentStatus.busy = codes "BUSY"
status_name ComponentStatus.warning = codes "WARNING"
status_name ComponentStatus.error = codes "ERROR"

-- `ComponentStatus(text)`: `none` is its ValueError
unfoldable pub status_named : Text → Option ComponentStatus
status_named t =
    if text_eq t (codes "UNINITIALIZED")
    then some ComponentStatus.uninitialized
    else if text_eq t (codes "READY")
    then some ComponentStatus.ready
    else if text_eq t (codes "BUSY")
    then some ComponentStatus.busy
    else if text_eq t (codes "WARNING")
    then some ComponentStatus.warning
    else if text_eq t (codes "ERROR")
    then some ComponentStatus.error
    else none

pub status_named-status_name : (s : ComponentStatus) → status_named (status_name s) ≡ some s
unfolding status_named status_name text_eq
status_named-status_name ComponentStatus.uninitialized = refl
status_named-status_name ComponentStatus.ready = refl
status_named-status_name ComponentStatus.busy = refl
status_named-status_name ComponentStatus.warning = refl
status_named-status_name ComponentStatus.error = refl
