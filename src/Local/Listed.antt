-- ===== src/Local/Listed.antt =====
-- local.py: the errors kept for `error_detail` are those of the statuses that are raised.
use openrois.Common.{
  ℕ, ◌≡◌, refl, Bool, true, false, ◌||◌, Option, none, some, List, [], ◌∷◌, ◌++◌, arith,
  if◌then◌else◌, any, Text, text_eq, text_eq_iff, ◌==◌,
}
use openrois.Common.Dict
use openrois.Common.Dict.{Dict, get-put, get-pop}
use openrois.Common.Table.{find, erase, find-write, find-erase}
use openrois.Condition.Parse.{mem_text}
use openrois.Profiles.Status.{ComponentStatus}
use openrois.Local.State.{Raised, Error, Hosted, Local}
use openrois.Local.Statuses.{errors_of, recorded}

-- the errors that the source `key` caused on a component
unfoldable pub errors_on : Option Hosted → ℕ → List Text
errors_on none key = []
errors_on (some h) key = errors_of (find key h.raised)

unfoldable pub listed_by : Dict Hosted → Text → ℕ → Text → Bool
listed_by hosted ref key id = mem_text id (errors_on (Dict.get ref hosted) key)

-- An error that a raised status lists: one of a component, or the one of the engine.
pub data IsListed (hosted : Dict Hosted) (engine_raised : Option Raised) (id : Text) : Type 0 where
  on_component :
      (ref : Text) (key : ℕ) → listed_by hosted ref key id ≡ true → IsListed hosted engine_raised id
  on_engine : mem_text id (errors_of engine_raised) ≡ true → IsListed hosted engine_raised id

-- Every error that is kept is listed by a status that is raised.
abbrev pub AllListed : Dict Hosted → Option Raised → Dict Error → Type 0
AllListed hosted engine_raised errors =
    (id : Text) (error : Error) → Dict.get id errors ≡ some error → IsListed hosted engine_raised id

abbrev pub AreListed : Local → Type 0
AreListed l = AllListed l.hosted l.engine_raised l.errors

pub mem_text-append :
    (id new : Text) (ids : List Text)
    → mem_text id (ids ++ new ∷ []) ≡ mem_text id ids || text_eq new id
unfolding mem_text any
mem_text-append id new [] = ground arith
mem_text-append id new (x ∷ ids) = ground (arith, mem_text-append id new ids)

pub errors_on-put :
    (hosted : Dict Hosted) (ref : Text) (h : Hosted) (r : Text) (k : ℕ)
    → errors_on (Dict.get r (Dict.put ref h hosted)) k
      ≡ (if text_eq ref r then errors_of (find k h.raised) else errors_on (Dict.get r hosted) k)
errors_on-put hosted ref h r k = rw (get-put ref r h hosted) (by_test (text_eq ref r))
  where
    by_test :
        (b : Bool)
        → errors_on (if b then some h else Dict.get r hosted) k
          ≡ (if b then errors_of (find k h.raised) else errors_on (Dict.get r hosted) k)
    by_test true = unfold errors_on in refl
    by_test false = refl

pub find-recorded :
    (h : Hosted) (key k : ℕ) (s : ComponentStatus) (m : Text) (errs : List Text)
    → errors_of (find k (recorded h key s m errs).raised)
      ≡ (if key == k then errs else errors_of (find k h.raised))
unfolding recorded errors_of
find-recorded h key k s m errs =
    ground (arith, find-write key k (record { status = s; message = m; errors = errs }) h.raised)

pub find-erased :
    (h : Hosted) (key k : ℕ)
    → errors_of (find k (erase key h.raised))
      ≡ (if key == k then [] else errors_of (find k h.raised))
unfolding errors_of
find-erased h key k = ground (arith, find-erase key k h.raised)

-- A status that is recorded with the errors its source caused before lists what was listed.
pub listed_by-recorded :
    (hosted : Dict Hosted) (ref : Text) (h : Hosted) (key : ℕ) (s : ComponentStatus) (m : Text)
    (errs : List Text)
    → Dict.get ref hosted ≡ some h
    → (id : Text) → (mem_text id (errors_of (find key h.raised)) ≡ true → mem_text id errs ≡ true)
    → (r : Text) (k : ℕ) → listed_by hosted r k id ≡ true
    → listed_by (Dict.put ref (recorded h key s m errs) hosted) r k id ≡ true
unfolding listed_by errors_on
listed_by-recorded hosted ref h key s m errs known id more r k listed = ground (
  arith,
  errors_on-put hosted ref (recorded h key s m errs) r k,
  find-recorded h key k s m errs,
  text_eq_iff ref r,
  known,
  listed,
  more,
)
