-- ===== src/Local/State.antt =====
-- local.py: what `LocalComponents` keeps, and the objects of one component. A resource is the number
-- of its object. A time is a count of microseconds.
use openrois.Common.{ℕ, suc, Bool, Option, List, ◌++◌, Text, codes}
use openrois.Common.Dict.{Dict}
use openrois.Common.Table.{Table}
use openrois.Common.Numerals.{decimal}
use openrois.Profiles.Status.{ComponentStatus, ErrorType}
use openrois.Profiles.Units.{Named, ComponentProfile}

-- `_State`
pub data Lifecycle : Type 0 where
  uninitialized ready failed : Lifecycle

-- `_Raised`
pub record Raised : Type 0 where
  pub status : ComponentStatus
  pub message : Text
  pub errors : List Text

-- `_Error`
pub record Error : Type 0 where
  pub ref : Text
  pub status : ComponentStatus
  pub message : Text
  pub time : ℕ

-- `_Start`; `task` is its handler once it runs, and says whether the handler is done.
pub record Start : Type 0 where
  pub command_id : Text
  pub task : Option Bool

-- `_Suspension`
pub record Suspension : Type 0 where
  pub released : Bool
  pub aborted : Bool

-- One call of `_take_over`: the start it is for, the start before, and whether its caller still waits.
pub record Takeover : Type 0 where
  pub current : ℕ
  pub previous : Option ℕ
  pub is_awaited : Bool

-- `_Hosted`. The objects that several tasks share are in stores: `starts` and `suspensions`, where an
-- address is the place in the list. `takeover` has the takeovers in the order in which they asked for
-- the lock; the first one has it.
pub record Hosted : Type 0 where
  pub name : Text
  pub ref : Text
  pub profile : ComponentProfile
  pub parameters : Dict Named
  pub resources : List ℕ
  pub state : Lifecycle
  -- by the source that raised them: 0 is the component, and `suc r` the resource `r`
  pub raised : Table Raised
  pub running : List Text
  pub starts : List Start
  pub start : Option ℕ
  pub aborted : List Text
  pub takeover : List Takeover
  pub rois_common : Bool
  pub started : Bool
  pub suspensions : List Suspension
  pub suspension : Option ℕ

-- `_Subscription`, with the number of its callback
pub record Subscription : Type 0 where
  pub ref : Text
  pub event_type : Text
  pub arguments : Dict Text
  pub deliver : ℕ

-- `NotifyEventParams`
pub record EventNotice : Type 0 where
  pub event_id : Text
  pub event_type : Text
  pub subscribe_id : Text
  pub expire : ℕ
  pub results : List Named

-- `LocalComponents`, with what its callbacks were called with, oldest first.
pub record Local : Type 0 where
  pub engine_id : Text
  pub event_lifetime : ℕ
  pub hosted : Dict Hosted
  pub resources : List ℕ
  pub opened : List ℕ
  pub subscriptions : Dict Subscription
  pub events : Dict (List Named × ℕ)
  pub results : Dict (List Named)
  pub errors : Dict Error
  pub engine_raised : Option Raised
  -- whether the event loop is known, which `start` finds, and whether `on_error` was given a callback
  pub has_loop : Bool
  pub has_on_error : Bool
  pub next_id : ℕ
  pub reported : List (Text × Text × ErrorType)
  pub delivered : List (ℕ × EventNotice)

-- `_new_id`: the id, where `next_id` counts on by one
unfoldable pub id_of : Text → Text → ℕ → Text
id_of engine_id kind n = engine_id ++ (codes "/" ++ (kind ++ (codes "-" ++ decimal n)))

unfoldable pub new_id : Local → Text → Text
new_id l kind = id_of l.engine_id kind (suc l.next_id)
