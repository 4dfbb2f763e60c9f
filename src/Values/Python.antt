-- ===== src/Values/Python.antt =====
-- values.py: the JSON values and Python values that it is about, and what it takes of Python.
use openrois.Common.{ℕ, Bool, Option, Text}
use openrois.Profiles.Status.{ComponentStatus}
use openrois.Values.Numbers.{ℤ, Digit}

-- A JSON value, with floats `F`.
mutual
  pub data Json (F : Type 0) : Type 0 where
    null : Json F
    boolean : Bool → Json F
    integer : ℤ → Json F
    floating : F → Json F
    string : Text → Json F
    array : Items F → Json F
    object : Members F → Json F

  pub data Items (F : Type 0) : Type 0 where
    no_items : Items F
    item : Json F → Items F → Items F

  pub data Members (F : Type 0) : Type 0 where
    no_members : Members F
    member : Text → Json F → Members F → Members F

-- A Python value, by the tests that the code makes of it. `other` is one that is none of the rest, by
-- the JSON that it is written as, such as None or a dict; a datetime is given by its ISO 8601 text.
mutual
  pub data Value (F : Type 0) : Type 0 where
    bool : Bool → Value F
    int : ℤ → Value F
    float : F → Value F
    text datetime : Text → Value F
    status : ComponentStatus → Value F
    list : Values F → Value F
    other : Json F → Value F

  pub data Values (F : Type 0) : Type 0 where
    no_values : Values F
    value : Value F → Values F → Values F

-- the exceptions: a ValueError, and those that are none
pub data Raised : Type 0 where
  value_error type_error recursion_error : Raised

-- what `json.loads` does with a text
pub data Loaded (F : Type 0) : Type 0 where
  loaded : Json F → Loaded F
  malformed too_deep : Loaded F

pub record Python (F : Type 0) : Type 0 where
  -- json.loads(text), and json.dumps(value, ensure_ascii=False) of an array or another value, where
  -- `none` is the ValueError for an int with too many digits
  pub loads : Text → Loaded F
  pub dumps : Json F → Option Text
  -- the class of a character beyond ASCII
  pub unicode : ℕ → Digit
  -- json.dumps(f), float(text), float(n) with `none` for its OverflowError, and math.inf
  pub float_text : F → Text
  pub float_of : Text → Option F
  pub float_of_int : ℤ → Option F
  pub infinity : F
  pub negative_infinity : F
