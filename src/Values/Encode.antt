-- ===== src/Values/Encode.antt =====
-- values.py: `encode_value`, `decode_value`, `_to_json` and `_from_json`. Floats, and `json.loads` and
-- `json.dumps` of arrays and mappings, are those of Python: the parameters of `Python`.
use openrois.Common.{
  zero, suc, Bool, true, false, ◌&&◌, Option, none, some, if◌then◌else◌, Text, text_eq, codes,
  Result, ok, err, ◌>>=◌,
}
use openrois.Values.Types.{
  Scalar, integers, floats, booleans, statuses, texts, others, TypeKind, array_of, scalar, kind_of,
  status_name, status_named,
}
use openrois.Values.Numbers.{
  ℤ, pos, negsuc, str_of_int, lstrip_dashes, is_stripped, isdigit, int_of,
}
use openrois.Values.Python.{
  Json, null, boolean, integer, floating, string, array, object, Items, no_items, item, Value, bool,
  int, float, text, datetime, status, list, other, Values, no_values, value, Raised, value_error,
  type_error, recursion_error, Loaded, loaded, malformed, too_deep, Python,
}

unfoldable pub or_value_error {ℓ} : {A : Type ℓ} → Option A → Result Raised A
or_value_error none = err value_error
or_value_error (some a) = ok a

-- whether a value is a `str`: the members of `ComponentStatus` are
unfoldable pub str_of : {F : Type 0} → Value F → Option Text
str_of (text t) = some t
str_of (status s) = some (status_name s)
str_of _ = none

module _ {F : Type 0} where
  -- the value as json.dumps takes it where its type is not looked at: a datetime has no JSON form
  unfoldable mutual
    pub as_json : Value F → Result Raised (Json F)
    as_json (bool b) = ok (boolean b)
    as_json (int z) = ok (integer z)
    as_json (float f) = ok (floating f)
    as_json (text t) = ok (string t)
    as_json (datetime t) = err type_error
    as_json (status s) = ok (string (status_name s))
    as_json (list vs) = do items ← all_as_json vs; ok (array items)
    as_json (other j) = ok j

    pub all_as_json : Values F → Result Raised (Items F)
    all_as_json no_values = ok no_items
    all_as_json (value v vs) = do j ← as_json v; items ← all_as_json vs; ok (item j items)

module _ {F : Type 0} (py : Python F) where
  open py use {
    loads, dumps, unicode, float_text, float_of, float_of_int, infinity, negative_infinity,
  }

  unfoldable pub float_or_error : Option F → Result Raised (Json F)
  float_or_error none = err value_error
  float_or_error (some f) = ok (floating f)

  -- `_to_json` of a value that is no number, bool or list where the type wants one
  unfoldable pub status_to_json : Option Text → Result Raised (Json F)
  status_to_json none = err value_error
  status_to_json (some t) = do s ← or_value_error (status_named t); ok (string (status_name s))

  unfoldable pub text_to_json : Bool → Value F → Result Raised (Json F)
  text_to_json only (datetime t) = ok (string t)
  text_to_json only (text t) = ok (string t)
  text_to_json only (status s) = ok (string (status_name s))
  text_to_json true v = err value_error
  text_to_json false v = as_json v

  -- `_to_json` for a scalar type
  unfoldable pub scalar_to_json : Scalar → Value F → Result Raised (Json F)
  scalar_to_json integers (int z) = ok (integer z)
  scalar_to_json integers _ = err value_error
  scalar_to_json floats (int z) = float_or_error (float_of_int z)
  scalar_to_json floats (float f) = ok (floating f)
  scalar_to_json floats _ = err value_error
  scalar_to_json booleans (bool b) = ok (boolean b)
  scalar_to_json booleans _ = err value_error
  scalar_to_json statuses v = status_to_json (str_of v)
  scalar_to_json texts v = text_to_json true v
  scalar_to_json others v = text_to_json false v

  -- `_to_json`
  unfoldable mutual
    pub to_json : Text → Value F → Result Raised (Json F)
    to_json t (list vs) = elim (kind_of t) [
      | array_of i ↦ (do items ← all_to_json i vs; ok (array items))
      | scalar k ↦ scalar_to_json k (list vs)
    ]
    to_json t v = elim (kind_of t) [ array_of i ↦ err value_error | scalar k ↦ scalar_to_json k v ]

    pub all_to_json : Text → Values F → Result Raised (Items F)
    all_to_json i no_values = ok no_items
    all_to_json i (value v vs) = do j ← to_json i v; items ← all_to_json i vs; ok (item j items)

  unfoldable pub decode_int : Text → Result Raised (Value F)
  decode_int t =
      if is_stripped t && isdigit unicode (lstrip_dashes t)
      then (do z ← or_value_error (int_of unicode t); ok (int z))
      else err value_error

  unfoldable pub decode_bool : Text → Result Raised (Value F)
  decode_bool t =
      if text_eq t (codes "true")
      then ok (bool true)
      else if text_eq t (codes "false")
      then ok (bool false)
      else err value_error

  -- `decode_value` for a scalar type
  unfoldable pub decode_scalar : Scalar → Text → Result Raised (Value F)
  decode_scalar integers t = decode_int t
  decode_scalar floats t = do f ← or_value_error (float_of t); ok (float f)
  decode_scalar booleans t = decode_bool t
  decode_scalar statuses t = do s ← or_value_error (status_named t); ok (status s)
  decode_scalar texts t = ok (text t)
  decode_scalar others t = ok (text t)

  unfoldable pub is_positive : ℤ → Bool
  is_positive (pos zero) = false
  is_positive (pos (suc n)) = true
  is_positive (negsuc n) = false

  -- an int too large for a double reads as an infinity with its sign
  unfoldable pub read_float : ℤ → Option F → F
  read_float z (some f) = f
  read_float z none = if is_positive z then infinity else negative_infinity

  -- `_from_json` for a scalar type
  unfoldable pub scalar_from_json : Scalar → Json F → Result Raised (Value F)
  scalar_from_json integers (integer z) = ok (int z)
  scalar_from_json integers _ = err value_error
  scalar_from_json floats (integer z) = ok (float (read_float z (float_of_int z)))
  scalar_from_json floats (floating f) = ok (float f)
  scalar_from_json floats _ = err value_error
  scalar_from_json booleans (boolean b) = ok (bool b)
  scalar_from_json booleans _ = err value_error
  scalar_from_json k (string t) = decode_scalar k t
  scalar_from_json k _ = err value_error

  -- `_from_json`
  unfoldable mutual
    pub from_json : Text → Json F → Result Raised (Value F)
    from_json t (array items) = elim (kind_of t) [
      | array_of i ↦ (do vs ← all_from_json i items; ok (list vs))
      | scalar k ↦ scalar_from_json k (array items)
    ]
    from_json t j = elim (kind_of t) [
      | array_of i ↦ err value_error
      | scalar k ↦ scalar_from_json k j
    ]

    pub all_from_json : Text → Items F → Result Raised (Values F)
    all_from_json i no_items = ok no_values
    all_from_json i (item j items) = do
      v ← from_json i j
      vs ← all_from_json i items
      ok (value v vs)

  unfoldable pub read_array : Text → Loaded F → Result Raised (Value F)
  read_array i (loaded (array items)) = do vs ← all_from_json i items; ok (list vs)
  read_array i (loaded _) = err value_error
  read_array i malformed = err value_error
  read_array i too_deep = err recursion_error

  unfoldable pub decode_kind : TypeKind → Text → Result Raised (Value F)
  decode_kind (array_of i) t = read_array i (loads t)
  decode_kind (scalar k) t = decode_scalar k t

  -- `decode_value`
  unfoldable pub decode_value : Text → Text → Result Raised (Value F)
  decode_value data_type t = decode_kind (kind_of data_type) t

  -- the text of a scalar: its JSON form, without quotes
  unfoldable pub scalar_text : Json F → Option Text
  scalar_text (boolean true) = some (codes "true")
  scalar_text (boolean false) = some (codes "false")
  scalar_text (string t) = some t
  scalar_text (integer z) = str_of_int z
  scalar_text (floating f) = some (float_text f)
  scalar_text null = dumps null
  scalar_text (array items) = dumps (array items)
  scalar_text (object members) = dumps (object members)

  unfoldable pub encode_array : Text → Value F → Result Raised Text
  encode_array i (list vs) = do items ← all_to_json i vs; or_value_error (dumps (array items))
  encode_array i v = err value_error

  unfoldable pub encode_kind : TypeKind → Value F → Result Raised Text
  encode_kind (array_of i) v = encode_array i v
  encode_kind (scalar k) v = do j ← scalar_to_json k v; or_value_error (scalar_text j)

  unfoldable pub encode_str : Text → Option Text → Value F → Result Raised Text
  encode_str data_type none v = encode_kind (kind_of data_type) v
  encode_str data_type (some t) v = do _ ← decode_value data_type t; ok t

  -- `encode_value`
  unfoldable pub encode_value : Text → Value F → Result Raised Text
  encode_value data_type v = encode_str data_type (str_of v) v

  -- where `decode_value` raises nothing: the test of a value in engine.py
  unfoldable pub decodes : Text → Text → Bool
  decodes data_type t = elim (decode_value data_type t) [ ok v ↦ true | err e ↦ false ]
