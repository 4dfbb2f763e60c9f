-- ===== src/Values/RoundTrip.antt =====
-- values.py: what `encode_value` writes, `decode_value` reads back.
use openrois.Common.{
  ◌≡◌, refl, ◌∙◌, Bool, true, false, Option, none, some, Text, text_eq, codes, ok, err, ◌⊎◌, inl,
  inr,
}
use openrois.Profiles.Status.{ComponentStatus}
use openrois.Values.Types.{
  Scalar, integers, floats, booleans, statuses, texts, others, array_of, scalar, kind_of,
  status_name, status_named-status_name,
}
use openrois.Values.Numbers.{ℤ, str_of_int}
use openrois.Values.Integers.{decode_int-str_of_int}
use openrois.Values.Encode.{
  or_value_error, str_of, scalar_to_json, status_to_json, text_to_json, to_json, all_to_json,
  decode_bool, decode_scalar, scalar_from_json, from_json, all_from_json, read_array, decode_kind,
  decode_value, scalar_text, encode_array, encode_kind, encode_str, encode_value,
}
use openrois.Values.Python.{
  Json, Items, boolean, integer, floating, string, array, no_items, item, Value, Values, bool, int,
  float, text, datetime, status, list, other, no_values, value, value_error, loaded, Python,
}

-- A value that the type is for. A datetime, None and a dict are written, and read back as another value.
unfoldable mutual
  pub Fits : {F : Type 0} → Text → Value F → Type 0
  Fits t (bool b) = kind_of t ≡ scalar booleans
  Fits t (int z) = kind_of t ≡ scalar integers
  Fits t (float f) = kind_of t ≡ scalar floats
  Fits t (text s) = (kind_of t ≡ scalar texts) ⊎ (kind_of t ≡ scalar others)
  Fits t (datetime s) = ⊥
  Fits t (status s) = kind_of t ≡ scalar statuses
  Fits t (list vs) = (i : Text) × (kind_of t ≡ array_of i) × AllFit i vs
  Fits t (other j) = ⊥

  pub AllFit : {F : Type 0} → Text → Values F → Type 0
  AllFit i no_values = Unit
  AllFit i (value v vs) = Fits i v × AllFit i vs

module _ {F : Type 0} (py : Python F) where
  open py use {loads, dumps, float_text, float_of}

  -- what the round trip takes of Python: `json.loads` reads what `json.dumps` wrote, and `float` reads
  -- a float that it wrote
  pub record Laws : Type 0 where
    pub loads-dumps : (j : Json F) (t : Text) → dumps j ≡ some t → loads t ≡ loaded j
    pub float_of-float_text : (f : F) → float_of (float_text f) ≡ some f

  -- both ways between values and JSON
  abbrev JsonOf : Text → Value F → Type 0
  JsonOf t v = (j : Json F) × (to_json py t v ≡ ok j) × (from_json py t j ≡ ok v)

  abbrev ItemsOf : Text → Values F → Type 0
  ItemsOf i vs =
      (items : Items F) × (all_to_json py i vs ≡ ok items) × (all_from_json py i items ≡ ok vs)

  mutual
    unfolding to_json from_json scalar_to_json scalar_from_json status_to_json text_to_json str_of
        decode_scalar or_value_error Fits

    to_json-Fits : (t : Text) (v : Value F) → Fits t v → JsonOf t v
    to_json-Fits t (bool b) h = (boolean b, rw (to_json, h) refl, rw (from_json, h) refl)
    to_json-Fits t (int z) h = (integer z, rw (to_json, h) refl, rw (from_json, h) refl)
    to_json-Fits t (float f) h = (floating f, rw (to_json, h) refl, rw (from_json, h) refl)
    to_json-Fits t (text s) (inl h) = (string s, rw (to_json, h) refl, rw (from_json, h) refl)
    to_json-Fits t (text s) (inr h) = (string s, rw (to_json, h) refl, rw (from_json, h) refl)
    to_json-Fits t (datetime s) h = elim h [ ]
    to_json-Fits t (status s) h = (
      string (status_name s),
      rw (to_json, h, status_named-status_name s) refl,
      rw (from_json, h, status_named-status_name s) refl,
    )
    to_json-Fits t (list vs) (i, h, fit) =
        let (items, written, read) = all_to_json-AllFit i vs fit in
        (array items, rw (to_json, h, written) refl, rw (from_json, h, read) refl)
    to_json-Fits t (other j) h = elim h [ ]

    all_to_json-AllFit : (i : Text) (vs : Values F) → AllFit i vs → ItemsOf i vs
    all_to_json-AllFit i no_values h = (no_items, refl, refl)
    all_to_json-AllFit i (value v vs) (h, hs) =
        let (j, written, read) = to_json-Fits i v h in
        let (items, all_written, all_read) = all_to_json-AllFit i vs hs in
        (item j items, rw (written, all_written) refl, rw (read, all_read) refl)

  -- Written, the value reads back; not written, its JSON form has no text.
  abbrev RoundTrip : Text → Value F → Type 0
  RoundTrip t v =
      ((s : Text) × (encode_value py t v ≡ ok s) × (decode_value py t s ≡ ok v))
      ⊎ ((j : Json F) × (to_json py t v ≡ ok j)
          × (scalar_text py j ≡ none)
          × (encode_value py t v ≡ err value_error))

  -- a value that is no text, by the text of its JSON form
  RoundTrip-text :
      (t : Text) (v : Value F) (j : Json F) (written : Option Text)
      → to_json py t v ≡ ok j
      → scalar_text py j ≡ written
      → encode_value py t v ≡ or_value_error written
      → ((s : Text) → written ≡ some s → decode_value py t s ≡ ok v)
      → RoundTrip t v
  unfolding or_value_error
  RoundTrip-text t v j none json has encoded read = inr (j, json, has, encoded)
  RoundTrip-text t v j (some s) json has encoded read = inl (s, encoded, read s refl)

  bool-RoundTrip : (t : Text) (b : Bool) → kind_of t ≡ scalar booleans → RoundTrip t (bool b)
  unfolding encode_value encode_str encode_kind scalar_to_json decode_value decode_kind
      decode_scalar scalar_text str_of or_value_error decode_bool text_eq
  bool-RoundTrip t true h = inl (codes "true", rw h refl, rw h refl)
  bool-RoundTrip t false h = inl (codes "false", rw h refl, rw h refl)

  -- A text is checked and sent as it is.
  text-RoundTrip :
      (t s : Text) (v : Value F) → str_of v ≡ some s → decode_value py t s ≡ ok v → RoundTrip t v
  unfolding encode_value encode_str
  text-RoundTrip t s v is_text read = inl (s, rw (is_text, read) refl, read)

  decode_value-scalar :
      (t s : Text) (k : Scalar) → kind_of t ≡ scalar k → decode_value py t s ≡ decode_scalar py k s
  unfolding decode_value decode_kind
  decode_value-scalar t s k h = rw h refl

  decode_scalar-status :
      (s : ComponentStatus) → decode_scalar py statuses (status_name s) ≡ ok (status s)
  unfolding decode_scalar or_value_error
  decode_scalar-status s = rw (status_named-status_name s) refl

  decode_scalar-text :
      (s : Text)
      → (decode_scalar py texts s ≡ ok (text s)) × (decode_scalar py others s ≡ ok (text s))
  unfolding decode_scalar
  decode_scalar-text s = (refl, refl)

  module _ (laws : Laws) where
    open laws use {loads-dumps, float_of-float_text}

    int-RoundTrip : (t : Text) (z : ℤ) → kind_of t ≡ scalar integers → RoundTrip t (int z)
    unfolding encode_value encode_str encode_kind to_json scalar_to_json decode_scalar scalar_text
        str_of or_value_error
    int-RoundTrip t z h =
        RoundTrip-text t (int z) (integer z) (str_of_int z) (rw (to_json, h) refl) refl (rw h refl)
          (λ s printed. decode_value-scalar t s integers h ∙ decode_int-str_of_int py z s printed)

    float-RoundTrip : (t : Text) (f : F) → kind_of t ≡ scalar floats → RoundTrip t (float f)
    unfolding encode_value encode_str encode_kind to_json scalar_to_json decode_scalar scalar_text
        str_of or_value_error
    float-RoundTrip t f h = inl (
      float_text f,
      rw h refl,
      decode_value-scalar t (float_text f) floats h ∙ rw (float_of-float_text f) refl,
    )

    list-RoundTrip : (t : Text) (vs : Values F) → Fits t (list vs) → RoundTrip t (list vs)
    unfolding encode_value encode_str encode_kind encode_array to_json decode_value decode_kind
        read_array scalar_text str_of Fits
    list-RoundTrip t vs (i, h, fit) =
        let (items, written, read) = all_to_json-AllFit i vs fit in
        RoundTrip-text t (list vs) (array items) (dumps (array items))
          (rw (to_json, h, written) refl) refl (rw (h, written) refl)
          (λ s dumped. rw (h, loads-dumps (array items) s dumped, read) refl)

    -- A value that its type is for reads back as itself from the text that is written for it; the only
    -- error is that of a JSON form without a text, which an int with too many digits makes.
    pub encode_value-RoundTrip : (t : Text) (v : Value F) → Fits t v → RoundTrip t v
    unfolding str_of Fits
    encode_value-RoundTrip t (bool b) h = bool-RoundTrip t b h
    encode_value-RoundTrip t (int z) h = int-RoundTrip t z h
    encode_value-RoundTrip t (float f) h = float-RoundTrip t f h
    encode_value-RoundTrip t (text s) (inl h) =
        text-RoundTrip t s (text s) refl
          (decode_value-scalar t s texts h ∙ (decode_scalar-text s).0)
    encode_value-RoundTrip t (text s) (inr h) =
        text-RoundTrip t s (text s) refl
          (decode_value-scalar t s others h ∙ (decode_scalar-text s).1)
    encode_value-RoundTrip t (datetime s) h = elim h [ ]
    encode_value-RoundTrip t (status s) h =
        text-RoundTrip t (status_name s) (status s) refl
          (decode_value-scalar t (status_name s) statuses h ∙ decode_scalar-status s)
    encode_value-RoundTrip t (list vs) h = list-RoundTrip t vs h
    encode_value-RoundTrip t (other j) h = elim h [ ]
