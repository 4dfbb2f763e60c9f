-- ===== src/Values/Tests.antt =====
-- Tests of the encodings, and the round trip on a list, with floats that are the two infinities and one
-- array that `json.dumps` is known for.
use openrois.Common.{
  ◌≡◌, refl, Bool, true, false, Option, none, some, Text, text_eq, text_eq_iff, codes, all, any,
  is_space, ok, err, if◌then◌else◌, arith, ◌⊎◌,
}
use openrois.Values.Numbers.{
  negsuc, no_digit, is_stripped, ends_in_space, isdigit, is_digit, digit_of, is_ascii_digit,
  lstrip_dashes, int_of, negated, read_digits, read_number,
}
use openrois.Values.Encode.{
  to_json, scalar_text, encode_value, decode_value, decode_int, or_value_error,
}
use openrois.Values.Python.{
  Json, null, boolean, integer, floating, string, array, object, no_items, item, bool, int, list,
  no_values, value, value_error, Loaded, loaded, malformed, Python,
}
use openrois.Values.Types.{kind_of, item_type, scalar_of, lower}
use openrois.Condition.Parse.{mem_text}
use openrois.Values.RoundTrip.{Laws, Fits, encode_value-RoundTrip}

only_list : Json Bool → Option Text
only_list (array (item (boolean true) no_items)) = some (codes "[true]")
only_list _ = none

read_list : Text → Loaded Bool
read_list t =
    if text_eq t (codes "[true]") then loaded (array (item (boolean true) no_items)) else malformed

infinite : Bool → Text
infinite true = codes "Infinity"
infinite false = codes "-Infinity"

read_infinite : Text → Option Bool
read_infinite t = if text_eq t (codes "Infinity") then some true else some false

abbrev infinities : Python Bool
infinities = record {
  loads = read_list;
  dumps = only_list;
  unicode = λ c. no_digit;
  float_text = infinite;
  float_of = read_infinite;
  float_of_int = λ z. none;
  infinity = true;
  negative_infinity = false;
}

only_list-loads : (j : Json Bool) (t : Text) → only_list j ≡ some t → read_list t ≡ loaded j
unfolding only_list read_list
only_list-loads null t e = absurd (ground arith)
only_list-loads (boolean b) t e = absurd (ground arith)
only_list-loads (integer z) t e = absurd (ground arith)
only_list-loads (floating f) t e = absurd (ground arith)
only_list-loads (string s) t e = absurd (ground arith)
only_list-loads (object entries) t e = absurd (ground arith)
only_list-loads (array no_items) t e = absurd (ground arith)
only_list-loads (array (item null items)) t e = absurd (ground arith)
only_list-loads (array (item (boolean false) items)) t e = absurd (ground arith)
only_list-loads (array (item (integer z) items)) t e = absurd (ground arith)
only_list-loads (array (item (floating f) items)) t e = absurd (ground arith)
only_list-loads (array (item (string s) items)) t e = absurd (ground arith)
only_list-loads (array (item (array inner) items)) t e = absurd (ground arith)
only_list-loads (array (item (object entries) items)) t e = absurd (ground arith)
only_list-loads (array (item (boolean true) (item j items))) t e = absurd (ground arith)
only_list-loads (array (item (boolean true) no_items)) t e =
    rw ((text_eq_iff t (codes "[true]")).1 (ground arith)) refl

infinite-read : (f : Bool) → read_infinite (infinite f) ≡ some f
unfolding read_infinite infinite text_eq
infinite-read true = refl
infinite-read false = refl

infinities-Laws : Laws infinities
infinities-Laws = record { loads-dumps = only_list-loads; float_of-float_text = infinite-read }

encode_value-RoundTrip_example :
    ((s : Text) × (encode_value infinities (codes "boolean[]") (list (value (bool true) no_values))
        ≡ ok s)
      × (decode_value infinities (codes "boolean[]") s ≡ ok (list (value (bool true) no_values))))
    ⊎ ((j : Json Bool) × (to_json infinities
            (codes "boolean[]")
            (list (value (bool true) no_values))
          ≡ ok j)
        × (scalar_text infinities j ≡ none)
        × (encode_value infinities (codes "boolean[]") (list (value (bool true) no_values))
            ≡ err value_error))
unfolding kind_of item_type scalar_of lower mem_text text_eq Fits any
encode_value-RoundTrip_example =
    encode_value-RoundTrip infinities infinities-Laws (codes "boolean[]")
      (list (value (bool true) no_values)) (codes "boolean", refl, (refl, tt))

-- Leading zeros and one sign or several are read as `int` does; spaces are refused.
signed_zeros : decode_int infinities (codes "-007") ≡ ok (int (negsuc 6))
unfolding decode_int is_stripped ends_in_space is_space isdigit all is_digit digit_of is_ascii_digit
    lstrip_dashes int_of negated read_digits read_number or_value_error
signed_zeros = refl

two_signs : decode_int infinities (codes "--7") ≡ err value_error
unfolding decode_int is_stripped ends_in_space is_space isdigit all is_digit digit_of is_ascii_digit
    lstrip_dashes int_of negated read_digits read_number or_value_error
two_signs = refl

a_space : decode_int infinities (codes "7 ") ≡ err value_error
unfolding decode_int is_stripped ends_in_space is_space
a_space = refl
