-- ===== src/Values/Integers.antt =====
-- values.py: an integer whose text has not too many digits reads back from it.
use openrois.Common.{
  ℕ, suc, ◌≡◌, refl, ap, ◌∙◌, true, false, some, [], ◌∷◌, arith, leb, length, all, Text, is_space,
  ok, Bool-cases, inl, inr,
}
use openrois.Common.Numerals.{digits, decimal}
use openrois.Values.Numbers.{
  ℤ, pos, negsuc, Digit, max_digits, is_ascii_digit, int_text, digit_count, str_of_int,
  lstrip_dashes, ends_in_space, is_stripped, negated, not_negated, isdigit, read_number,
  read_digits, int_of,
}
use openrois.Values.Digits.{IsDigits, digits-IsDigits, isdigit-IsDigits, read_number-digits}
use openrois.Values.Encode.{or_value_error, decode_int}
use openrois.Values.Python.{Python, int}

is_space-digit : (c : ℕ) → is_ascii_digit c ≡ true → is_space c ≡ false
unfolding is_ascii_digit is_space
is_space-digit c h = grind arith

ends_in_space-digits :
    (c : ℕ) (s : Text) → all is_ascii_digit (c ∷ s) ≡ true → ends_in_space (c ∷ s) ≡ false
unfolding all ends_in_space
ends_in_space-digits c [] h = is_space-digit c (ground arith)
ends_in_space-digits c (d ∷ s) h = ends_in_space-digits d s (ground arith)

is_stripped-IsDigits : (s : Text) → IsDigits s → is_stripped s ≡ true
unfolding is_stripped all
is_stripped-IsDigits [] h = refl
is_stripped-IsDigits (c ∷ s) h =
    rw (is_space-digit c (ground arith), ends_in_space-digits c s h) refl

is_stripped-dash : (s : Text) → IsDigits s → is_stripped (b'-' ∷ s) ≡ true
unfolding is_stripped ends_in_space is_space
is_stripped-dash [] h = refl
is_stripped-dash (c ∷ s) h = rw (ends_in_space-digits c s h) refl

lstrip_dashes-IsDigits : (s : Text) → IsDigits s → lstrip_dashes s ≡ s
unfolding lstrip_dashes all is_ascii_digit
lstrip_dashes-IsDigits [] h = refl
lstrip_dashes-IsDigits (c ∷ s) h = ground arith

lstrip_dashes-dash : (s : Text) → lstrip_dashes (b'-' ∷ s) ≡ lstrip_dashes s
unfolding lstrip_dashes
lstrip_dashes-dash s = refl

decimal-IsDigits : (n : ℕ) → IsDigits (decimal n)
unfolding decimal
decimal-IsDigits n = digits-IsDigits (suc n) n (omega arith)

module _ (unicode : ℕ → Digit) where
  read_digits-some :
      (s : Text) (n : ℕ)
      → IsDigits s
      → leb (length s) max_digits ≡ true
      → read_number unicode 0 s ≡ some n
      → read_digits unicode s ≡ some n
  unfolding read_digits
  read_digits-some [] n h small read = elim h [ ]
  read_digits-some (c ∷ s) n h small read = rw small read

  read_digits-decimal :
      (n : ℕ)
      → leb (length (decimal n)) max_digits ≡ true
      → read_digits unicode (decimal n) ≡ some n
  unfolding decimal
  read_digits-decimal n small =
      read_digits-some (digits (suc n) n) n (decimal-IsDigits n) small
        (read_number-digits unicode (suc n) n (omega arith))

  int_of-dash : (s : Text) → int_of unicode (b'-' ∷ s) ≡ negated (read_digits unicode s)
  unfolding int_of
  int_of-dash s = refl

  int_of-IsDigits : (s : Text) → IsDigits s → int_of unicode s ≡ not_negated (read_digits unicode s)
  unfolding int_of all is_ascii_digit
  int_of-IsDigits [] h = elim h [ ]
  int_of-IsDigits (c ∷ s) h = ground arith

module _ {F : Type 0} (py : Python F) where
  open py use {unicode}

  decode_int-some :
      (t : Text) (z : ℤ)
      → is_stripped t ≡ true
      → isdigit unicode (lstrip_dashes t) ≡ true
      → int_of unicode t ≡ some z
      → decode_int py t ≡ ok (int z)
  unfolding decode_int or_value_error
  decode_int-some t z stripped digit read = rw (stripped, digit, read) refl

  decode_int-int_text :
      (z : ℤ) → leb (digit_count z) max_digits ≡ true → decode_int py (int_text z) ≡ ok (int z)
  unfolding int_text digit_count
  decode_int-int_text (pos n) small =
      decode_int-some (decimal n) (pos n) (is_stripped-IsDigits (decimal n) (decimal-IsDigits n))
        (ap (isdigit unicode) (lstrip_dashes-IsDigits (decimal n) (decimal-IsDigits n))
          ∙ isdigit-IsDigits unicode (decimal n) (decimal-IsDigits n))
        (int_of-IsDigits unicode (decimal n) (decimal-IsDigits n)
          ∙ ap not_negated (read_digits-decimal unicode n small)
          ∙ (unfold not_negated in refl))
  decode_int-int_text (negsuc n) small =
      decode_int-some (b'-' ∷ decimal (suc n)) (negsuc n)
        (is_stripped-dash (decimal (suc n)) (decimal-IsDigits (suc n)))
        (ap (isdigit unicode) (
            lstrip_dashes-dash (decimal (suc n))
            ∙ lstrip_dashes-IsDigits (decimal (suc n)) (decimal-IsDigits (suc n)))
          ∙ isdigit-IsDigits unicode (decimal (suc n)) (decimal-IsDigits (suc n)))
        (int_of-dash unicode (decimal (suc n))
          ∙ ap negated (read_digits-decimal unicode (suc n) small)
          ∙ (unfold negated in refl))

  pub decode_int-str_of_int :
      (z : ℤ) (t : Text) → str_of_int z ≡ some t → decode_int py t ≡ ok (int z)
  unfolding str_of_int
  decode_int-str_of_int z t printed = elim (Bool-cases (leb (digit_count z) max_digits)) [
    | inl small ↦ ap (decode_int py) (ground arith) ∙ decode_int-int_text z small
    | inr large ↦ absurd (ground arith)
  ]
