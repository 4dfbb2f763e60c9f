-- ===== src/Values/Numbers.antt =====
-- What values.py uses of Python's integers: `str(n)`, `int(text)`, `str.isdigit`, `str.lstrip`.
use openrois.Common.{
  ℕ, zero, suc, ◌+◌, ◌-◌, ◌*◌, Bool, true, false, not, ◌&&◌, Option, none, some, [], ◌∷◌, ltb, leb,
  ◌==◌, if◌then◌else◌, length, all, Text, is_space,
}
use openrois.Common.Numerals.{decimal}

-- `negsuc n` is -(n + 1).
pub data ℤ : Type 0 where
  pos : ℕ → ℤ
  negsuc : ℕ → ℤ

-- What a character is to `str.isdigit` and to `int`: a digit with its value, or a digit such as a
-- superscript, which `int` refuses.
pub data Digit : Type 0 where
  no_digit : Digit
  digit : ℕ → Digit
  other_digit : Digit

-- `int` and `str` of an integer refuse more digits: `sys.int_info.default_max_str_digits`.
abbrev pub max_digits : ℕ
max_digits = 4300

unfoldable pub is_ascii_digit : ℕ → Bool
is_ascii_digit c = leb b'0' c && leb c b'9'

-- `str(n)`
unfoldable pub int_text : ℤ → Text
int_text (pos n) = decimal n
int_text (negsuc n) = b'-' ∷ decimal (suc n)

-- `str(n)`, or `none` for its ValueError
unfoldable pub digit_count : ℤ → ℕ
digit_count (pos n) = length (decimal n)
digit_count (negsuc n) = length (decimal (suc n))

unfoldable pub str_of_int : ℤ → Option Text
str_of_int z = if leb (digit_count z) max_digits then some (int_text z) else none

-- text.lstrip("-")
unfoldable pub lstrip_dashes : Text → Text
lstrip_dashes [] = []
lstrip_dashes (c ∷ s) = if c == b'-' then lstrip_dashes s else c ∷ s

-- `text.strip() == text`: neither the first nor the last character is white space.
unfoldable pub ends_in_space : Text → Bool
ends_in_space [] = false
ends_in_space (c ∷ []) = is_space c
ends_in_space (c ∷ d ∷ s) = ends_in_space (d ∷ s)

unfoldable pub is_stripped : Text → Bool
is_stripped [] = true
is_stripped (c ∷ s) = not (is_space c) && not (ends_in_space (c ∷ s))

unfoldable pub is_digit : Digit → Bool
is_digit no_digit = false
is_digit (digit d) = true
is_digit other_digit = true

unfoldable pub negated : Option ℕ → Option ℤ
negated none = none
negated (some zero) = some (pos 0)
negated (some (suc n)) = some (negsuc n)

unfoldable pub not_negated : Option ℕ → Option ℤ
not_negated none = none
not_negated (some n) = some (pos n)

-- `unicode` says what a character beyond ASCII is.
module _ (unicode : ℕ → Digit) where
  unfoldable pub digit_of : ℕ → Digit
  digit_of c =
      if is_ascii_digit c then digit (c - b'0') else if ltb c 128 then no_digit else unicode c

  -- text.isdigit()
  unfoldable pub isdigit : Text → Bool
  isdigit [] = false
  isdigit (c ∷ s) = all (λ d. is_digit (digit_of d)) (c ∷ s)

  -- the number that digits stand for, behind those read already
  unfoldable pub read_number : ℕ → Text → Option ℕ
  read_number n [] = some n
  read_number n (c ∷ s) = elim (digit_of c) [
    | no_digit ↦ none
    | digit d ↦ read_number (n * 10 + d) s
    | other_digit ↦ none
  ]

  unfoldable pub read_digits : Text → Option ℕ
  read_digits [] = none
  read_digits (c ∷ s) = if leb (length (c ∷ s)) max_digits then read_number 0 (c ∷ s) else none

  -- `int(text)` of a text that passed the tests before it: a sign at most, and digits
  unfoldable pub int_of : Text → Option ℤ
  int_of [] = none
  int_of (c ∷ s) = if c == b'-' then negated (read_digits s) else not_negated (read_digits (c ∷ s))
