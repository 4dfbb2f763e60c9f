-- ===== src/Values/Digits.antt =====
-- values.py: an integer reads back from its text.
use openrois.Common.{
  ℕ, zero, suc, ◌+◌, ◌-◌, ◌*◌, ◌/◌, ◌%◌, ◌<◌, ◌≡◌, refl, sym, ap, ◌∙◌, Bool, true, ◌&&◌, some, List,
  [], ◌∷◌, ◌++◌, arith, ltb, all, Text, Bool-cases, inl, inr,
}
use openrois.Common.Numerals.{digits}
use openrois.Values.Numbers.{Digit, digit, is_ascii_digit, is_digit, digit_of, isdigit, read_number}

-- a text of digits, one at least
abbrev pub IsDigits : Text → Type 0
IsDigits [] = ⊥
IsDigits (c ∷ s) = all is_ascii_digit (c ∷ s) ≡ true

all-append :
    {A : Type 0} (p : A → Bool) (xs : List A) (x : A) → all p (xs ++ x ∷ []) ≡ all p xs && p x
unfolding all
all-append p [] x = ground arith
all-append p (y ∷ xs) x = ground (arith, all-append p xs x)

IsDigits-append :
    (s : Text) (c : ℕ)
    → all is_ascii_digit s ≡ true
    → is_ascii_digit c ≡ true
    → IsDigits (s ++ c ∷ [])
unfolding all
IsDigits-append [] c h k = ground arith
IsDigits-append (d ∷ s) c h k = ground (arith, all-append is_ascii_digit s c)

pub all-IsDigits : (s : Text) → IsDigits s → all is_ascii_digit s ≡ true
all-IsDigits [] h = elim h [ ]
all-IsDigits (c ∷ s) h = h

is_ascii_digit-add : (n : ℕ) → n < 10 → is_ascii_digit (b'0' + n) ≡ true
unfolding is_ascii_digit
is_ascii_digit-add n h = ground arith

pub digits-IsDigits : (fuel n : ℕ) → n < fuel → IsDigits (digits fuel n)
unfolding digits all
digits-IsDigits zero n h = absurd (omega arith)
digits-IsDigits (suc fuel) n h = elim (Bool-cases (ltb n 10)) [
  | inl small ↦ rw small (ground (arith, is_ascii_digit-add n))
  | inr large ↦ rw large (
      IsDigits-append (digits fuel (n / 10)) (b'0' + n % 10)
        (all-IsDigits (digits fuel (n / 10)) (digits-IsDigits fuel (n / 10) (ground arith)))
        (is_ascii_digit-add (n % 10) (omega arith)))
]

module _ (unicode : ℕ → Digit) where
  digit_of-ascii : (c : ℕ) → is_ascii_digit c ≡ true → digit_of unicode c ≡ digit (c - b'0')
  unfolding digit_of
  digit_of-ascii c h = rw h refl

  read_number-cons :
      (m : ℕ) (c : ℕ) (s : Text)
      → is_ascii_digit c ≡ true
      → read_number unicode m (c ∷ s) ≡ read_number unicode (m * 10 + (c - b'0')) s
  unfolding read_number
  read_number-cons m c s h = rw (digit_of-ascii c h, read_number) refl

  read_number-nil : (m : ℕ) → read_number unicode m [] ≡ some m
  unfolding read_number
  read_number-nil m = refl

  read_number-append :
      (m k : ℕ) (s : Text) (c : ℕ)
      → all is_ascii_digit s ≡ true
      → is_ascii_digit c ≡ true
      → read_number unicode m s ≡ some k
      → read_number unicode m (s ++ c ∷ []) ≡ some (k * 10 + (c - b'0'))
  unfolding all
  read_number-append m k [] c h hc e =
      read_number-cons m c [] hc
      ∙ read_number-nil (m * 10 + (c - b'0'))
      ∙ ap some (ground (arith, read_number-nil m))
  read_number-append m k (d ∷ s) c h hc e =
      read_number-cons m d (s ++ c ∷ []) (ground arith)
      ∙ read_number-append (m * 10 + (d - b'0')) k s c (ground arith) hc
          (sym (read_number-cons m d s (ground arith)) ∙ e)

  read_number-small : (n : ℕ) → n < 10 → read_number unicode 0 ((b'0' + n) ∷ []) ≡ some n
  read_number-small n h =
      read_number-cons 0 (b'0' + n) [] (is_ascii_digit-add n h)
      ∙ read_number-nil (0 * 10 + (b'0' + n - b'0'))
      ∙ ap some (omega arith)

  pub read_number-digits : (fuel n : ℕ) → n < fuel → read_number unicode 0 (digits fuel n) ≡ some n
  unfolding digits
  read_number-digits zero n h = absurd (omega arith)
  read_number-digits (suc fuel) n h = elim (Bool-cases (ltb n 10)) [
    | inl small ↦ rw small (read_number-small n (ground arith))
    | inr large ↦ rw large (
        read_number-append 0 (n / 10) (digits fuel (n / 10)) (b'0' + n % 10)
          (all-IsDigits (digits fuel (n / 10)) (digits-IsDigits fuel (n / 10) (ground arith)))
          (is_ascii_digit-add (n % 10) (omega arith))
          (read_number-digits fuel (n / 10) (ground arith))
        ∙ ap some (omega arith))
  ]

  isdigit-ascii :
      (s : Text) → all is_ascii_digit s ≡ true → all (λ d. is_digit (digit_of unicode d)) s ≡ true
  unfolding all is_digit
  isdigit-ascii [] h = refl
  isdigit-ascii (c ∷ s) h = rw (digit_of-ascii c (ground arith)) (isdigit-ascii s (ground arith))

  pub isdigit-IsDigits : (s : Text) → IsDigits s → isdigit unicode s ≡ true
  unfolding isdigit
  isdigit-IsDigits [] h = elim h [ ]
  isdigit-IsDigits (c ∷ s) h = isdigit-ascii (c ∷ s) h
