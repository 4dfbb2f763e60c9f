-- ===== src/Common/Numerals.antt =====
-- `str` of a number: its decimal digits, and that two numbers never share them.
use Prim.Native.Nat.{ℕ, zero, suc, ◌+◌, ◌-◌, ◌*◌, ◌/◌, ◌%◌, ◌<◌}
use mathlib.Core.Path.{◌≡◌, refl, ap, sym, ◌∙◌}
use mathlib.Core.List.{[], ◌∷◌, ◌++◌}
use native.Mathlib.Omega.{arith}
use openrois.Common.Tests.{ltb, if◌then◌else◌}
use openrois.Common.Texts.{Text}

-- With more fuel than the number; each digit is a tenth of what is left.
unfoldable pub digits : ℕ → ℕ → Text
digits zero n = []
digits (suc fuel) n =
    let higher = digits fuel (n / 10) ++ (b'0' + n % 10) ∷ [] in
    if ltb n 10 then (b'0' + n) ∷ [] else higher

unfoldable pub decimal : ℕ → Text
unfolding digits
decimal n = digits (suc n) n

-- the number that digits stand for, behind those read already
number_from : ℕ → Text → ℕ
number_from n [] = n
number_from n (c ∷ s) = number_from (n * 10 + (c - b'0')) s

number_from-append :
    (n : ℕ) (s : Text) (c : ℕ) → number_from n (s ++ c ∷ []) ≡ number_from n s * 10 + (c - b'0')
unfolding number_from
number_from-append n [] c = refl
number_from-append n (d ∷ s) c = number_from-append (n * 10 + (d - b'0')) s c

number_from-digit : (n : ℕ) → number_from 0 ((b'0' + n) ∷ []) ≡ n
unfolding number_from
number_from-digit n = omega arith

number_from-digits : (fuel n : ℕ) → n < fuel → number_from 0 (digits fuel n) ≡ n
unfolding digits
number_from-digits zero n h = absurd (omega arith)
number_from-digits (suc fuel) n h = ground (
  arith,
  number_from-digit n,
  number_from-append 0 (digits fuel (n / 10)) (b'0' + n % 10),
  number_from-digits fuel (n / 10),
)

pub decimal-injective : (m n : ℕ) → decimal m ≡ decimal n → m ≡ n
unfolding decimal
decimal-injective m n e =
    sym (number_from-digits (suc m) m (omega arith))
    ∙ ap (number_from 0) e
    ∙ number_from-digits (suc n) n (omega arith)
