-- ===== src/Common/Results.antt =====
-- Exceptions as values.
use mathlib.Core.Path.{◌≡◌, refl}

pub data Result {ℓ κ} (E : Type ℓ) (A : Type κ) : Type (ℓ ⊔ κ) where
  ok : A → Result E A
  err : E → Result E A

module _ {ℓ κ μ} {E : Type ℓ} {A : Type κ} {B : Type μ} where
  infixl 5 ◌>>=◌
  -- a raised exception skips the rest
  abbrev pub ◌>>=◌ : Result E A → (A → Result E B) → Result E B
  err raised >>= rest = err raised
  ok result >>= rest = rest result

  -- Where a bind returns, its action did, and the rest returned at that result.
  pub >>=-eq-ok :
      (action : Result E A) (rest : A → Result E B) {value : B}
      → (action >>= rest) ≡ ok value
      → (result : A) × (action ≡ ok result) × (rest result ≡ ok value)
  >>=-eq-ok (err raised) rest returned = cc
  >>=-eq-ok (ok result) rest returned = (result, refl, returned)
