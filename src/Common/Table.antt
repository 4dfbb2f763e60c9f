-- ===== src/Common/Table.antt =====
-- Python's `dict` with keys that are compared as objects: a key is the number of its object.
use Prim.Native.Nat.{ℕ}
use mathlib.Core.Path.{◌≡◌, refl}
use mathlib.Core.Option.{Option, none, some}
use mathlib.Core.List.{List, [], ◌∷◌}
use native.Mathlib.Omega.{arith}
use openrois.Common.Tests.{if◌then◌else◌, ◌==◌}

abbrev pub Table {ℓ} : Type ℓ → Type ℓ
Table V = List (ℕ × V)

module _ {ℓ} {V : Type ℓ} where
  -- d.get(k)
  unfoldable pub find : ℕ → Table V → Option V
  find k [] = none
  find k ((j, v) ∷ d) = if j == k then some v else find k d

  -- d[k] = v
  unfoldable pub write : ℕ → V → Table V → Table V
  write k v [] = (k, v) ∷ []
  write k v ((j, w) ∷ d) = if j == k then (j, v) ∷ d else (j, w) ∷ write k v d

  -- d.pop(k, None)
  unfoldable pub erase : ℕ → Table V → Table V
  erase k [] = []
  erase k ((j, v) ∷ d) = if j == k then erase k d else (j, v) ∷ erase k d

  pub find-write :
      (k j : ℕ) (v : V) (d : Table V) → find j (write k v d) ≡ (if k == j then some v else find j d)
  unfolding find write
  find-write k j v [] = refl
  find-write k j v ((i, w) ∷ d) = ground (arith, find-write k j v d)

  pub find-erase :
      (k j : ℕ) (d : Table V) → find j (erase k d) ≡ (if k == j then none else find j d)
  unfolding find erase
  find-erase k j [] = ground arith
  find-erase k j ((i, w) ∷ d) = ground (arith, find-erase k j d)
