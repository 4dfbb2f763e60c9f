-- ===== src/Sdk/Times.antt =====
-- transport.py: how often a request is in the tables of a transport.
use openrois.Common.{
  ℕ, ◌+◌, ◌≤◌, ◌≡◌, refl, Bool, true, false, some, List, [], ◌∷◌, ◌++◌, arith, if◌then◌else◌, ◌==◌,
}
use openrois.Common.Table.{Table, find, erase}
use openrois.Sdk.Transport.{done_at, all_lost}

-- how often a request is in a table, or among the answers
unfoldable pub times : {V : Type 0} → ℕ → List (ℕ × V) → ℕ
times id [] = 0
times id ((i, v) ∷ entries) = (if i == id then 1 else 0) + times id entries

pub times-append :
    {V : Type 0} (id : ℕ) (xs ys : List (ℕ × V)) → times id (xs ++ ys) ≡ times id xs + times id ys
unfolding times
times-append id [] ys = omega arith
times-append id ((i, v) ∷ xs) ys = omega (arith, times-append id xs ys)

pub times-erase :
    {V : Type 0} (id k : ℕ) (d : Table V)
    → times id (erase k d) ≡ (if k == id then 0 else times id d)
unfolding times erase
times-erase id k [] = ground arith
times-erase id k ((i, v) ∷ d) = ground (arith, times-erase id k d)

pub times-find : {V : Type 0} (id : ℕ) (d : Table V) (v : V) → find id d ≡ some v → 1 ≤ times id d
unfolding times find
times-find id [] v e = absurd (ground arith)
times-find id ((i, w) ∷ d) v e = ground (arith, times-find id d v, e)

pub times-done_at : (id k : ℕ) (d : Table Bool) → times id (done_at k d) ≡ times id d
unfolding times done_at
times-done_at id k [] = refl
times-done_at id k ((i, v) ∷ d) = omega (arith, times-done_at id k d)

pub times-all_lost : (id : ℕ) (d : Table Bool) → times id (all_lost d) ≤ times id d
unfolding times all_lost
times-all_lost id [] = omega arith
times-all_lost id ((i, true) ∷ d) = ground (arith, times-all_lost id d)
times-all_lost id ((i, false) ∷ d) = ground (arith, times-all_lost id d)

pub times-erase_bound : {V : Type 0} (id k : ℕ) (d : Table V) → times id (erase k d) ≤ times id d
times-erase_bound id k d = ground (arith, times-erase id k d)

pub times-single :
    {V : Type 0} (k id : ℕ) (v : V) → times k ((id, v) ∷ []) ≡ (if id == k then 1 else 0)
unfolding times
times-single k id v = omega arith
