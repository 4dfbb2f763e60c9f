-- ===== src/Condition/Matching.antt =====
-- condition.py: what a full match of the expressions of `_like_regex` means.
use openrois.Common.{ℕ, ◌≡◌, refl, ◌↔◌, true, List, [], ◌∷◌, arith, Bool-cases, inl, inr, Text}
use openrois.Condition.Like.{Part, exactly, any_run, any_one, full_match}

-- Which texts are a full match of a list of parts.
pub data Matches : List Part → Text → Type 0 where
  done : Matches [] []
  same :
      {c : ℕ} {parts : List Part} {s : Text} → Matches parts s → Matches (exactly c ∷ parts) (c ∷ s)
  other :
      {d : ℕ} {parts : List Part} {s : Text} → Matches parts s → Matches (any_one ∷ parts) (d ∷ s)
  stop : {parts : List Part} {s : Text} → Matches parts s → Matches (any_run ∷ parts) s
  more :
      {d : ℕ} {parts : List Part} {s : Text}
      → Matches (any_run ∷ parts) s
      → Matches (any_run ∷ parts) (d ∷ s)

full_match_complete : {parts : List Part} {s : Text} → Matches parts s → full_match parts s ≡ true
unfolding full_match
full_match_complete done = refl
full_match_complete (same m) = ground (arith, full_match_complete m)
full_match_complete (other m) = full_match_complete m
full_match_complete {s = []} (stop m) = full_match_complete m
full_match_complete {s = d ∷ s} (stop m) = ground (arith, full_match_complete m)
full_match_complete (more m) = ground (arith, full_match_complete m)

same_of :
    (c d : ℕ) {parts : List Part} {s : Text}
    → c ≡ d
    → Matches parts s
    → Matches (exactly c ∷ parts) (d ∷ s)
same_of c d e m = rw e (same m)

full_match_sound : (parts : List Part) (s : Text) → full_match parts s ≡ true → Matches parts s
unfolding full_match
full_match_sound [] [] h = done
full_match_sound [] (d ∷ s) h = cc
full_match_sound (exactly c ∷ parts) [] h = cc
full_match_sound (exactly c ∷ parts) (d ∷ s) h =
    same_of c d (ground arith) (full_match_sound parts s (ground arith))
full_match_sound (any_one ∷ parts) [] h = cc
full_match_sound (any_one ∷ parts) (d ∷ s) h = other (full_match_sound parts s h)
full_match_sound (any_run ∷ parts) [] h = stop (full_match_sound parts [] h)
full_match_sound (any_run ∷ parts) (d ∷ s) h = elim (Bool-cases (full_match parts (d ∷ s))) [
  | inl e ↦ stop (full_match_sound parts (d ∷ s) e)
  | inr e ↦ more (full_match_sound (any_run ∷ parts) s (ground arith))
]

pub full_match_iff : (parts : List Part) (s : Text) → (full_match parts s ≡ true) ↔ Matches parts s
full_match_iff parts s = (full_match_sound parts s, full_match_complete)
