-- ===== src/Condition/Like.antt =====
-- condition.py: `_like_regex`. A part is one of the three expressions that the source joins: an escaped
-- character, `.*` and `.`. `full_match` is no code of the repository: it is what the documentation of
-- `re` says of `fullmatch` on a join of these, the dot matching every character (`re.DOTALL`).
use openrois.Common.{
  ℕ, Bool, true, false, ◌&&◌, List, [], ◌∷◌, ◌==◌, if◌then◌else◌, Text, Result, ok, err, ◌>>=◌,
}
use openrois.Condition.Syntax.{ConditionError, dangling_escape}

pub data Part : Type 0 where
  exactly : ℕ → Part
  any_run any_one : Part

abbrev pub backslash : ℕ
backslash = 92

abbrev pub part_of : ℕ → Part
part_of c = if c == b'%' then any_run else if c == b'_' then any_one else exactly c

-- The loop over the characters, with the flag `escaped`.
unfoldable pub like_loop : Bool → Text → Result ConditionError (List Part)
like_loop true [] = err dangling_escape
like_loop false [] = ok []
like_loop true (c ∷ s) = do parts ← like_loop false s; ok (exactly c ∷ parts)
like_loop false (c ∷ s) =
    let plain = (do parts ← like_loop false s; ok (part_of c ∷ parts)) in
    let escape = like_loop true s in if c == backslash then escape else plain

unfoldable pub like_regex : Text → Result ConditionError (List Part)
unfolding like_loop
like_regex pattern = like_loop false pattern

-- `fullmatch` of Python's `re`, on such expressions
unfoldable pub full_match : List Part → Text → Bool
full_match [] [] = true
full_match [] (d ∷ s) = false
full_match (exactly c ∷ parts) [] = false
full_match (exactly c ∷ parts) (d ∷ s) = c == d && full_match parts s
full_match (any_one ∷ parts) [] = false
full_match (any_one ∷ parts) (d ∷ s) = full_match parts s
full_match (any_run ∷ parts) [] = full_match parts []
full_match (any_run ∷ parts) (d ∷ s) = elim (full_match parts (d ∷ s)) [
  | true ↦ true
  | false ↦ full_match (any_run ∷ parts) s
]
