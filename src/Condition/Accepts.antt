-- ===== src/Condition/Accepts.antt =====
-- condition.py: what `parse_condition` accepts, and what the condition that it returns means.
use openrois.Common.{
  ◌≡◌, refl, ◌↔◌, Bool, true, false, Option, none, some, List, [], ◌∷◌, arith, All, Bool-cases, inl,
  inr, if◌then◌else◌, Text, text_eq, text_eq_iff, Result, ok, err, ◌>>=◌, >>=-eq-ok,
}
use mathlib.Core.Path.{subst}
use openrois.Common.Dict
use openrois.Common.Dict.{Dict}
use openrois.Condition.Syntax.{Operator, equal, like, Comparison, Condition, ConditionError}
use openrois.Condition.Tokens.{Token, tokens}
use openrois.Condition.Like.{Part, like_regex, full_match}
use openrois.Condition.Parse.{
  mem_text, check_pattern, comparison_of, and_joins, later_comparisons, first_comparison,
  parse_condition, holds, comparison_matches, condition_matches,
}
use openrois.Condition.Matching.{Matches, full_match_iff}

-- The property is supported, and a LIKE pattern has no dangling escape.
pub record IsAccepted (allowed : List Text) (c : Comparison) : Type 0 where
  pub supported : mem_text c.property allowed ≡ true
  pub pattern_fits : check_pattern c.operator c.value ≡ ok tt

-- a round that leaves a comparison and the later ones
round-parts :
    (m : Result ConditionError Comparison) (n : Result ConditionError Condition) (c : Comparison)
    (cs : Condition)
    → (do first ← m; later ← n; ok (first ∷ later)) ≡ ok (c ∷ cs)
    → (m ≡ ok c) × (n ≡ ok cs)
round-parts (ok a) (ok b) c cs h = (cc, cc)
round-parts (ok a) (err e) c cs h = cc
round-parts (err e) n c cs h = cc

module _ (allowed : List Text) where
  comparison_of-IsAccepted :
      (p o l : Token) (c : Comparison) → comparison_of allowed p o l ≡ ok c → IsAccepted allowed c
  unfolding comparison_of
  comparison_of-IsAccepted p o l c h = record {
    supported = ground arith;
    pattern_fits = ground arith;
  }

  later_comparisons-IsAccepted :
      (ts : List Token) (cs : Condition)
      → later_comparisons allowed ts ≡ ok cs
      → All (IsAccepted allowed) cs
  unfolding later_comparisons
  later_comparisons-IsAccepted [] [] h = tt
  later_comparisons-IsAccepted [] (c ∷ cs) h = cc
  later_comparisons-IsAccepted (j ∷ p ∷ o ∷ l ∷ rest) [] h = tt
  later_comparisons-IsAccepted (j ∷ p ∷ o ∷ l ∷ rest) (c ∷ cs) h =
      let (_, _, round) = >>=-eq-ok (and_joins j.kind j) _ h in
      let (first, later) = round-parts _ _ c cs round in
      (comparison_of-IsAccepted p o l c first, later_comparisons-IsAccepted rest cs later)
  later_comparisons-IsAccepted (j ∷ rest) cs h = ground arith

  first_comparison-IsAccepted :
      (ts : List Token) (cs : Condition)
      → first_comparison allowed ts ≡ ok cs
      → All (IsAccepted allowed) cs
  unfolding first_comparison
  first_comparison-IsAccepted [] [] h = tt
  first_comparison-IsAccepted [] (c ∷ cs) h = cc
  first_comparison-IsAccepted (p ∷ o ∷ l ∷ rest) [] h = tt
  first_comparison-IsAccepted (p ∷ o ∷ l ∷ rest) (c ∷ cs) h =
      let (first, later) = round-parts _ _ c cs h in
      (comparison_of-IsAccepted p o l c first, later_comparisons-IsAccepted rest cs later)
  first_comparison-IsAccepted (p ∷ rest) cs h = ground arith

  -- Every comparison of a parsed condition uses a property that the method supports, and none has a
  -- LIKE pattern that ends in an escape character.
  pub parse_condition-IsAccepted :
      (text : Text) (cs : Condition)
      → parse_condition text allowed ≡ ok cs
      → All (IsAccepted allowed) cs
  unfolding parse_condition
  parse_condition-IsAccepted text cs h =
      let (ts, _, e) = >>=-eq-ok (tokens text) (first_comparison allowed) h in
      first_comparison-IsAccepted ts cs e

-- What a comparison says of the values of some properties.
abbrev pub Says : Operator → Text → Text → Type 0
Says equal value actual = actual ≡ value
Says like value actual = (parts : List Part) × (like_regex value ≡ ok parts) × Matches parts actual

abbrev pub Holds : Dict Text → Comparison → Type 0
Holds properties c =
    (actual : Text) × (Dict.get c.property properties ≡ some actual)
    × Says c.operator c.value actual

-- The run answers, and its answer is whether `P`.
abbrev pub Answers : Type 0 → Result ConditionError Bool → Type 0
Answers P (ok true) = P
Answers P (ok false) = ¬ P
Answers P (err e) = ⊥

equal-Answers : (a b : Text) → Answers (a ≡ b) (ok (text_eq a b))
equal-Answers a b = elim (Bool-cases (text_eq a b)) [
  | inl e ↦ rw e ((text_eq_iff a b).0 e)
  | inr e ↦ rw e (λ p. cc (e, (text_eq_iff a b).1 p))
]

full_match-Answers :
    (value actual : Text) (parts : List Part)
    → like_regex value ≡ ok parts
    → Answers (Says like value actual) (ok (full_match parts actual))
full_match-Answers value actual parts h = elim (Bool-cases (full_match parts actual)) [
  | inl e ↦ rw e (parts, h, (full_match_iff parts actual).0 e)
  | inr e ↦ rw e (λ (other, k, m). cc (e, h, k, (full_match_iff other actual).1 m))
]

pattern-Answers :
    (value actual : Text) (r : Result ConditionError (List Part))
    → like_regex value ≡ r
    → (r >>= λ _. ok (tt {0})) ≡ ok (tt {0})
    → Answers (Says like value actual) (r >>= λ parts. ok (full_match parts actual))
pattern-Answers value actual (ok parts) e h = full_match-Answers value actual parts e
pattern-Answers value actual (err x) e h = cc

holds-Answers :
    (o : Operator) (value actual : Text)
    → check_pattern o value ≡ ok tt
    → Answers (Says o value actual) (holds o value actual)
unfolding holds check_pattern
holds-Answers equal value actual h = equal-Answers actual value
holds-Answers like value actual h = pattern-Answers value actual (like_regex value) refl h

Answers-iff : {P Q : Type 0} (r : Result ConditionError Bool) → P ↔ Q → Answers P r → Answers Q r
Answers-iff (ok true) e h = e.0 h
Answers-iff (ok false) e h = λ q. h (e.1 q)
Answers-iff (err x) e h = h

-- `all` of two parts
Answers-and :
    (P Q : Type 0) (m n : Result ConditionError Bool)
    → Answers P m
    → Answers Q n
    → Answers (P × Q) (m >>= λ held. if held then n else ok false)
Answers-and P Q (ok true) n p q = Answers-iff n (λ x. (p, x), λ x. x.1) q
Answers-and P Q (ok false) n p q = λ x. p x.0
Answers-and P Q (err x) n p q = p

module _ (properties : Dict Text) where
  found-Answers :
      (c : Comparison) (found : Option Text)
      → check_pattern c.operator c.value ≡ ok tt
      → Dict.get c.property properties ≡ found
      → Answers
          (Holds properties c)
          (elim found [ none ↦ ok false | some actual ↦ holds c.operator c.value actual ])
  found-Answers c none h e = λ (actual, k, m). cc (e, k)
  found-Answers c (some actual) h e =
      Answers-iff _
        (λ m. (actual, e, m), λ (a, k, m). subst (Says c.operator c.value) (cc (k, e)) m)
        (holds-Answers c.operator c.value actual h)

  comparison_matches-Answers :
      (c : Comparison)
      → check_pattern c.operator c.value ≡ ok tt
      → Answers (Holds properties c) (comparison_matches c properties)
  unfolding comparison_matches
  comparison_matches-Answers c h = found-Answers c (Dict.get c.property properties) h refl

  condition_matches-Answers :
      (allowed : List Text) (cs : Condition)
      → All (IsAccepted allowed) cs
      → Answers (All (Holds properties) cs) (condition_matches cs properties)
  unfolding condition_matches
  condition_matches-Answers allowed [] h = tt
  condition_matches-Answers allowed (c ∷ cs) (h, hs) =
      Answers-and _ _ (comparison_matches c properties) (condition_matches cs properties)
        (comparison_matches-Answers c h.pattern_fits) (condition_matches-Answers allowed cs hs)

  -- Matching a parsed condition never raises, and answers true exactly when every comparison holds:
  -- the property has a value, which equals the literal, or which the LIKE pattern stands for.
  pub parse_condition-Answers :
      (text : Text) (allowed : List Text) (cs : Condition)
      → parse_condition text allowed ≡ ok cs
      → Answers (All (Holds properties) cs) (condition_matches cs properties)
  parse_condition-Answers text allowed cs h =
      condition_matches-Answers allowed cs (parse_condition-IsAccepted allowed text cs h)
