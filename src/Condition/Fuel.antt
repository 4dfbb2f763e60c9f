-- ===== src/Condition/Fuel.antt =====
-- condition.py: the loops of the model end before their fuel does.
use openrois.Common.{
  ℕ, zero, suc, ◌+◌, ◌≤◌, ◌<◌, ◌≢◌, Bool, true, false, not, Option, none, some, List, [], ◌∷◌,
  arith, length, ◌==◌, if◌then◌else◌, Text, Result, ok, err, ◌>>=◌,
}
use openrois.Condition.Syntax.{
  Operator, equal, like, ConditionError, out_of_fuel, unsupported_property,
}
use openrois.Condition.Tokens.{
  Kind, literal, quoted, word, equals, Token, skip_spaces, is_blank, word_chars, cons_raw, doubled,
  literal_chars, closing_quote, quoted_chars, Lexed, matched, matched_or, is_word_start, read_token,
  next_token, token_loop, tokens,
}
use openrois.Condition.Like.{like_loop, like_regex}
use openrois.Condition.Parse.{
  property_name, operator_of, literal_of, check_pattern, mem_text, comparison_of, and_joins,
  later_comparisons, first_comparison, parse_condition,
}

length-skip_spaces : (s : Text) → length (skip_spaces s).1 ≤ length s
unfolding skip_spaces
length-skip_spaces [] = omega arith
length-skip_spaces (c ∷ s) = ground (arith, length-skip_spaces s)

length-word_chars : (s : Text) → length (word_chars s).1 ≤ length s
unfolding word_chars
length-word_chars [] = omega arith
length-word_chars (c ∷ s) = ground (arith, length-word_chars s)

-- What a match of this shape leaves of the text.
abbrev LeavesAtMost : ℕ → Option (Text × Text) → Type 0
LeavesAtMost n none = Unit {0}
LeavesAtMost n (some (raw, rest)) = length rest ≤ n

cons_raw-leaves :
    (c n : ℕ) (r : Option (Text × Text)) → LeavesAtMost n r → LeavesAtMost (suc n) (cons_raw c r)
cons_raw-leaves c n none h = tt
cons_raw-leaves c n (some (raw, rest)) h = omega arith

doubled-leaves :
    (c d : ℕ) (s : Text) (r : Option (Text × Text))
    → LeavesAtMost (length s) r
    → LeavesAtMost (suc (suc (length s))) (doubled c d s r)
doubled-leaves c d s none h = omega arith
doubled-leaves c d s (some (raw, rest)) h = omega arith

if-leaves :
    (n : ℕ) (b : Bool) (x y : Option (Text × Text))
    → LeavesAtMost n x
    → LeavesAtMost n y
    → LeavesAtMost n (if b then x else y)
if-leaves n true x y h k = h
if-leaves n false x y h k = k

literal_chars-leaves : (s : Text) → LeavesAtMost (length s) (literal_chars s)
unfolding literal_chars
literal_chars-leaves [] = tt
literal_chars-leaves (c ∷ []) = if-leaves _ (c == 39) _ _ (omega arith) tt
literal_chars-leaves (c ∷ d ∷ s) =
    if-leaves _ (not (c == 39)) _ _ (cons_raw-leaves c _ _ (literal_chars-leaves (d ∷ s)))
      (if-leaves _ (d == 39) _ _ (doubled-leaves c d s _ (literal_chars-leaves s)) (omega arith))

closing_quote-leaves : (c : ℕ) (p : Text × Text) → LeavesAtMost (length p.1) (closing_quote c p)
unfolding closing_quote
closing_quote-leaves c (w, []) = tt
closing_quote-leaves c (w, d ∷ rest) = ground arith

quoted_chars-leaves : (s : Text) → LeavesAtMost (length s) (quoted_chars s)
unfolding quoted_chars
quoted_chars-leaves [] = tt
quoted_chars-leaves (c ∷ s) =
    ground (arith, closing_quote-leaves c (word_chars s), length-word_chars s)

-- What one token leaves: less than the text that it was read from.
abbrev Shortens : ℕ → Lexed → Type 0
Shortens n (ok (t, p, rest)) = length rest < n
Shortens n (err e) = e ≢ out_of_fuel

matched_or-Shortens :
    (e : ConditionError) (kind : Kind) (p c n : ℕ) (r : Option (Text × Text))
    → e ≢ out_of_fuel
    → LeavesAtMost n r
    → Shortens (suc n) (matched_or e kind p c r)
matched_or-Shortens e kind p c n none h k = h
matched_or-Shortens e kind p c n (some (raw, rest)) h k = omega arith

if-Shortens :
    (n : ℕ) (b : Bool) (x y : Lexed) → Shortens n x → Shortens n y → Shortens n (if b then x else y)
if-Shortens n true x y h k = h
if-Shortens n false x y h k = k

word_case-Shortens :
    (p c : ℕ) (s : Text)
    → Shortens (suc (length s)) (matched word p (c ∷ (word_chars s).0) (word_chars s).1)
word_case-Shortens p c s = omega (arith, length-word_chars s)

read_token-Shortens : (p : ℕ) (s : Text) → Shortens (length s) (read_token p s)
unfolding read_token
read_token-Shortens p [] = λ e. cc
read_token-Shortens p (c ∷ s) =
    if-Shortens _ (c == 39) _ _ (matched_or-Shortens _ _ p c _ _ (λ e. cc) (literal_chars-leaves s))
      (if-Shortens _ (c == 34) _ _
        (matched_or-Shortens _ _ p c _ _ (λ e. cc) (quoted_chars-leaves s))
        (if-Shortens _ (is_word_start c) _ _ (word_case-Shortens p c s)
          (if-Shortens _ (c == b'=') _ _ (omega arith) (λ e. cc))))

Shortens-mono : (m n : ℕ) (r : Lexed) → m ≤ n → Shortens m r → Shortens n r
Shortens-mono m n (ok (t, p, rest)) h k = omega arith
Shortens-mono m n (err e) h k = k

next_token-Shortens : (p : ℕ) (s : Text) → Shortens (length s) (next_token p s)
unfolding next_token
next_token-Shortens p s =
    Shortens-mono _ _ _ (length-skip_spaces s)
      (read_token-Shortens (p + (skip_spaces s).0) (skip_spaces s).1)

-- A run that ends in a value or in one of the errors of the source.
abbrev pub Ends {ℓ} : {A : Type ℓ} → Result ConditionError A → Type 0
Ends (ok a) = Unit {0}
Ends (err e) = e ≢ out_of_fuel

Ends-if {ℓ} :
    {A : Type ℓ} (b : Bool) (x y : Result ConditionError A)
    → Ends x
    → Ends y
    → Ends (if b then x else y)
Ends-if true x y h k = h
Ends-if false x y h k = k

Ends-bind {ℓ κ} :
    {A : Type ℓ} {B : Type κ} (m : Result ConditionError A) (f : A → Result ConditionError B)
    → Ends m
    → ((a : A) → Ends (f a))
    → Ends (m >>= f)
Ends-bind (ok a) f h k = k a
Ends-bind (err e) f h k = h

abbrev round : ℕ → Lexed → Result ConditionError (List Token)
round f m = do (token, position, rest) ← m; later ← token_loop f position rest; ok (token ∷ later)

round-Ends :
    (f n : ℕ) (m : Lexed)
    → Shortens n m
    → ((p : ℕ) (rest : Text) → length rest < n → Ends (token_loop f p rest))
    → Ends (round f m)
round-Ends f n (err e) h k = h
round-Ends f n (ok (t, p, rest)) h k = Ends-bind (token_loop f p rest) _ (k p rest h) (λ _. tt)

token_loop-Ends : (f p : ℕ) (s : Text) → length s < f → Ends (token_loop f p s)
unfolding token_loop
token_loop-Ends zero p s h = absurd (omega arith)
token_loop-Ends (suc f) p s h = Ends-if (is_blank s) _ _ tt (
    round-Ends f (length s) (next_token p s) (next_token-Shortens p s)
      (λ p' rest k. token_loop-Ends f p' rest (omega arith)))

property_name-Ends : (k : Kind) (t : Token) → Ends (property_name k t)
unfolding property_name
property_name-Ends quoted t = tt
property_name-Ends word t = ground arith
property_name-Ends _ t = λ e. cc

operator_of-Ends : (k : Kind) (t : Token) → Ends (operator_of k t)
unfolding operator_of
operator_of-Ends equals t = tt
operator_of-Ends word t = ground arith
operator_of-Ends _ t = λ e. cc

literal_of-Ends : (k : Kind) (t : Token) → Ends (literal_of k t)
unfolding literal_of
literal_of-Ends literal t = tt
literal_of-Ends _ t = λ e. cc

like_loop-Ends : (escaped : Bool) (s : Text) → Ends (like_loop escaped s)
unfolding like_loop
like_loop-Ends true [] = λ e. cc
like_loop-Ends false [] = tt
like_loop-Ends true (c ∷ s) = Ends-bind (like_loop false s) _ (like_loop-Ends false s) (λ _. tt)
like_loop-Ends false (c ∷ s) =
    Ends-if _ _ _ (like_loop-Ends true s)
      (Ends-bind (like_loop false s) _ (like_loop-Ends false s) (λ _. tt))

check_pattern-Ends : (o : Operator) (value : Text) → Ends (check_pattern o value)
unfolding check_pattern
check_pattern-Ends equal value = tt
check_pattern-Ends like value =
    Ends-bind (like_regex value) _ (unfold like_regex in like_loop-Ends false value) (λ _. tt)

and_joins-Ends : (k : Kind) (t : Token) → Ends (and_joins k t)
unfolding and_joins
and_joins-Ends word t = ground arith
and_joins-Ends _ t = λ e. cc

module _ (allowed : List Text) where
  comparison_of-Ends : (p o l : Token) → Ends (comparison_of allowed p o l)
  unfolding comparison_of
  comparison_of-Ends p o l =
      Ends-bind (property_name p.kind p) _ (property_name-Ends p.kind p) λ name.
        Ends-bind (if mem_text name allowed then ok tt else err (unsupported_property name)) _
          (Ends-if (mem_text name allowed) _ _ tt (λ e. cc))
          λ _. Ends-bind (operator_of o.kind o) _ (operator_of-Ends o.kind o) λ operator.
            Ends-bind (literal_of l.kind l) _ (literal_of-Ends l.kind l) λ value.
              Ends-bind (check_pattern operator value) _ (check_pattern-Ends operator value)
                (λ _. tt)

  later_comparisons-Ends : (ts : List Token) → Ends (later_comparisons allowed ts)
  unfolding later_comparisons
  later_comparisons-Ends [] = tt
  later_comparisons-Ends (j ∷ p ∷ o ∷ l ∷ rest) =
      Ends-bind (and_joins j.kind j) _ (and_joins-Ends j.kind j) λ _.
        Ends-bind (comparison_of allowed p o l) _ (comparison_of-Ends p o l)
          λ c. Ends-bind (later_comparisons allowed rest) _ (later_comparisons-Ends rest) (λ _. tt)
  later_comparisons-Ends (j ∷ rest) =
      Ends-bind (and_joins j.kind j) _ (and_joins-Ends j.kind j) (λ _ e. cc)

  first_comparison-Ends : (ts : List Token) → Ends (first_comparison allowed ts)
  unfolding first_comparison
  first_comparison-Ends [] = tt
  first_comparison-Ends (p ∷ o ∷ l ∷ rest) =
      Ends-bind (comparison_of allowed p o l) _ (comparison_of-Ends p o l)
        λ c. Ends-bind (later_comparisons allowed rest) _ (later_comparisons-Ends rest) (λ _. tt)
  first_comparison-Ends (p ∷ rest) = λ e. cc

  -- The parser always returns a condition or raises one of the errors of the source: its loop over
  -- the characters ends within one round for each character of the text.
  pub parse_condition-Ends : (text : Text) → Ends (parse_condition text allowed)
  unfolding parse_condition tokens
  parse_condition-Ends text =
      Ends-bind (token_loop (suc (length text)) 0 text) _
        (token_loop-Ends (suc (length text)) 0 text (omega arith)) first_comparison-Ends
