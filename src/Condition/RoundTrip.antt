-- ===== src/Condition/RoundTrip.antt =====
-- condition.py: parsing what `str` of a condition printed.
use openrois.Common.{
  ℕ, suc, ◌+◌, ◌≡◌, refl, true, false, List, [], ◌∷◌, ◌++◌, arith, length, all, All, Text, codes,
  ok, text_eq, upper,
}
use openrois.Condition.Syntax.{Operator, equal, like, Comparison, Condition}
use openrois.Condition.Tokens.{
  word, Token, is_word_start, is_word_char, is_blank, token_loop, tokens,
}
use openrois.Condition.Parse.{
  mem_text, is_keyword, property_name, operator_of, literal_of, check_pattern, and_joins,
  comparison_of, later_comparisons, first_comparison, parse_condition,
}
use openrois.Condition.Print.{operator_text, join_later, print_all, print_condition}
use openrois.Condition.Literals.{starts_with_quote, undouble-inner-quote}
use openrois.Condition.Lexing.{
  is_identifier, Lexes, Lexes-nil, operator_kind, end_at, name_token, operator_token, literal_token,
  comparison_tokens, comparison-Lexes, comparison-Lexes_space, word-Lexes_space,
}

-- A comparison that `str` writes and the parser reads: its property is an identifier and no
-- keyword, the method supports it, and a LIKE pattern has no dangling escape.
pub record IsPrintable (allowed : List Text) (c : Comparison) : Type 0 where
  pub identifier : is_identifier c.property ≡ true
  pub plain : is_keyword c.property ≡ false
  pub supported : mem_text c.property allowed ≡ true
  pub pattern_fits : check_pattern c.operator c.value ≡ ok tt

-- the tokens of the comparisons behind the first one
abbrev later_tokens : ℕ → Condition → List Token
later_tokens p [] = []
later_tokens p (c ∷ cs) =
    record { kind = word; value = codes "AND"; position = p + 1 }
    ∷ (comparison_tokens (p + 1 + 3 + 1) c ++ later_tokens (end_at (p + 1 + 3 + 1) c) cs)

no_quote : (cs : Condition) → starts_with_quote (join_later (print_all cs)) ≡ false
unfolding join_later print_all
no_quote [] = refl
no_quote (c ∷ cs) = refl

and_is_identifier : is_identifier (codes "AND") ≡ true
unfolding is_word_start is_word_char all
and_is_identifier = refl

operator_of-operator_text :
    (k : ℕ) (o : Operator)
    → operator_of
        (operator_kind o)
        (record { kind = operator_kind o; value = operator_text o; position = k })
      ≡ ok o
unfolding operator_of operator_text text_eq upper
operator_of-operator_text k equal = refl
operator_of-operator_text k like = refl

module _ (allowed : List Text) where
  later-Lexes :
      (p : ℕ) (cs : Condition)
      → All (IsPrintable allowed) cs
      → Lexes p (join_later (print_all cs)) (later_tokens p cs)
  unfolding join_later print_all
  later-Lexes p [] h = Lexes-nil p
  later-Lexes p (c ∷ cs) (h, hs) = word-Lexes_space p (codes "AND") _ _ and_is_identifier (
      comparison-Lexes_space (p + 1 + 3) c _ _ h.identifier (no_quote cs)
        (later-Lexes (end_at (p + 1 + 3 + 1) c) cs hs))

  comparison_of-tokens :
      (p : ℕ) (c : Comparison)
      → IsPrintable allowed c
      → comparison_of allowed (name_token p c) (operator_token p c) (literal_token p c) ≡ ok c
  unfolding comparison_of property_name literal_of
  comparison_of-tokens p c h = ground (
    arith,
    h.plain,
    h.supported,
    h.pattern_fits,
    operator_of-operator_text (p + length c.property + 1) c.operator,
    undouble-inner-quote c.value,
  )

  later_comparisons-tokens :
      (p : ℕ) (cs : Condition)
      → All (IsPrintable allowed) cs
      → later_comparisons allowed (later_tokens p cs) ≡ ok cs
  unfolding later_comparisons and_joins text_eq upper
  later_comparisons-tokens p [] h = refl
  later_comparisons-tokens p (c ∷ cs) (h, hs) =
      rw (comparison_of-tokens (p + 1 + 3 + 1) c h)
        (rw (later_comparisons-tokens (end_at (p + 1 + 3 + 1) c) cs hs) refl)

  first_comparison-tokens :
      (c : Comparison) (cs : Condition)
      → All (IsPrintable allowed) (c ∷ cs)
      → first_comparison allowed (comparison_tokens 0 c ++ later_tokens (end_at 0 c) cs)
        ≡ ok (c ∷ cs)
  unfolding first_comparison
  first_comparison-tokens c cs (h, hs) =
      rw (comparison_of-tokens 0 c h) (rw (later_comparisons-tokens (end_at 0 c) cs hs) refl)

  condition-Lexes :
      (c : Comparison) (cs : Condition)
      → All (IsPrintable allowed) (c ∷ cs)
      → Lexes 0 (print_condition (c ∷ cs)) (comparison_tokens 0 c ++ later_tokens (end_at 0 c) cs)
  unfolding print_condition
  condition-Lexes c cs (h, hs) =
      comparison-Lexes 0 c _ _ h.identifier (no_quote cs) (later-Lexes (end_at 0 c) cs hs)

  -- Parsing the text of a printable condition, one whose properties are supported identifiers and no
  -- keywords and whose LIKE patterns have no dangling escape, gives that condition back.
  pub parse_condition-print_condition :
      (cs : Condition)
      → All (IsPrintable allowed) cs
      → parse_condition (print_condition cs) allowed ≡ ok cs
  unfolding parse_condition tokens
  parse_condition-print_condition [] h =
      unfold print_condition token_loop is_blank first_comparison in refl
  parse_condition-print_condition (c ∷ cs) h =
      rw (condition-Lexes c cs h (suc (length (print_condition (c ∷ cs)))) (omega arith))
        (first_comparison-tokens c cs h)
