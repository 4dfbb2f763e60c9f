-- ===== src/Condition/Literals.antt =====
-- condition.py: what `quote` writes is one literal token, and the parser reads the value back.
use openrois.Common.{
  ℕ, ◌≡◌, refl, ap, Bool, true, false, some, [], ◌∷◌, ◌++◌, arith, ◌==◌, Bool-cases, inl, inr, Text,
  ◌==◌,
}
use openrois.Condition.Tokens.{quote_mark, cons_raw, literal_chars}
use openrois.Condition.Parse.{drop_last, inner, undouble}
use openrois.Condition.Print.{double_quotes, quote}

undouble-other : (c : ℕ) (t : Text) → c == quote_mark ≡ false → undouble (c ∷ t) ≡ c ∷ undouble t
unfolding undouble
undouble-other c [] h = refl
undouble-other c (d ∷ t) h = ground arith

undouble-pair : (c : ℕ) (t : Text) → c == quote_mark ≡ true → undouble (c ∷ c ∷ t) ≡ c ∷ undouble t
unfolding undouble
undouble-pair c t h = ground arith

pub undouble-double_quotes : (v : Text) → undouble (double_quotes v) ≡ v
unfolding double_quotes
undouble-double_quotes [] = unfold undouble in refl
undouble-double_quotes (c ∷ v) = ground (
  arith,
  undouble-other c (double_quotes v),
  undouble-pair c (double_quotes v),
  undouble-double_quotes v,
)

pub drop_last-append : (v : Text) (c : ℕ) → drop_last (v ++ c ∷ []) ≡ v
unfolding drop_last
drop_last-append [] c = refl
drop_last-append (a ∷ []) c = refl
drop_last-append (a ∷ b ∷ v) c = ap (λ t. a ∷ t) (drop_last-append (b ∷ v) c)

-- the literal's text, without its quotes and with its pairs of quotes undone
pub undouble-inner-quote : (v : Text) → undouble (inner (quote v)) ≡ v
unfolding inner quote
undouble-inner-quote v = rw drop_last-append (undouble-double_quotes v)

abbrev pub starts_with_quote : Text → Bool
starts_with_quote [] = false
starts_with_quote (c ∷ s) = c == quote_mark

literal_chars-other :
    (c : ℕ) (t : Text)
    → c == quote_mark ≡ false
    → literal_chars (c ∷ t) ≡ cons_raw c (literal_chars t)
unfolding literal_chars
literal_chars-other c [] h = ground arith
literal_chars-other c (d ∷ t) h = ground arith

literal_chars-pair :
    (c : ℕ) (t raw rest : Text)
    → c == quote_mark ≡ true
    → literal_chars t ≡ some (raw, rest)
    → literal_chars (c ∷ c ∷ t) ≡ some (c ∷ c ∷ raw, rest)
unfolding literal_chars
literal_chars-pair c t raw rest h e = ground arith

pub literal_chars-double_quotes :
    (v rest : Text)
    → starts_with_quote rest ≡ false
    → literal_chars (double_quotes v ++ (quote_mark ∷ rest))
      ≡ some (double_quotes v ++ quote_mark ∷ [], rest)
unfolding double_quotes
literal_chars-double_quotes [] [] h = unfold literal_chars in refl
literal_chars-double_quotes [] (d ∷ rest) h = unfold literal_chars in ground arith
literal_chars-double_quotes (c ∷ v) rest h = elim (Bool-cases (c == quote_mark)) [
  | inl e ↦ rw e (literal_chars-pair c _ _ _ e (literal_chars-double_quotes v rest h))
  | inr e ↦ rw e (rw (literal_chars-other c _ e) (rw (literal_chars-double_quotes v rest h) refl))
]
