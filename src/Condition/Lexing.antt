-- ===== src/Condition/Lexing.antt =====
-- condition.py: the tokens of one printed comparison, whatever text follows it.
use openrois.Common.{
  ℕ, zero, suc, ◌+◌, ◌<◌, ◌≡◌, refl, ◌∙◌, codes, Bool, true, false, List, [], ◌∷◌, ◌++◌, arith,
  ◌==◌, append_assoc, length, if◌then◌else◌, all, Text, is_space, ok, length-append,
}
use native.Mathlib.Nat.{add-zero}
use openrois.Condition.Syntax.{Operator, equal, like, Comparison}
use openrois.Condition.Tokens.{
  Kind, literal, word, equals, Token, quote_mark, is_word_start, is_word_char, skip_spaces,
  is_blank, word_chars, read_token, next_token, token_loop, matched,
}
use openrois.Condition.Print.{quote, operator_text, print_comparison}
use openrois.Condition.Literals.{starts_with_quote, literal_chars-double_quotes}

-- A text that ends a word: it is empty or starts with no word character.
abbrev pub EndsWord : Text → Type 0
EndsWord [] = Unit {0}
EndsWord (c ∷ s) = is_word_char c ≡ false

word_chars-append :
    (w rest : Text) → all is_word_char w ≡ true → EndsWord rest → word_chars (w ++ rest) ≡ (w, rest)
unfolding word_chars all
word_chars-append [] [] h e = refl
word_chars-append [] (c ∷ rest) h e = ground arith
word_chars-append (c ∷ w) rest h e = ground (arith, word_chars-append w rest)

-- `[A-Za-z_:][A-Za-z0-9_.:]*`
abbrev pub is_identifier : Text → Bool
is_identifier [] = false
is_identifier (c ∷ w) = if is_word_start c then all is_word_char w else false

-- the characters of a word start are no quotes and no white space
start_is_plain :
    (c : ℕ)
    → is_word_start c ≡ true
    → (c == quote_mark ≡ false) × (c == 34 ≡ false) × (is_space c ≡ false)
unfolding is_word_start is_space
start_is_plain c h = ground arith

next_token-plain :
    (p c : ℕ) (s : Text) → is_space c ≡ false → next_token p (c ∷ s) ≡ read_token p (c ∷ s)
unfolding next_token skip_spaces
next_token-plain p c s h = ground (arith, add-zero p)

next_token-space :
    (p c : ℕ) (s : Text)
    → is_space c ≡ false
    → next_token p (b' ' ∷ c ∷ s) ≡ read_token (p + 1) (c ∷ s)
unfolding next_token skip_spaces
next_token-space p c s h = rw h (unfold is_space in refl)

read_token-word :
    (p c : ℕ) (w rest : Text)
    → is_identifier (c ∷ w) ≡ true
    → EndsWord rest
    → read_token p (c ∷ (w ++ rest)) ≡ matched word p (c ∷ w) rest
unfolding read_token
read_token-word p c w rest h e = ground (arith, start_is_plain c, word_chars-append w rest)

read_token-literal :
    (p : ℕ) (v rest : Text)
    → starts_with_quote rest ≡ false
    → read_token p (quote v ++ rest) ≡ matched literal p (quote v) rest
unfolding read_token quote
read_token-literal p v rest h = rw (append_assoc, literal_chars-double_quotes v rest h) refl

-- `s` has the tokens `ts` from position `p`, with whatever fuel that its length asks for.
abbrev pub Lexes : ℕ → Text → List Token → Type 0
Lexes p s ts = (f : ℕ) → length s < f → token_loop f p s ≡ ok ts

pub Lexes-nil : (p : ℕ) → Lexes p [] []
unfolding token_loop is_blank
Lexes-nil p zero h = absurd (omega arith)
Lexes-nil p (suc f) h = refl

Lexes-step :
    (p p' : ℕ) (s rest : Text) (t : Token) (ts : List Token)
    → next_token p s ≡ ok (t, p', rest)
    → length rest < length s
    → is_blank s ≡ false
    → Lexes p' rest ts
    → Lexes p s (t ∷ ts)
unfolding token_loop
Lexes-step p p' s rest t ts e shorter full later zero h = absurd (omega arith)
Lexes-step p p' s rest t ts e shorter full later (suc f) h =
    rw (full, e, later f (omega arith)) refl

abbrev pub operator_kind : Operator → Kind
operator_kind equal = equals
operator_kind like = word

-- where the tokens of a printed comparison stand, and where it ends
abbrev operator_at : ℕ → Comparison → ℕ
operator_at p c = p + length c.property + 1

abbrev literal_at : ℕ → Comparison → ℕ
literal_at p c = operator_at p c + length (operator_text c.operator) + 1

abbrev pub end_at : ℕ → Comparison → ℕ
end_at p c = literal_at p c + length (quote c.value)

abbrev pub name_token : ℕ → Comparison → Token
name_token p c = record { kind = word; value = c.property; position = p }

abbrev pub operator_token : ℕ → Comparison → Token
operator_token p c = record {
  kind = operator_kind c.operator;
  value = operator_text c.operator;
  position = operator_at p c;
}

abbrev pub literal_token : ℕ → Comparison → Token
literal_token p c = record { kind = literal; value = quote c.value; position = literal_at p c }

abbrev pub comparison_tokens : ℕ → Comparison → List Token
comparison_tokens p c = name_token p c ∷ operator_token p c ∷ literal_token p c ∷ []

is_blank-plain : (c : ℕ) (s : Text) → is_space c ≡ false → is_blank (c ∷ s) ≡ false
unfolding is_blank
is_blank-plain c s h = ground arith

is_blank-space : (c : ℕ) (s : Text) → is_space c ≡ false → is_blank (b' ' ∷ c ∷ s) ≡ false
unfolding is_blank is_space
is_blank-space c s h = ground arith

quote_is_plain : is_space quote_mark ≡ false
unfolding is_space
quote_is_plain = refl

literal-Lexes :
    (p : ℕ) (v rest : Text) (ts : List Token)
    → starts_with_quote rest ≡ false
    → Lexes (p + 1 + length (quote v)) rest ts
    → Lexes p
        (b' ' ∷ (quote v ++ rest))
        (record { kind = literal; value = quote v; position = p + 1 } ∷ ts)
unfolding quote
literal-Lexes p v rest ts h later =
    Lexes-step p _ _ rest _ ts
      (next_token-space p quote_mark _ quote_is_plain ∙ read_token-literal (p + 1) v rest h)
      (omega (arith, length-append (quote v) rest)) (is_blank-space quote_mark _ quote_is_plain)
      later

equals_is_plain : is_space b'=' ≡ false
unfolding is_space
equals_is_plain = refl

read_token-equals : (p : ℕ) (s : Text) → read_token p (b'=' ∷ s) ≡ matched equals p (b'=' ∷ []) s
unfolding read_token
read_token-equals p s = refl

L_is_plain : is_space b'L' ≡ false
unfolding is_space
L_is_plain = refl

like_is_identifier : is_identifier (codes "LIKE") ≡ true
unfolding is_word_start is_word_char all
like_is_identifier = refl

pub space_ends_word : is_word_char b' ' ≡ false
unfolding is_word_char
space_ends_word = refl

operator-Lexes :
    (p : ℕ) (o : Operator) (s : Text) (ts : List Token)
    → Lexes (p + 1 + length (operator_text o)) (b' ' ∷ s) ts
    → Lexes p
        (b' ' ∷ (operator_text o ++ (b' ' ∷ s)))
        (record { kind = operator_kind o; value = operator_text o; position = p + 1 } ∷ ts)
unfolding operator_text
operator-Lexes p equal s ts later =
    Lexes-step p _ _ (b' ' ∷ s) _ ts
      (next_token-space p b'=' _ equals_is_plain ∙ read_token-equals (p + 1) (b' ' ∷ s))
      (omega arith) (is_blank-space b'=' _ equals_is_plain) later
operator-Lexes p like s ts later =
    Lexes-step p _ _ (b' ' ∷ s) _ ts
      (next_token-space p b'L' _ L_is_plain
        ∙ read_token-word (p + 1) b'L' (codes "IKE") (b' ' ∷ s) like_is_identifier space_ends_word)
      (omega arith) (is_blank-space b'L' _ L_is_plain) later

identifier_is_plain : (c : ℕ) (w : Text) → is_identifier (c ∷ w) ≡ true → is_space c ≡ false
identifier_is_plain c w h = ground (arith, start_is_plain c)

word-Lexes :
    (p : ℕ) (n s : Text) (ts : List Token)
    → is_identifier n ≡ true
    → Lexes (p + length n) (b' ' ∷ s) ts
    → Lexes p (n ++ (b' ' ∷ s)) (record { kind = word; value = n; position = p } ∷ ts)
word-Lexes p [] s ts h later = cc
word-Lexes p (c ∷ w) s ts h later =
    Lexes-step p _ _ (b' ' ∷ s) _ ts
      (next_token-plain p c _ (identifier_is_plain c w h)
        ∙ read_token-word p c w (b' ' ∷ s) h space_ends_word)
      (omega (arith, length-append w (b' ' ∷ s))) (is_blank-plain c _ (identifier_is_plain c w h))
      later

pub word-Lexes_space :
    (p : ℕ) (n s : Text) (ts : List Token)
    → is_identifier n ≡ true
    → Lexes (p + 1 + length n) (b' ' ∷ s) ts
    → Lexes p (b' ' ∷ (n ++ (b' ' ∷ s))) (record { kind = word; value = n; position = p + 1 } ∷ ts)
word-Lexes_space p [] s ts h later = cc
word-Lexes_space p (c ∷ w) s ts h later =
    Lexes-step p _ _ (b' ' ∷ s) _ ts
      (next_token-space p c _ (identifier_is_plain c w h)
        ∙ read_token-word (p + 1) c w (b' ' ∷ s) h space_ends_word)
      (omega (arith, length-append w (b' ' ∷ s))) (is_blank-space c _ (identifier_is_plain c w h))
      later

-- the text of a comparison behind its property
abbrev tail_of : Comparison → Text → Text
tail_of c rest = operator_text c.operator ++ (b' ' ∷ (quote c.value ++ rest))

print_comparison-append :
    (c : Comparison) (rest : Text)
    → print_comparison c ++ rest ≡ c.property ++ (b' ' ∷ tail_of c rest)
unfolding print_comparison
print_comparison-append c rest = simp append_assoc

module _ (p : ℕ) (c : Comparison) (rest : Text) (ts : List Token) where
  tail-Lexes :
      starts_with_quote rest ≡ false
      → Lexes (end_at p c) rest ts
      → Lexes
          (p + length c.property)
          (b' ' ∷ tail_of c rest)
          (operator_token p c ∷ literal_token p c ∷ ts)
  tail-Lexes q later = operator-Lexes _ c.operator _ _ (literal-Lexes _ c.value rest ts q later)

  -- A printed comparison is read as its three tokens.
  pub comparison-Lexes :
      is_identifier c.property ≡ true
      → starts_with_quote rest ≡ false
      → Lexes (end_at p c) rest ts
      → Lexes p (print_comparison c ++ rest) (comparison_tokens p c ++ ts)
  comparison-Lexes h q later =
      rw print_comparison-append (word-Lexes p c.property _ _ h (tail-Lexes q later))

-- and with the space behind an AND before it
pub comparison-Lexes_space :
    (p : ℕ) (c : Comparison) (rest : Text) (ts : List Token)
    → is_identifier c.property ≡ true
    → starts_with_quote rest ≡ false
    → Lexes (end_at (p + 1) c) rest ts
    → Lexes p (b' ' ∷ (print_comparison c ++ rest)) (comparison_tokens (p + 1) c ++ ts)
comparison-Lexes_space p c rest ts h q later =
    rw print_comparison-append
      (word-Lexes_space p c.property _ _ h (tail-Lexes (p + 1) c rest ts q later))
