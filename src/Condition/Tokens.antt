-- ===== src/Condition/Tokens.antt =====
-- condition.py: `_TOKEN_RE` and `_tokens`.
use openrois.Common.{
  ℕ, zero, suc, ◌+◌, Bool, true, not, ◌++◌, ◌&&◌, ◌||◌, Option, none, some, List, [], ◌∷◌, ◌==◌,
  leb, if◌then◌else◌, length, Text, is_space, Result, ok, err, ◌>>=◌,
}
use openrois.Condition.Syntax.{
  ConditionError, unterminated, unexpected_character, unreadable, out_of_fuel,
}

pub data Kind : Type 0 where
  literal quoted word equals : Kind

pub record Token : Type 0 where
  pub kind : Kind
  pub value : Text
  pub position : ℕ

abbrev pub quote_mark : ℕ
quote_mark = 39

abbrev pub double_quote : ℕ
double_quote = 34

-- `[A-Za-z_:]`
unfoldable pub is_word_start : ℕ → Bool
is_word_start c = (leb b'A' c && leb c b'Z') || (leb b'a' c && leb c b'z') || c == b'_' || c == b':'

-- `[A-Za-z0-9_.:]`
unfoldable pub is_word_char : ℕ → Bool
unfolding is_word_start
is_word_char c = is_word_start c || (leb b'0' c && leb c b'9') || c == b'.'

-- `\s*`: how many characters it takes, and what follows.
unfoldable pub skip_spaces : Text → ℕ × Text
skip_spaces [] = (0, [])
skip_spaces (c ∷ s) =
    let (n, rest) = skip_spaces s in if is_space c then (suc n, rest) else (0, c ∷ s)

-- `text.strip() == ""`
unfoldable pub is_blank : Text → Bool
is_blank [] = true
is_blank (c ∷ s) = is_space c && is_blank s

-- `[A-Za-z0-9_.:]*`, greedy
unfoldable pub word_chars : Text → Text × Text
word_chars [] = ([], [])
word_chars (c ∷ s) =
    let (w, rest) = word_chars s in if is_word_char c then (c ∷ w, rest) else ([], c ∷ s)

abbrev pub cons_raw : ℕ → Option (Text × Text) → Option (Text × Text)
cons_raw c none = none
cons_raw c (some (raw, rest)) = some (c ∷ raw, rest)

-- a doubled quote, given what the match finds behind it
abbrev pub doubled : ℕ → ℕ → Text → Option (Text × Text) → Option (Text × Text)
doubled c d s none = some (c ∷ [], d ∷ s)
doubled c d s (some (raw, rest)) = some (c ∷ d ∷ raw, rest)

-- `(?:[^']|'')*'` after the opening quote, greedy and with the backtracking of the engine: a doubled
-- quote ends the literal at its first half when nothing behind it ends it.
unfoldable pub literal_chars : Text → Option (Text × Text)
literal_chars [] = none
literal_chars (c ∷ []) = if c == quote_mark then some (c ∷ [], []) else none
literal_chars (c ∷ d ∷ s) =
    let unquoted = cons_raw c (literal_chars (d ∷ s)) in
    let pair = doubled c d s (literal_chars s) in
    if not (c == quote_mark)
    then unquoted
    else if d == quote_mark
    then pair
    else some (c ∷ [], d ∷ s)

-- the closing `"` of a quoted property
unfoldable pub closing_quote : ℕ → Text × Text → Option (Text × Text)
closing_quote c (w, []) = none
closing_quote c (w, d ∷ rest) = if d == double_quote then some (c ∷ w ++ d ∷ [], rest) else none

-- `"[A-Za-z_:][A-Za-z0-9_.:]*"` after the opening double quote
unfoldable pub quoted_chars : Text → Option (Text × Text)
unfolding is_word_start word_chars closing_quote
quoted_chars [] = none
quoted_chars (c ∷ s) = if is_word_start c then closing_quote c (word_chars s) else none

-- The token of one match, with the position and the text behind it.
abbrev pub Lexed : Type 0
Lexed = Result ConditionError (Token × ℕ × Text)

abbrev pub matched : Kind → ℕ → Text → Text → Lexed
matched kind position value rest =
    ok (record { kind = kind; value = value; position = position }, position + length value, rest)

abbrev pub matched_or : ConditionError → Kind → ℕ → ℕ → Option (Text × Text) → Lexed
matched_or error kind position c none = err error
matched_or error kind position c (some (value, rest)) = matched kind position (c ∷ value) rest

-- the alternatives of `_TOKEN_RE` behind the white space, in their order
unfoldable pub read_token : ℕ → Text → Lexed
unfolding is_word_start
read_token position [] = err (unreadable position)
read_token position (c ∷ s) =
    if c == quote_mark
    then matched_or (unterminated position) literal position c (literal_chars s)
    else if c == double_quote
    then matched_or (unexpected_character position) quoted position c (quoted_chars s)
    else if is_word_start c
    then (let (w, rest) = word_chars s in matched word position (c ∷ w) rest)
    else if c == b'='
    then matched equals position (c ∷ []) s
    else err (unexpected_character position)

unfoldable pub next_token : ℕ → Text → Lexed
next_token position text = let (spaces, s) = skip_spaces text in read_token (position + spaces) s

-- the `while` loop of `_tokens`
unfoldable pub token_loop : ℕ → ℕ → Text → Result ConditionError (List Token)
token_loop zero position text = err out_of_fuel
token_loop (suc fuel) position text =
    let more = (do
      (token, position', rest) ← next_token position text
      later ← token_loop fuel position' rest
      ok (token ∷ later)) in
    if is_blank text then ok [] else more

-- Every round takes a character at least.
unfoldable pub tokens : Text → Result ConditionError (List Token)
tokens text = token_loop (suc (length text)) 0 text
