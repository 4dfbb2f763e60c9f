-- ===== src/Condition/Patterns.antt =====
-- condition.py: the LIKE operator against a relation that says which texts a pattern stands for.
use mathlib.Core.Path.{subst}
use openrois.Common.{
  ℕ, ◌≡◌, ◌≢◌, refl, ◌∙◌, sym, ap, ◌↔◌, true, false, List, [], ◌∷◌, ◌++◌, ◌==◌, ==_iff, arith,
  Bool-cases, inl, inr, Text, ok, >>=-eq-ok,
}
use openrois.Condition.Syntax.{like}
use openrois.Condition.Like.{
  Part, exactly, any_run, any_one, part_of, like_loop, like_regex, full_match,
}
use openrois.Condition.Parse.{holds}
use openrois.Condition.Matching.{Matches, done, same, other, stop, more, full_match_iff}

-- Which texts a pattern stands for, read on the pattern as it is written: `%` is for any run of
-- characters, `_` for any one character, a backslash takes the next character as it is, and any other
-- character is itself.
pub data Like : Text → Text → Type 0 where
  both_end : Like [] []
  percent : {p rest : Text} → (run : Text) → Like p rest → Like (b'%' ∷ p) (run ++ rest)
  underscore : {d : ℕ} {p s : Text} → Like p s → Like (b'_' ∷ p) (d ∷ s)
  escaped : {c : ℕ} {p s : Text} → Like p s → Like (b'\\' ∷ c ∷ p) (c ∷ s)
  itself : {c : ℕ} {p s : Text} → c ≢ b'%' → c ≢ b'_' → c ≢ b'\\' → Like p s → Like (c ∷ p) (c ∷ s)

-- a pattern that reads as a list of parts, of which the text is a full match
abbrev Reads : Text → Text → Type 0
Reads p s = (parts : List Part) × (like_loop false p ≡ ok parts) × Matches parts s

like_loop-plain :
    (c : ℕ) (p : Text) (parts : List Part)
    → c ≢ b'\\'
    → like_loop false p ≡ ok parts
    → like_loop false (c ∷ p) ≡ ok (part_of c ∷ parts)
unfolding like_loop
like_loop-plain c p parts other_than reads = ground (arith, reads, ==_iff c b'\\')

Matches-run :
    {parts : List Part} {rest : Text} (run : Text)
    → Matches parts rest
    → Matches (any_run ∷ parts) (run ++ rest)
Matches-run [] m = stop m
Matches-run (d ∷ run) m = more (Matches-run run m)

run-Matches :
    {parts : List Part} {s : Text}
    → Matches (any_run ∷ parts) s
    → (run rest : Text) × (run ++ rest ≡ s) × Matches parts rest
run-Matches {s = s} (stop m) = ([], s, refl, m)
run-Matches {s = d ∷ s} (more m) =
    let (run, rest, e, below) = run-Matches m in (d ∷ run, rest, ap (λ t. d ∷ t) e, below)

like_loop-escaped :
    (c : ℕ) (p : Text) (parts : List Part)
    → like_loop false p ≡ ok parts
    → like_loop false (b'\\' ∷ c ∷ p) ≡ ok (exactly c ∷ parts)
unfolding like_loop
like_loop-escaped c p parts reads = rw reads refl

part_of-exactly : (c : ℕ) → c ≢ b'%' → c ≢ b'_' → part_of c ≡ exactly c
part_of-exactly c not_run not_one = ground (arith, ==_iff c b'%', ==_iff c b'_', not_run, not_one)

Like-Reads : {p s : Text} → Like p s → Reads p s
Like-Reads both_end = ([], (unfold like_loop in refl), done)
Like-Reads (percent {p} run l) =
    let (parts, reads, m) = Like-Reads l in
    (
      any_run ∷ parts,
      like_loop-plain b'%' p parts (λ e. absurd (omega arith)) reads,
      Matches-run run m,
    )
Like-Reads (underscore {d} {p} l) =
    let (parts, reads, m) = Like-Reads l in
    (any_one ∷ parts, like_loop-plain b'_' p parts (λ e. absurd (omega arith)) reads, other m)
Like-Reads (escaped {c} l) =
    let (parts, reads, m) = Like-Reads l in
    (exactly c ∷ parts, like_loop-escaped c _ parts reads, same m)
Like-Reads (itself {c} {p} not_run not_one plain l) =
    let (parts, reads, m) = Like-Reads l in
    (
      exactly c ∷ parts,
      like_loop-plain c p parts plain reads
          ∙ ap (λ x. ok (x ∷ parts)) (part_of-exactly c not_run not_one),
      same m,
    )

like_loop-plain_parts :
    (c : ℕ) (p : Text) (parts : List Part)
    → c ≢ b'\\'
    → like_loop false (c ∷ p) ≡ ok parts
    → (later : List Part) × (like_loop false p ≡ ok later) × (part_of c ∷ later ≡ parts)
unfolding like_loop
like_loop-plain_parts c p parts plain h =
    let (later, reads, e) =
      >>=-eq-ok (like_loop false p) (λ later. ok (part_of c ∷ later)) {value = parts}
        (ground (arith, h, plain, ==_iff c b'\\')) in
    (later, reads, ground (arith, e))

like_loop-escaped_parts :
    (c : ℕ) (p : Text) (parts : List Part)
    → like_loop false (b'\\' ∷ c ∷ p) ≡ ok parts
    → (later : List Part) × (like_loop false p ≡ ok later) × (exactly c ∷ later ≡ parts)
unfolding like_loop
like_loop-escaped_parts c p parts h =
    let (later, reads, e) =
      >>=-eq-ok (like_loop false p) (λ later. ok (exactly c ∷ later)) {value = parts} h in
    (later, reads, ground (arith, e))

like_loop-dangling : (parts : List Part) → like_loop false (b'\\' ∷ []) ≢ ok parts
unfolding like_loop
like_loop-dangling parts h = cc

exactly-Matches :
    (c : ℕ) (parts : List Part) (s : Text)
    → Matches (exactly c ∷ parts) s
    → (rest : Text) × (c ∷ rest ≡ s) × Matches parts rest
exactly-Matches c parts [] m = elim m [ ]
exactly-Matches c parts (d ∷ s) (same m) = (s, refl, m)

any_one-Matches :
    (parts : List Part) (s : Text)
    → Matches (any_one ∷ parts) s
    → (d : ℕ) × (rest : Text) × (d ∷ rest ≡ s) × Matches parts rest
any_one-Matches parts [] m = elim m [ ]
any_one-Matches parts (d ∷ s) (other m) = (d, s, refl, m)

module _ (p : Text) (later : List Part)
    (likes : (rest : Text) → Matches later rest → Like p rest) where
  run-Like : (s : Text) → Matches (any_run ∷ later) s → Like (b'%' ∷ p) s
  run-Like s m =
      let (run, rest, e, below) = run-Matches m in
      subst (Like (b'%' ∷ p)) e (percent run (likes rest below))

  any_one-Like : (s : Text) → Matches (any_one ∷ later) s → Like (b'_' ∷ p) s
  any_one-Like s m =
      let (d, rest, e, below) = any_one-Matches later s m in
      subst (Like (b'_' ∷ p)) e (underscore (likes rest below))

  escaped-Like : (c : ℕ) (s : Text) → Matches (exactly c ∷ later) s → Like (b'\\' ∷ c ∷ p) s
  escaped-Like c s m =
      let (rest, e, below) = exactly-Matches c later s m in
      subst (Like (b'\\' ∷ c ∷ p)) e (escaped (likes rest below))

  exactly-Like :
      (c : ℕ) (s : Text)
      → c ≢ b'%'
      → c ≢ b'_'
      → c ≢ b'\\'
      → Matches (exactly c ∷ later) s
      → Like (c ∷ p) s
  exactly-Like c s not_run not_one plain m =
      let (rest, e, below) = exactly-Matches c later s m in
      subst (Like (c ∷ p)) e (itself not_run not_one plain (likes rest below))

  -- a character that is not escaped
  plain-Like : (c : ℕ) (s : Text) → c ≢ b'\\' → Matches (part_of c ∷ later) s → Like (c ∷ p) s
  plain-Like c s plain m = elim (Bool-cases (c == b'%')) [
    | inl is_run ↦
        subst (λ x. Like (x ∷ p) s) (sym ((==_iff c b'%').0 is_run))
          (run-Like s (subst (λ x. Matches (x ∷ later) s) (ground (arith, is_run)) m))
    | inr not_run ↦ elim (Bool-cases (c == b'_')) [
      | inl is_one ↦
          subst (λ x. Like (x ∷ p) s) (sym ((==_iff c b'_').0 is_one))
            (any_one-Like s
              (subst (λ x. Matches (x ∷ later) s) (ground (arith, is_one, not_run)) m))
      | inr not_one ↦
          exactly-Like c s (λ h. ground (arith, h, not_run)) (λ h. ground (arith, h, not_one)) plain
            (subst (λ x. Matches (x ∷ later) s) (ground (arith, not_one, not_run)) m)
    ]
  ]

Matches-nil : (parts : List Part) (s : Text) → [] ≡ parts → Matches parts s → Like [] s
Matches-nil [] [] e m = both_end
Matches-nil [] (d ∷ s) e m = elim m [ ]
Matches-nil (x ∷ parts) s e m = cc

like_loop-nil : (parts : List Part) → like_loop false [] ≡ ok parts → [] ≡ parts
unfolding like_loop
like_loop-nil parts h = ground (arith, h)

Reads-plain :
    (c : ℕ) (p s : Text)
    → c ≢ b'\\'
    → ((rest : Text) → Reads p rest → Like p rest)
    → Reads (c ∷ p) s
    → Like (c ∷ p) s
Reads-plain c p s plain likes (parts, reads, m) =
    let (later, below, e) = like_loop-plain_parts c p parts plain reads in
    plain-Like p later (λ rest k. likes rest (later, below, k)) c s plain
      (subst (λ x. Matches x s) (sym e) m)

Reads-escaped :
    (c : ℕ) (p s : Text)
    → ((rest : Text) → Reads p rest → Like p rest)
    → Reads (b'\\' ∷ c ∷ p) s
    → Like (b'\\' ∷ c ∷ p) s
Reads-escaped c p s likes (parts, reads, m) =
    let (later, below, e) = like_loop-escaped_parts c p parts reads in
    escaped-Like p later (λ rest k. likes rest (later, below, k)) c s
      (subst (λ x. Matches x s) (sym e) m)

Reads-Like : (p s : Text) → Reads p s → Like p s
Reads-Like [] s (parts, reads, m) = Matches-nil parts s (like_loop-nil parts reads) m
Reads-Like (c ∷ []) s reads =
    Reads-plain c [] s (λ h. like_loop-dangling reads.0 (rw⁻¹ h reads.1)) (Reads-Like []) reads
Reads-Like (c ∷ d ∷ p) s reads = elim (Bool-cases (c == b'\\')) [
  | inl escapes ↦
      let same = (==_iff c b'\\').0 escapes in
      subst (λ x. Like (x ∷ d ∷ p) s) (sym same)
        (Reads-escaped d p s (Reads-Like p) (subst (λ x. Reads (x ∷ d ∷ p) s) same reads))
  | inr plain ↦ Reads-plain c (d ∷ p) s (λ h. ground (arith, h, plain)) (Reads-Like (d ∷ p)) reads
]

holds-Reads : (p s : Text) → holds like p s ≡ ok true → Reads p s
unfolding holds like_regex
holds-Reads p s h =
    let (parts, reads, e) =
      >>=-eq-ok (like_loop false p) (λ parts. ok (full_match parts s)) {value = true} h in
    (parts, reads, (full_match_iff parts s).0 (ground (arith, e)))

Reads-holds : (p s : Text) → Reads p s → holds like p s ≡ ok true
unfolding holds like_regex
Reads-holds p s (parts, reads, m) = rw reads (ap ok ((full_match_iff parts s).1 m))

-- A LIKE comparison holds of a text exactly where the text is one that the pattern stands for: `%` for
-- any run of characters, `_` for any one, a backslash for the character behind it, and any other
-- character for itself. A pattern that ends with an open backslash stands for none.
pub holds-Like :
    (pattern actual : Text) → (holds like pattern actual ≡ ok true) ↔ Like pattern actual
holds-Like pattern actual = (
  λ h. Reads-Like pattern actual (holds-Reads pattern actual h),
  λ l. Reads-holds pattern actual (Like-Reads l),
)
