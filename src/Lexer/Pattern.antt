-- ===== src/Lexer/Pattern.antt =====
-- The patterns of the rules. Each alternative of a rule is a sequence of parts whose matches do not
-- overlap, so that taking as much as possible for each part is the longest match.
use zpr_res_monitor.Prelude.{
  ℕ, suc, zero, ◌+◌, ◌==◌, Bool, ◌&&◌, ◌||◌, Option, none, some, List, [], ◌∷◌, Text, leb, ltb,
  if◌then◌else◌, drop,
}

pub data Part : Type 0 where
  -- `{ws}*` and `{ws}+`.
  spaces some_spaces : Part
  -- `{number}`.
  number : Part
  -- `\n*` and `\n+`.
  newlines some_newlines : Part
  -- A literal in any case, written in small letters, and a literal as it stands.
  any_case literal : Text → Part

abbrev pub is_space : ℕ → Bool
is_space c = c == 32 || c == 9

abbrev pub is_digit : ℕ → Bool
is_digit c = leb 48 c && leb c 57

abbrev pub is_newline : ℕ → Bool
is_newline c = c == 10

-- ASCII letters to small ones.
abbrev pub to_lower : ℕ → ℕ
to_lower c = if leb 65 c && leb c 90 then c + 32 else c

-- How many characters at the front pass a test.
abbrev pub span : (ℕ → Bool) → Text → ℕ
span p [] = 0
span p (c ∷ cs) = let rest = span p cs in if p c then suc rest else 0

-- The length of a word, if the text begins with it.
abbrev pub match_word : (ℕ → ℕ) → Text → Text → Option ℕ
match_word f [] cs = some 0
match_word f (w ∷ ws) [] = none
match_word f (w ∷ ws) (c ∷ cs) =
    let rest = match_word f ws cs in
    if f c == w then elim rest [ none ↦ none | some n ↦ some (suc n) ] else none

abbrev pub at_least_one : ℕ → Option ℕ
at_least_one zero = none
at_least_one (suc n) = some (suc n)

unfoldable pub match_part : Part → Text → Option ℕ
match_part spaces cs = some (span is_space cs)
match_part some_spaces cs = at_least_one (span is_space cs)
match_part number cs = at_least_one (span is_digit cs)
match_part newlines cs = some (span is_newline cs)
match_part some_newlines cs = at_least_one (span is_newline cs)
match_part (any_case w) cs = match_word to_lower w cs
match_part (literal w) cs = match_word (λ c. c) w cs

unfoldable pub match_parts : List Part → Text → Option ℕ
unfolding match_part
match_parts [] cs = some 0
match_parts (p ∷ []) cs = match_part p cs
match_parts (p ∷ q ∷ ps) cs = elim (match_part p cs) [
  | none ↦ none
  | some n ↦ elim (match_parts (q ∷ ps) (drop n cs)) [ none ↦ none | some m ↦ some (n + m) ]
]

-- The longest match among the alternatives; 0 if there is none.
unfoldable pub match_longest : List (List Part) → Text → ℕ
unfolding match_parts
match_longest [] cs = 0
match_longest (a ∷ as') cs =
    let rest = match_longest as' cs in
    elim (match_parts a cs) [ none ↦ rest | some n ↦ if ltb rest n then n else rest ]
