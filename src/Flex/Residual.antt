-- ===== src/Flex/Residual.antt =====
-- What is left of a pattern behind the characters that it has matched, and the rules of a start
-- condition taken one character at a time.
use zpr_res_monitor.Prelude.{
  ℕ, ◌==◌, Bool, true, false, Option, none, some, List, [], ◌∷◌, ◌++◌, Text, map, if◌then◌else◌,
}
use zpr_res_monitor.Lexer.Pattern.{
  Part, spaces, some_spaces, number, newlines, some_newlines, any_case, literal, is_space, is_digit,
  is_newline, to_lower,
}
use zpr_res_monitor.Lexer.Rules.{Action, echo}
use zpr_res_monitor.Lexer.Table.{Rule}

-- The tests that patterns put a character to: `letter` and `character` are one in any case, and one as it
-- stands.
pub data Atom : Type 0 where
  space digit newline anything : Atom
  letter character : ℕ → Atom

unfoldable pub test : Atom → ℕ → Bool
test space c = is_space c
test digit c = is_digit c
test newline c = is_newline c
test anything c = true
test (letter w) c = to_lower c == w
test (character w) c = c == w

-- Any number of characters, at least one, and just one.
pub data Piece : Type 0 where
  many some_of once : Atom → Piece

abbrev pub Residual : Type 0
Residual = List Piece

abbrev pub pieces_of : Part → List Piece
pieces_of spaces = many space ∷ []
pieces_of some_spaces = some_of space ∷ []
pieces_of number = some_of digit ∷ []
pieces_of newlines = many newline ∷ []
pieces_of some_newlines = some_of newline ∷ []
pieces_of (any_case w) = map (λ c. once (letter c)) w
pieces_of (literal w) = map (λ c. once (character c)) w

abbrev pub residual : List Part → Residual
residual [] = []
residual (p ∷ ps) = pieces_of p ++ residual ps

-- What is left behind one more character, where a repetition takes all that it can.
unfoldable pub after : Residual → ℕ → Option Residual
unfolding test
after [] c = none
after (many a ∷ ps) c = if test a c then some (many a ∷ ps) else after ps c
after (some_of a ∷ ps) c = if test a c then some (many a ∷ ps) else none
after (once a ∷ ps) c = if test a c then some ps else none

-- Whether a match may end here.
unfoldable pub may_end : Residual → Bool
may_end [] = true
may_end (many a ∷ ps) = may_end ps
may_end (some_of a ∷ ps) = false
may_end (once a ∷ ps) = false

-- The rules that are still in the running, in their order.
abbrev pub Running : Type 0
Running = List (Action × Residual)

abbrev keep : Action → Option Residual → Running → Running
keep a none rs = rs
keep a (some r) rs = (a, r) ∷ rs

unfoldable pub advance : Running → ℕ → Running
unfolding after
advance [] c = []
advance ((a, r) ∷ rs) c = keep a (after r c) (advance rs c)

unfoldable pub advance_all : Running → Text → Running
unfolding advance
advance_all rs [] = rs
advance_all rs (c ∷ cs) = advance_all (advance rs c) cs

-- The first rule that may end here.
unfoldable pub ending : Running → Option Action
unfolding may_end
ending [] = none
ending ((a, r) ∷ rs) = if may_end r then some a else ending rs

abbrev pub runs_of : Rule → Running
runs_of r = map (λ ps. (r.action, residual ps)) r.pattern

abbrev pub all_runs : List Rule → Running
all_runs [] = []
all_runs (r ∷ rs) = runs_of r ++ all_runs rs

-- Behind them the default rule, which takes any character.
abbrev pub running : List Rule → Running
running rs = all_runs rs ++ ((echo, once anything ∷ []) ∷ [])
