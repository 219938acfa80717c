-- ===== src/Flex/Views.antt =====
-- What the tables say of a state, and what the rules say that are in the running there.
use zpr_res_monitor.Prelude.{
  every, ℕ, zero, suc, ◌-◌, ◌==◌, Bool, true, false, not, ◌&&◌, ◌||◌, Option, none, some, List, [],
  ◌∷◌, Text, codes, get_elem?, map,
}
use zpr_res_monitor.Lexer.Rules.{Action}
use zpr_res_monitor.Flex.Numbers.{entry}
use zpr_res_monitor.Flex.Accepting.{yy_accept, yy_ec}
use zpr_res_monitor.Flex.States.{yy_base}
use zpr_res_monitor.Flex.Cases.{case_of}
use zpr_res_monitor.Flex.Machine.{next_of}
use zpr_res_monitor.Flex.Residual.{
  Atom, space, digit, newline, anything, letter, character, test, Piece, many, some_of, once,
  Running, advance, ending,
}
use zpr_res_monitor.Flex.Reached.{running_at, classes, is_state}

abbrev pub contains : ℕ → Text → Bool
contains w [] = false
contains w (x ∷ xs) = x == w || contains w xs

-- The atoms that the rules are made of.
abbrev pub letters : Text
letters = codes " /abcdefgiklmnoprstuvy"

abbrev pub characters : Text
characters = codes "%,dhms{}"

abbrev pub is_known : Atom → Bool
is_known space = true
is_known digit = true
is_known newline = true
is_known anything = true
is_known (letter w) = contains w letters
is_known (character w) = contains w characters

abbrev pub known_piece : Piece → Bool
known_piece (many a) = is_known a
known_piece (some_of a) = is_known a
known_piece (once a) = is_known a

abbrev pub known_running : Running → Bool
known_running rs = every (λ r. every known_piece r.1) rs

-- Whether an atom tells two characters apart.
abbrev pub same : Atom → ℕ → ℕ → Bool
same a c d = elim (test a c) [ true ↦ test a d | false ↦ not (test a d) ]

abbrev pub agree : ℕ → ℕ → Bool
agree c d =
    same space c d
    && same digit c d
    && same newline c d
    && every (λ w. same (letter w) c d) letters
    && every (λ w. same (character w) c d) characters

abbrev pub fits_entry : ℕ → ℕ → Option (ℕ × ℕ) → Bool
fits_entry c k none = false
fits_entry c k (some (k', d)) = k' == k && agree c d

unfoldable pub fits : ℕ → Option ℕ → Bool
unfolding classes
fits c none = false
fits c (some k) = fits_entry c k (get_elem? classes (k - 1))

-- Whether a character agrees with the one that stands for its class.
unfoldable pub class_fits : ℕ → Bool
unfolding entry yy_ec fits test
class_fits c = fits c (entry yy_ec c)

-- What a state accepts.
unfoldable pub verdict : ℕ → Option (Option Action)
unfolding entry yy_accept case_of
verdict s = elim (entry yy_accept s) [
  | none ↦ none
  | some zero ↦ some none
  | some (suc a) ↦ elim (case_of (suc a)) [ none ↦ none | some x ↦ some (some x) ]
]

-- The rules in the running behind a class.
unfoldable pub table_step : ℕ → ℕ → Option Running
unfolding next_of running_at
table_step s k = elim (next_of s k) [ none ↦ none | some s' ↦ some (running_at s') ]

-- The next state has a row, and behind a state where the loop leaves there is only the last one.
unfoldable pub is_closed : ℕ → ℕ → Bool
unfolding next_of entry yy_base is_state
is_closed s k = elim (next_of s k) [
  | none ↦ false
  | some s' ↦ elim (entry yy_base s) [
    | none ↦ false
    | some base ↦ is_state s' && (not (base == 1150) || s' == 315)
  ]
]

pub record View : Type 0 where
  pub accepts : Option (Option Action)
  pub steps : List (Option Running)
  pub closed : Bool

unfoldable pub table_view : ℕ → View
unfolding verdict table_step is_closed classes running_at
table_view s = record {
  accepts = verdict s;
  steps = map (λ p. table_step s p.0) classes;
  closed = every (λ p. is_closed s p.0) classes && known_running (running_at s);
}

unfoldable pub rule_view : ℕ → View
unfolding running_at advance ending classes
rule_view s = record {
  accepts = some (ending (running_at s));
  steps = map (λ p. some (advance (running_at s) p.1)) classes;
  closed = true;
}
