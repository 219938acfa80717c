-- ===== src/Lexer/Scan.antt =====
-- `yylex` and `ConfigurationParser::run`: the longest match, the earlier rule on a tie, the default
-- rule where nothing matches, and the end of the input.
use zpr_res_monitor.Prelude.{
  ℕ, suc, zero, ◌≤◌, ◌<◌, ◌≡◌, refl, sym, ◌∙◌, ◌≢◌, List, [], ◌∷◌, Text, ltb, if◌then◌else◌, take,
  drop, length, length-drop-le, arith, inl, inr, ◌⊎◌,
}
use zpr_res_monitor.Lexer.Pattern.{match_longest}
use zpr_res_monitor.Lexer.State.{Condition, Lexer, Result, ok, fault, Fault, reset_lexer}
use zpr_res_monitor.Lexer.Rules.{Action, echo, do_action}
use zpr_res_monitor.Lexer.Table.{Rule, rules_of}

-- The best rule so far and the length of its match; an empty match gives way to the default rule.
unfoldable pub choose : List Rule → Text → Action × ℕ → Action × ℕ
unfolding match_longest
choose [] cs best = best
choose (r ∷ rs) cs best =
    let n = match_longest r.pattern cs in
    choose rs cs (if ltb best.1 n then (r.action, n) else best)

-- The default rule takes one character where no rule matches any.
unfoldable pub or_default : Action × ℕ → Action × ℕ
or_default (action, zero) = (echo, 1)
or_default (action, suc n) = (action, suc n)

-- The action and the length of the next match in a text that is not empty.
unfoldable pub next_match : Condition → Text → Action × ℕ
unfolding choose rules_of or_default
next_match c cs = or_default (choose (rules_of c) cs (echo, 0))

-- The action on the text matched, and the text left.
unfoldable pub take_match : Action × ℕ → Text → Lexer → Result (Lexer × Text)
unfolding do_action
take_match (action, n) cs s = elim (do_action action (take n cs) s) [
  | fault f ↦ fault f
  | ok s' ↦ ok (s', drop n cs)
]

unfoldable pub scan_step : Text → Lexer → Result (Lexer × Text)
unfolding next_match take_match
scan_step cs s = take_match (next_match s.condition cs) cs s

pub data Outcome : Type 0 where
  done : Lexer → Outcome
  failed : Fault → Outcome
  out_of_fuel : Outcome

-- The loop of `yylex`, which returns 0 at the end of the input.
unfoldable pub yylex : ℕ → Text → Lexer → Outcome
yylex fuel [] s = done s
yylex zero (c ∷ cs) s = out_of_fuel
yylex (suc fuel) (c ∷ cs) s = elim (scan_step (c ∷ cs) s) [
  | fault f ↦ failed f
  | ok (s', rest) ↦ yylex fuel rest s'
]

-- `run`: the results are copied from the globals, which hold on to the rest.
unfoldable pub run : Text → Lexer → Outcome
unfolding yylex reset_lexer
run cs s = yylex (length cs) cs (reset_lexer s)

or_default-pos : (b : Action × ℕ) → 0 < (or_default b).1
unfolding or_default
or_default-pos (action, zero) = omega arith
or_default-pos (action, suc n) = omega arith

pub next_match-pos : (c : Condition) (cs : Text) → 0 < (next_match c cs).1
unfolding next_match
next_match-pos c cs = or_default-pos (choose (rules_of c) cs (echo, 0))

pub length-drop-lt : (n c : ℕ) (cs : Text) → 0 < n → length (drop n (c ∷ cs)) ≤ length cs
length-drop-lt zero c cs h = absurd (omega arith)
length-drop-lt (suc n) c cs h = length-drop-le n cs

take_match_rest :
    (r : Result Lexer) (rest : Text) {q : Lexer × Text}
    → (elim r [ fault f ↦ fault f | ok s' ↦ ok (s', rest) ]) ≡ ok q
    → q.1 ≡ rest
take_match_rest r rest e = ground arith

pub scan_step_shorter :
    (c : ℕ) (cs : Text) (s : Lexer) {r : Lexer × Text}
    → scan_step (c ∷ cs) s ≡ ok r
    → length r.1 ≤ length cs
unfolding scan_step
scan_step_shorter c cs s e =
    let m = next_match s.condition (c ∷ cs) in
    let rest = take_match_rest (do_action m.0 (take m.1 (c ∷ cs)) s) (drop m.1 (c ∷ cs)) e in
    rw rest (length-drop-lt m.1 c cs (next_match-pos s.condition (c ∷ cs)))

pub Result-cases :
    {A : Type 0} (r : Result A) → ((f : Fault) × (r ≡ fault f)) ⊎ ((a : A) × (r ≡ ok a))
Result-cases (fault f) = inl (f, refl)
Result-cases (ok a) = inr (a, refl)

-- How the loop goes on after a match.
abbrev continue : ℕ → Result (Lexer × Text) → Outcome
continue fuel (fault f) = failed f
continue fuel (ok (s', rest)) = yylex fuel rest s'

yylex-suc :
    (fuel c : ℕ) (cs : Text) (s : Lexer)
    → yylex (suc fuel) (c ∷ cs) s ≡ continue fuel (scan_step (c ∷ cs) s)
unfolding yylex
yylex-suc fuel c cs s = elim (Result-cases (scan_step (c ∷ cs) s)) [
  | inl (f, stop) ↦ rw (stop, yylex) refl
  | inr (r, next) ↦ rw (next, yylex) refl
]

pub yylex-ok :
    (fuel c : ℕ) (cs : Text) (s : Lexer) {r : Lexer × Text}
    → scan_step (c ∷ cs) s ≡ ok r
    → yylex (suc fuel) (c ∷ cs) s ≡ yylex fuel r.1 r.0
yylex-ok fuel c cs s next = rw (yylex-suc fuel c cs s, next) refl

-- Each match takes at least one character, so as much fuel as the text is long is enough.
pub yylex-ne-out_of_fuel :
    (fuel : ℕ) (cs : Text) (s : Lexer) → length cs ≤ fuel → yylex fuel cs s ≢ out_of_fuel
unfolding yylex
yylex-ne-out_of_fuel zero [] s h e = cc
yylex-ne-out_of_fuel (suc fuel) [] s h e = cc
yylex-ne-out_of_fuel zero (c ∷ cs) s h e = absurd (omega arith)
yylex-ne-out_of_fuel (suc fuel) (c ∷ cs) s h e = elim (Result-cases (scan_step (c ∷ cs) s)) [
  | inl (f, stop) ↦
      let ends : yylex (suc fuel) (c ∷ cs) s ≡ failed f = rw (yylex-suc fuel c cs s, stop) refl in
      cc
  | inr (r, next) ↦
      yylex-ne-out_of_fuel fuel r.1 r.0 (omega (arith, scan_step_shorter c cs s next))
        (sym (yylex-ok fuel c cs s next) ∙ e)
]
