-- ===== src/Flex/Choice.antt =====
-- The longest match, and of two equally long ones the one of the earlier rule, found in one pass over
-- the text.
use zpr_res_monitor.Prelude.{
  ℕ, zero, suc, ◌≡◌, refl, sym, ◌∙◌, ap, Bool, true, false, Option, none, some, inl, inr, List, [],
  ◌∷◌, ◌++◌, Text, map, ltb, if◌then◌else◌, arith, Option-cases,
}
use zpr_res_monitor.Lexer.Pattern.{Part, match_parts, match_longest}
use zpr_res_monitor.Lexer.State.{Condition}
use zpr_res_monitor.Lexer.Rules.{Action, echo}
use zpr_res_monitor.Lexer.Table.{Rule, rules_of}
use zpr_res_monitor.Lexer.Scan.{choose, or_default, next_match}
use zpr_res_monitor.Flex.Residual.{
  Residual, anything, once, test, residual, after, may_end, Running, advance, ending, all_runs,
  running,
}
use zpr_res_monitor.Flex.Greedy.{or_else, here_if, one_more, last_end, match_parts-last_end}

abbrev pub Found : Type 0
Found = Option (Action × ℕ)

abbrev better : Found → Found → Found
better none y = y
better (some x) none = some x
better (some x) (some y) = if ltb x.1 y.1 then some y else some x

abbrev with_length : Action → Option ℕ → Found
with_length a none = none
with_length a (some n) = some (a, n)

-- The best of the rules in the running, each matched on its own.
abbrev best : Running → Text → Found
best [] cs = none
best ((a, r) ∷ rs) cs = better (with_length a (last_end (some r) cs)) (best rs cs)

-- A longer match takes the place of the one that is there.
abbrev from : Action × ℕ → Found → Action × ℕ
from b none = b
from b (some y) = if ltb b.1 y.1 then y else b

from-better : (b : Action × ℕ) (x y : Found) → from b (better x y) ≡ from (from b x) y
from-better b none y = refl
from-better b (some x) none = refl
from-better b (some x) (some y) = ground arith

better_assoc : (x y z : Found) → better (better x y) z ≡ better x (better y z)
better_assoc none y z = refl
better_assoc (some x) none z = refl
better_assoc (some x) (some y) none = ground arith
better_assoc (some x) (some y) (some z) = ground arith

best-append : (xs ys : Running) (cs : Text) → best (xs ++ ys) cs ≡ better (best xs cs) (best ys cs)
best-append [] ys cs = refl
best-append ((a, r) ∷ xs) ys cs =
    ap (better (with_length a (last_end (some r) cs))) (best-append xs ys cs)
    ∙ sym (better_assoc (with_length a (last_end (some r) cs)) (best xs cs) (best ys cs))

abbrev longer : Option ℕ → ℕ → ℕ
longer none m = m
longer (some n) m = if ltb m n then n else m

longer-from :
    (b : Action × ℕ) (a : Action) (v : Option ℕ) (m : ℕ)
    → (if ltb b.1 (longer v m) then (a, longer v m) else b)
      ≡ (if ltb (from b (with_length a v)).1 m then (a, m) else from b (with_length a v))
longer-from b a none m = refl
longer-from b a (some n) m = ground arith

match_longest-cons :
    (ps : List Part) (alts : List (List Part)) (cs : Text)
    → match_longest (ps ∷ alts) cs
      ≡ longer (last_end (some (residual ps)) cs) (match_longest alts cs)
unfolding match_longest
match_longest-cons ps alts cs = elim (Option-cases (match_parts ps cs)) [
  | inl e ↦
      rw (e, match_longest)
        (ap (λ o. longer o (match_longest alts cs)) (sym e ∙ match_parts-last_end ps cs))
  | inr (n, e) ↦
      rw (e, match_longest)
        (ap (λ o. longer o (match_longest alts cs)) (sym e ∙ match_parts-last_end ps cs))
]

from-alternatives :
    (b : Action × ℕ) (a : Action) (alts : List (List Part)) (rest : Running) (cs : Text)
    → from b (best (map (λ ps. (a, residual ps)) alts ++ rest) cs)
      ≡ from
          (if ltb b.1 (match_longest alts cs) then (a, match_longest alts cs) else b)
          (best rest cs)
unfolding match_longest
from-alternatives b a [] rest cs = ground arith
from-alternatives b a (ps ∷ alts) rest cs =
    let v = last_end (some (residual ps)) cs in
    from-better b (with_length a v) (best (map (λ ps. (a, residual ps)) alts ++ rest) cs)
    ∙ from-alternatives (from b (with_length a v)) a alts rest cs
    ∙ ap (λ x. from x (best rest cs)) (sym (longer-from b a v (match_longest alts cs)))
    ∙ ap (λ n. from (if ltb b.1 n then (a, n) else b) (best rest cs))
        (sym (match_longest-cons ps alts cs))

choose-from :
    (rs : List Rule) (cs : Text) (b : Action × ℕ) → choose rs cs b ≡ from b (best (all_runs rs) cs)
unfolding choose
choose-from [] cs b = refl
choose-from (r ∷ rs) cs b =
    let n = match_longest r.pattern cs in
    choose-from rs cs (if ltb b.1 n then (r.action, n) else b)
    ∙ sym (from-alternatives b r.action r.pattern (all_runs rs) cs)

better-default : (x : Found) → better x (some (echo, 1)) ≡ some (or_default (from (echo, 0) x))
unfolding or_default
better-default none = refl
better-default (some (a, zero)) = refl
better-default (some (a, suc n)) = ground arith

abbrev pub at_zero : Option Action → Found
at_zero none = none
at_zero (some a) = some (a, 0)

abbrev pub shifted : Found → Found
shifted none = none
shifted (some (a, n)) = some (a, suc n)

-- One pass over the text with the rules in the running: the last place where one of them may end, and
-- the first rule that may end there.
unfoldable pub longest : Running → Text → Found
unfolding ending advance
longest rs [] = at_zero (ending rs)
longest rs (c ∷ cs) = or_else (shifted (longest (advance rs c) cs)) (at_zero (ending rs))

better-ended :
    (a : Action) (e : Bool) (f : Option Action)
    → better (with_length a (here_if e)) (at_zero f) ≡ at_zero (if e then some a else f)
better-ended a true none = refl
better-ended a true (some x) = refl
better-ended a false f = refl

best-nil : (rs : Running) → best rs [] ≡ at_zero (ending rs)
unfolding ending last_end
best-nil [] = refl
best-nil ((a, r) ∷ rs) =
    ap (better (with_length a (here_if (may_end r)))) (best-nil rs)
    ∙ better-ended a (may_end r) (ending rs)

better-step :
    (a : Action) (u : Option ℕ) (e : Bool) (w : Found) (f : Option Action)
    → better (with_length a (or_else (one_more u) (here_if e))) (or_else (shifted w) (at_zero f))
      ≡ or_else (shifted (better (with_length a u) w)) (at_zero (if e then some a else f))
better-step a none true none none = refl
better-step a none true none (some x) = refl
better-step a none true (some y) f = ground arith
better-step a none false none f = refl
better-step a none false (some y) f = refl
better-step a (some m) e none none = refl
better-step a (some m) e none (some x) = ground arith
better-step a (some m) e (some y) f = ground arith

best-advance :
    (a : Action) (r : Residual) (rs : Running) (c : ℕ) (cs : Text)
    → best (advance ((a, r) ∷ rs) c) cs
      ≡ better (with_length a (last_end (after r c) cs)) (best (advance rs c) cs)
unfolding advance last_end
best-advance a r rs c cs = elim (Option-cases (after r c)) [
  | inl e ↦ rw (e, advance) refl
  | inr (r', e) ↦ rw (e, advance) refl
]

best-cons :
    (rs : Running) (c : ℕ) (cs : Text)
    → best rs (c ∷ cs) ≡ or_else (shifted (best (advance rs c) cs)) (at_zero (ending rs))
unfolding ending last_end advance
best-cons [] c cs = refl
best-cons ((a, r) ∷ rs) c cs =
    ap (better (with_length a (last_end (some r) (c ∷ cs)))) (best-cons rs c cs)
    ∙ better-step a (last_end (after r c) cs) (may_end r) (best (advance rs c) cs) (ending rs)
    ∙ ap (λ w. or_else (shifted w) (at_zero (if may_end r then some a else ending rs)))
        (sym (best-advance a r rs c cs))

best-longest : (rs : Running) (cs : Text) → best rs cs ≡ longest rs cs
unfolding longest
best-longest rs [] = best-nil rs
best-longest rs (c ∷ cs) =
    best-cons rs c cs
    ∙ ap (λ w. or_else (shifted w) (at_zero (ending rs))) (best-longest (advance rs c) cs)

default_one : (c : ℕ) (cs : Text) → best ((echo, once anything ∷ []) ∷ []) (c ∷ cs) ≡ some (echo, 1)
unfolding last_end after may_end test
default_one c [] = refl
default_one c (d ∷ cs) = refl

-- What the rules of a condition choose is what the pass over the text finds.
pub longest-next_match :
    (k : Condition) (c : ℕ) (cs : Text)
    → longest (running (rules_of k)) (c ∷ cs) ≡ some (next_match k (c ∷ cs))
unfolding next_match
longest-next_match k c cs =
    let text : Text = c ∷ cs in
    sym (best-longest (running (rules_of k)) text)
    ∙ best-append (all_runs (rules_of k)) ((echo, once anything ∷ []) ∷ []) text
    ∙ ap (better (best (all_runs (rules_of k)) text)) (default_one c cs)
    ∙ better-default (best (all_runs (rules_of k)) text)
    ∙ ap (λ b. some (or_default b)) (sym (choose-from (rules_of k) text (echo, 0)))
