-- ===== src/Lexer/Reach.antt =====
-- Running the scanner over one piece of the text: the matches it takes, one behind the other.
use zpr_res_monitor.Prelude.{
  ℕ, suc, zero, ◌≤◌, ◌<◌, ◌≡◌, refl, ◌∙◌, ap, [], ◌∷◌, ◌++◌, Text, take, drop, length, arith,
  take-length-append, drop-length-append, subst,
}
use zpr_res_monitor.Lexer.State.{Condition, Lexer, ok}
use zpr_res_monitor.Lexer.Rules.{Action, do_action}
use zpr_res_monitor.Lexer.Scan.{
  next_match, take_match, scan_step, yylex, yylex-ok, scan_step_shorter, done,
}

-- With enough fuel the scanner gets from one text and state to another.
pub record Reaches (cs : Text) (s : Lexer) (cs' : Text) (s' : Lexer) : Type 0 where
  pub by_fuel :
      (fuel : ℕ)
      → length cs ≤ fuel
      → (fuel' : ℕ) × (length cs' ≤ fuel') × (yylex fuel cs s ≡ yylex fuel' cs' s')

pub reach_same : {cs : Text} {s : Lexer} → Reaches cs s cs s
reach_same = record { by_fuel = λ fuel h. (fuel, h, refl) }

infixr 4 ◌then◌
pub ◌then◌ :
    {cs : Text} {s : Lexer} {cs1 : Text} {s1 : Lexer} {cs2 : Text} {s2 : Lexer}
    → Reaches cs s cs1 s1
    → Reaches cs1 s1 cs2 s2
    → Reaches cs s cs2 s2
a then b = record {
  by_fuel = λ fuel h.
      let (fuel1, h1, e1) = a.by_fuel fuel h in
      let (fuel2, h2, e2) = b.by_fuel fuel1 h1 in (fuel2, h2, e1 ∙ e2);
}

take_match-ok :
    (m : Action × ℕ) (cs : Text) (s : Lexer) {s' : Lexer}
    → do_action m.0 (take m.1 cs) s ≡ ok s'
    → take_match m cs s ≡ ok (s', drop m.1 cs)
unfolding take_match
take_match-ok (a, n) cs s acted = rw (take_match, acted) refl

scan_step-ok :
    (cs : Text) (s : Lexer) (m : Action × ℕ) {s' : Lexer}
    → next_match s.condition cs ≡ m
    → do_action m.0 (take m.1 cs) s ≡ ok s'
    → scan_step cs s ≡ ok (s', drop m.1 cs)
unfolding scan_step
scan_step-ok cs s m matched acted = ap (λ k. take_match k cs s) matched ∙ take_match-ok m cs s acted

step_by_fuel :
    (c : ℕ) (cs : Text) (s : Lexer) {rest : Text} {s' : Lexer}
    → scan_step (c ∷ cs) s ≡ ok (s', rest)
    → (fuel : ℕ) → length (c ∷ cs) ≤ fuel
    → (fuel' : ℕ) × (length rest ≤ fuel') × (yylex fuel (c ∷ cs) s ≡ yylex fuel' rest s')
step_by_fuel c cs s step zero h = absurd (omega arith)
step_by_fuel c cs s step (suc fuel) h =
    (fuel, omega (arith, scan_step_shorter c cs s step), yylex-ok fuel c cs s step)

-- One match, in a given start condition.
pub reach_match :
    (k : Condition) (c : ℕ) (cs : Text) (s : Lexer) (m : Action × ℕ) {s' : Lexer}
    → s.condition ≡ k
    → next_match k (c ∷ cs) ≡ m
    → do_action m.0 (take m.1 (c ∷ cs)) s ≡ ok s'
    → Reaches (c ∷ cs) s (drop m.1 (c ∷ cs)) s'
reach_match k c cs s m at matched acted =
    let matched' = ap (λ x. next_match x (c ∷ cs)) at ∙ matched in
    record { by_fuel = step_by_fuel c cs s (scan_step-ok (c ∷ cs) s m matched' acted) }

-- A match of a text in front of another.
pub reach_token :
    (k : Condition) (c : ℕ) (text rest : Text) (s : Lexer) (a : Action) {s' : Lexer}
    → s.condition ≡ k
    → next_match k (c ∷ (text ++ rest)) ≡ (a, suc (length text))
    → do_action a (c ∷ text) s ≡ ok s'
    → Reaches (c ∷ (text ++ rest)) s rest s'
reach_token k c text rest s a {s'} at matched acted =
    let acted' : do_action a (c ∷ take (length text) (text ++ rest)) s ≡ ok s' =
      ap (λ t. do_action a (c ∷ t) s) (take-length-append text rest) ∙ acted in
    let read = reach_match k c (text ++ rest) s (a, suc (length text)) at matched acted' in
    subst (λ t. Reaches (c ∷ (text ++ rest)) s t s') (drop-length-append text rest) read

pub reach_text :
    (k : Condition) (text rest : Text) (s : Lexer) (a : Action) {s' : Lexer}
    → 0 < length text
    → s.condition ≡ k
    → next_match k (text ++ rest) ≡ (a, length text)
    → do_action a text s ≡ ok s'
    → Reaches (text ++ rest) s rest s'
reach_text k [] rest s a some at matched acted = absurd (omega arith)
reach_text k (c ∷ text) rest s a some at matched acted =
    reach_token k c text rest s a at matched acted

yylex-end : (fuel : ℕ) (s : Lexer) → yylex fuel [] s ≡ done s
unfolding yylex
yylex-end zero s = refl
yylex-end (suc fuel) s = refl

-- A text that is read to its end.
pub reach_end :
    (cs : Text) (s : Lexer) {s' : Lexer} → Reaches cs s [] s' → yylex (length cs) cs s ≡ done s'
reach_end cs s {s'} reach =
    let (fuel, h, e) = reach.by_fuel (length cs) (omega arith) in e ∙ yylex-end fuel s'
