-- ===== src/Flex/Stream.antt =====
-- `yylex` and `ConfigurationParser::run` on the stream: the generated tables, and a buffer that is
-- filled one character at a time.
use zpr_res_monitor.Prelude.{
  ℕ, zero, suc, ◌≤◌, ◌<◌, ◌≡◌, refl, sym, ◌∙◌, ap, Option, none, some, inl, inr, [], ◌∷◌, ◌++◌,
  Text, All, length, take, drop, subst, arith,
}
use zpr_res_monitor.Lexer.State.{Condition, Lexer, ok, fault, reset_lexer}
use zpr_res_monitor.Lexer.Rules.{Action, do_action}
use zpr_res_monitor.Lexer.Scan.{
  Outcome, done, failed, out_of_fuel, next_match, take_match, scan_step, Result-cases, yylex, run,
  next_match-pos, length-drop-lt,
}
use zpr_res_monitor.Flex.Cases.{case_of}
use zpr_res_monitor.Flex.Machine.{yy_start, flex_match}
use zpr_res_monitor.Flex.Buffer.{BufferState, token, file_end, at_input_end, next_token}
use zpr_res_monitor.Flex.Classes.{IsByte}
use zpr_res_monitor.Flex.Simulation.{flex_match-next_match, start-IsState}
use zpr_res_monitor.Flex.Filling.{Passes, nothing-Passes}
use zpr_res_monitor.Flex.Tokens.{Taken, token-last, match_fresh-end, next_token-flex_match}

-- The loop of `yylex`. At the end of the file it returns 0. `none` is a read outside of a table.
unfoldable pub stream_lex : ℕ → BufferState → Lexer → Option Outcome
unfolding next_token case_of do_action
stream_lex zero b s = some out_of_fuel
stream_lex (suc fuel) b s = elim (next_token s.condition [] b.chars b.input) [
  | none ↦ none
  | some file_end ↦ some (done s)
  | some (token act text left) ↦ elim (case_of act) [
    | none ↦ none
    | some a ↦ elim (do_action a text s) [
      | fault f ↦ some (failed f)
      | ok s' ↦ stream_lex fuel left s'
    ]
  ]
]

-- A match takes at least one character, and the end of the file takes one turn more.
unfoldable pub stream_run : Text → Lexer → Option Outcome
unfolding stream_lex reset_lexer
stream_run cs s = stream_lex (suc (length cs)) (record { chars = []; input = cs }) (reset_lexer s)

All-drop : (P : ℕ → Type 0) (n : ℕ) (cs : Text) → All P cs → All P (drop n cs)
All-drop P zero cs all = all
All-drop P (suc n) [] all = all
All-drop P (suc n) (c ∷ cs) all = All-drop P n cs all.1

All-front : (P : ℕ → Type 0) (xs ys : Text) → All P (xs ++ ys) → All P xs
All-front P [] ys all = tt
All-front P (x ∷ xs) ys all = (all.0, All-front P xs ys all.1)

All-back : (P : ℕ → Type 0) (xs ys : Text) → All P (xs ++ ys) → All P ys
All-back P [] ys all = all
All-back P (x ∷ xs) ys all = All-back P xs ys all.1

no_token : (k : Condition) → next_token k [] [] [] ≡ some file_end
unfolding at_input_end
no_token k =
    let p : Passes (yy_start k) none 0 [] =
      nothing-Passes (yy_start k) none 0 (start-IsState k) tt in
    token-last k [] [] (match_fresh-end k [] [] p p) (omega arith)

abbrev Steps : ℕ → Type 0
Steps fuel =
    (chars input : Text) (s : Lexer)
    → All IsByte (chars ++ input)
    → length (chars ++ input) ≤ fuel
    → stream_lex (suc fuel) (record { chars = chars; input = input }) s
      ≡ some (yylex fuel (chars ++ input) s)

stream_lex-token :
    (fuel c : ℕ) (cs chars input : Text) (s : Lexer)
    → Steps fuel
    → chars ++ input ≡ c ∷ cs
    → All IsByte (c ∷ cs)
    → length cs ≤ fuel
    → stream_lex (suc (suc fuel)) (record { chars = chars; input = input }) s
      ≡ some (yylex (suc fuel) (c ∷ cs) s)
unfolding stream_lex yylex scan_step take_match
stream_lex-token fuel c cs chars input s steps whole all h =
    let k : Condition = s.condition in
    let m : Action × ℕ = next_match k (c ∷ cs) in
    let bytes : All IsByte (chars ++ input) = subst (All IsByte) (sym whole) all in
    let t : Taken k [] chars input m.0 m.1 =
      next_token-flex_match k [] chars input m.0 m.1
        (nothing-Passes (yy_start k) none 0 (start-IsState k) tt)
        (All-front IsByte chars input bytes) (All-back IsByte chars input bytes)
        (subst (λ x. 0 < length x) (sym whole) (omega arith))
        (subst (λ x. flex_match k x ≡ some (m.0, m.1)) (sym whole)
          (flex_match-next_match k c cs all)) in
    let rest : t.left.chars ++ t.left.input ≡ drop m.1 (c ∷ cs) =
      t.left_over ∙ ap (drop m.1) whole in
    let tok : next_token k [] chars input ≡ some (token t.act (take m.1 (c ∷ cs)) t.left) =
      t.is_token ∙ ap (λ x. some (token t.act (take m.1 x) t.left)) whole in
    elim (Result-cases (do_action m.0 (take m.1 (c ∷ cs)) s)) [
      | inl (f, e) ↦
          rw (tok, stream_lex) (rw (t.named, stream_lex) (rw (e, stream_lex, yylex) refl))
      | inr (s', e) ↦
          let shorter : length (t.left.chars ++ t.left.input) ≤ fuel =
            subst (λ x. length x ≤ fuel) (sym rest)
              (omega (arith, h, length-drop-lt m.1 c cs (next_match-pos k (c ∷ cs)))) in
          let others : All IsByte (t.left.chars ++ t.left.input) =
            subst (All IsByte) (sym rest) (All-drop IsByte m.1 (c ∷ cs) all) in
          rw (tok, stream_lex)
            (rw (t.named, stream_lex)
              (rw (e, stream_lex, yylex)
                (steps t.left.chars t.left.input s' others shorter
                  ∙ ap (λ x. some (yylex fuel x s')) rest)))
    ]

stream_lex-Steps : (fuel : ℕ) → Steps fuel
unfolding stream_lex yylex
stream_lex-Steps fuel [] [] s all h = rw (no_token s.condition, stream_lex) (refl)
stream_lex-Steps zero [] (c ∷ cs) s all h = absurd (omega (arith, h))
stream_lex-Steps (suc fuel) [] (c ∷ cs) s all h =
    stream_lex-token fuel c cs [] (c ∷ cs) s (stream_lex-Steps fuel) refl all (omega (arith, h))
stream_lex-Steps zero (c ∷ cs) input s all h = absurd (omega (arith, h))
stream_lex-Steps (suc fuel) (c ∷ cs) input s all h =
    stream_lex-token fuel c (cs ++ input) (c ∷ cs) input s (stream_lex-Steps fuel) refl all
      (omega (arith, h))

-- On a text with no NUL, the generated scanner, with its tables and with its buffer filled one
-- character at a time, does what the rules of the configuration say: it reads inside of its tables and
-- comes to the same end, the same fault and the same globals.
pub stream_run-run : (cs : Text) (s : Lexer) → All IsByte cs → stream_run cs s ≡ some (run cs s)
unfolding stream_run run
stream_run-run cs s all = stream_lex-Steps (length cs) [] cs (reset_lexer s) all (omega arith)
