-- ===== src/Lexer/Numbers.antt =====
-- The matches of a number, in the start conditions whose first rule reads one.
use zpr_res_monitor.Prelude.{
  ℕ, suc, ◌≡◌, refl, ◌∙◌, ap, ◌<◌, ◌&&◌, List, [], ◌∷◌, ◌++◌, Text, Bool, false, true, length,
  arith, decimal, drop, ltb, ◌==◌,
}
use zpr_res_monitor.Lexer.Pattern.{number, span, is_digit, match_longest, match_parts, match_part}
use zpr_res_monitor.Lexer.State.{
  Condition, resource_set_env, resource_single_no_env, trigger_duration_set_env,
  trigger_duration_single_no_env, log_duration_set_env, log_duration_single_no_env,
  log_resolution_set_env, log_resolution_single_no_env, Lexer, atol, ok, long_limit,
}
use zpr_res_monitor.Lexer.Rules.{Action, do_action, value_number, duration_number, echo}
use zpr_res_monitor.Lexer.Table.{Rule, rules_of}
use zpr_res_monitor.Lexer.Scan.{next_match, choose, or_default}
use zpr_res_monitor.Lexer.Reach.{Reaches, reach_token}
use zpr_res_monitor.Lexer.Decimal.{IsDigit, for_digits, decimal-Digits, span-AllDigits}

-- No rule matches at the front of a text.
abbrev none_match : List Rule → Text → Bool
none_match [] cs = true
none_match (r ∷ rs) cs = match_longest r.pattern cs == 0 && none_match rs cs

choose-none_match :
    (rs : List Rule) (cs : Text) (best : Action × ℕ)
    → none_match rs cs ≡ true
    → choose rs cs best ≡ best
unfolding choose
choose-none_match [] cs best none = refl
choose-none_match (r ∷ rs) cs best none =
    let nothing : ltb best.1 (match_longest r.pattern cs) ≡ false = ground arith in
    rw nothing (choose-none_match rs cs best (ground arith))

-- The conditions whose first rule reads a number, with what they do with it.
pub data Reads : Condition → Action → Type 0 where
  value_set : Reads resource_set_env value_number
  value_single : Reads resource_single_no_env value_number
  trigger_set : Reads trigger_duration_set_env duration_number
  trigger_single : Reads trigger_duration_single_no_env duration_number
  log_set : Reads log_duration_set_env duration_number
  log_single : Reads log_duration_single_no_env duration_number
  resolution_set : Reads log_resolution_set_env duration_number
  resolution_single : Reads log_resolution_single_no_env duration_number

-- The other rules of such a condition do not match at a digit.
others_none :
    {k : Condition} {a : Action}
    → Reads k a
    → (cs : Text) (c : ℕ) → IsDigit c
    → none_match (drop 1 (rules_of k)) (c ∷ cs) ≡ true
unfolding rules_of match_longest
others_none value_set cs =
    for_digits (λ c. none_match (drop 1 (rules_of resource_set_env)) (c ∷ cs) ≡ true) refl refl refl
      refl refl refl refl refl refl refl
others_none value_single cs =
    for_digits (λ c. none_match (drop 1 (rules_of resource_single_no_env)) (c ∷ cs) ≡ true) refl
      refl refl refl refl refl refl refl refl refl
others_none trigger_set cs =
    for_digits (λ c. none_match (drop 1 (rules_of trigger_duration_set_env)) (c ∷ cs) ≡ true) refl
      refl refl refl refl refl refl refl refl refl
others_none trigger_single cs =
    for_digits (λ c. none_match (drop 1 (rules_of trigger_duration_single_no_env)) (c ∷ cs) ≡ true)
      refl refl refl refl refl refl refl refl refl refl
others_none log_set cs =
    for_digits (λ c. none_match (drop 1 (rules_of log_duration_set_env)) (c ∷ cs) ≡ true) refl refl
      refl refl refl refl refl refl refl refl
others_none log_single cs =
    for_digits (λ c. none_match (drop 1 (rules_of log_duration_single_no_env)) (c ∷ cs) ≡ true) refl
      refl refl refl refl refl refl refl refl refl
others_none resolution_set cs =
    for_digits (λ c. none_match (drop 1 (rules_of log_resolution_set_env)) (c ∷ cs) ≡ true) refl
      refl refl refl refl refl refl refl refl refl
others_none resolution_single cs =
    for_digits (λ c. none_match (drop 1 (rules_of log_resolution_single_no_env)) (c ∷ cs) ≡ true)
      refl refl refl refl refl refl refl refl refl refl

-- The rule of a number matches a digit and those behind it.
match_longest-number :
    (c : ℕ) (cs : Text)
    → IsDigit c
    → match_longest ((number ∷ []) ∷ []) (c ∷ cs) ≡ suc (span is_digit cs)
unfolding match_longest match_parts match_part
match_longest-number c cs digit =
    let positive : ltb 0 (suc (span is_digit cs)) ≡ true = ground arith in
    rw (match_longest, match_parts, match_part, digit, positive) refl

-- It wins over rules that do not match.
choose-number :
    (a : Action) (rs : List Rule) (c : ℕ) (cs : Text)
    → IsDigit c
    → none_match rs (c ∷ cs) ≡ true
    → or_default
        (choose (record { pattern = (number ∷ []) ∷ []; action = a } ∷ rs) (c ∷ cs) (echo, 0))
      ≡ (a, suc (span is_digit cs))
unfolding choose or_default
choose-number a rs c cs digit none =
    let n = span is_digit cs in
    let positive : ltb 0 (suc n) ≡ true = ground arith in
    rw (match_longest-number c cs digit, positive, choose-none_match rs (c ∷ cs) (a, suc n) none)
      refl

abbrev number_rule : Action → Rule
number_rule a = record { pattern = (number ∷ []) ∷ []; action = a }

first_rule :
    {k : Condition} {a : Action} → Reads k a → rules_of k ≡ number_rule a ∷ drop 1 (rules_of k)
unfolding rules_of
first_rule value_set = refl
first_rule value_single = refl
first_rule trigger_set = refl
first_rule trigger_single = refl
first_rule log_set = refl
first_rule log_single = refl
first_rule resolution_set = refl
first_rule resolution_single = refl

-- In such a condition a digit and those behind it are one match.
pub next_match-number :
    {k : Condition} {a : Action}
    → Reads k a
    → (c : ℕ) (cs : Text) → IsDigit c
    → next_match k (c ∷ cs) ≡ (a, suc (span is_digit cs))
unfolding next_match
next_match-number {k} {a} r c cs d =
    ap (λ rs. or_default (choose rs (c ∷ cs) (echo, 0))) (first_rule r)
    ∙ choose-number a (drop 1 (rules_of k)) c cs d (others_none r cs c d)

-- What a number does: the value of its text goes where the condition keeps it.
abbrev pub store_number : Action → ℕ → Lexer → Lexer
store_number value_number n s = record s {
  current_resource_value = record s.current_resource_value { value = n };
}
store_number _ n s = record s { last_read_duration_element = n }

do_action-number :
    {k : Condition} {a : Action}
    → Reads k a
    → (text : Text) (s : Lexer) (n : ℕ) → atol text ≡ ok n
    → do_action a text s ≡ ok (store_number a n s)
unfolding do_action
do_action-number value_set text s n e = rw e refl
do_action-number value_single text s n e = rw e refl
do_action-number trigger_set text s n e = rw e refl
do_action-number trigger_single text s n e = rw e refl
do_action-number log_set text s n e = rw e refl
do_action-number log_single text s n e = rw e refl
do_action-number resolution_set text s n e = rw e refl
do_action-number resolution_single text s n e = rw e refl

-- A number is read whole, up to what is no digit.
pub reach_number :
    {k : Condition} {a : Action}
    → Reads k a
    → (n : ℕ) (rest : Text) (s : Lexer) → n < long_limit
    → span is_digit rest ≡ 0
    → s.condition ≡ k
    → Reaches (decimal n ++ rest) s rest (store_number a n s)
unfolding atol
reach_number {k} {a} r n rest s h stop at =
    let d = decimal-Digits n in
    let text = d.leading ∷ d.others in
    let size : suc (span is_digit (d.others ++ rest)) ≡ length text =
      ap suc (span-AllDigits d.others rest d.others-AllDigits stop) in
    let matched : next_match k (text ++ rest) ≡ (a, length text) =
      next_match-number r d.leading (d.others ++ rest) d.leading-IsDigit ∙ ap (λ m. (a, m)) size in
    let fits : ltb n long_limit ≡ true = ground arith in
    let number_value : atol text ≡ ok n = rw (d.value, fits) refl in
    rw d.printed (
      reach_token k d.leading d.others rest s a at matched
        (do_action-number r text s n number_value))
