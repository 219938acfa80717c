-- ===== src/Lexer/LogTokens.antt =====
-- The matches of the tokens of a line of logs.
use zpr_res_monitor.Prelude.{ℕ, refl, ◌∷◌, ◌++◌, Text, codes}
use zpr_res_monitor.Config.Types.{Resource, cpu, memory, disk}
use zpr_res_monitor.Lexer.State.{
  initial, log_duration_set_env, log_duration_single_no_env, log_resolution_set_env,
  log_resolution_single_no_env, log_env,
}
use zpr_res_monitor.Lexer.Rules.{
  log_resource, enter, push_log_duration, push_log_duration_end, push_resolution, end_log,
}
use zpr_res_monitor.Lexer.Scan.{next_match}
use zpr_res_monitor.Lexer.Decimal.{IsDigit, for_digits}
use zpr_res_monitor.Lexer.Syntax.{resource_text}
use zpr_res_monitor.Lexer.Tokens.{Matches, LineStart, at_end, at_trigger, at_log}

-- `log` in front of a resource.
pub log-Matches :
    (r : Resource) (rest : Text)
    → Matches initial (codes "log ") (enter log_env) (resource_text r ++ rest)
unfolding next_match
log-Matches cpu rest = refl
log-Matches memory rest = refl
log-Matches disk rest = refl

-- The resource of a log.
pub log_resource-Matches :
    (r : Resource) (rest : Text)
    → Matches log_env (resource_text r) (log_resource r) (codes "for " ++ rest)
unfolding next_match
log_resource-Matches cpu rest = refl
log_resource-Matches memory rest = refl
log_resource-Matches disk rest = refl

-- `for` in front of a set of durations.
pub for_open-Matches :
    (c : ℕ)
    → IsDigit c
    → (rest : Text) → Matches log_env (codes "for {") (enter log_duration_set_env) (c ∷ rest)
unfolding next_match
for_open-Matches c digit rest =
    for_digits (λ c. Matches log_env (codes "for {") (enter log_duration_set_env) (c ∷ rest)) refl
      refl refl refl refl refl refl refl refl refl c digit

-- `for` in front of a single duration.
pub for-Matches :
    (c : ℕ)
    → IsDigit c
    → (rest : Text) → Matches log_env (codes "for ") (enter log_duration_single_no_env) (c ∷ rest)
unfolding next_match
for-Matches c digit rest =
    for_digits (λ c. Matches log_env (codes "for ") (enter log_duration_single_no_env) (c ∷ rest))
      refl refl refl refl refl refl refl refl refl refl c digit

-- `resolution` in front of a set.
pub resolution_open-Matches :
    (c : ℕ)
    → IsDigit c
    → (rest : Text)
    → Matches log_env (codes "resolution {") (enter log_resolution_set_env) (c ∷ rest)
unfolding next_match
resolution_open-Matches c digit rest =
    for_digits
      (λ c. Matches log_env (codes "resolution {") (enter log_resolution_set_env) (c ∷ rest)) refl
      refl refl refl refl refl refl refl refl refl c digit

-- `resolution` in front of a single one.
pub resolution-Matches :
    (c : ℕ)
    → IsDigit c
    → (rest : Text)
    → Matches log_env (codes "resolution ") (enter log_resolution_single_no_env) (c ∷ rest)
unfolding next_match
resolution-Matches c digit rest =
    for_digits
      (λ c. Matches log_env (codes "resolution ") (enter log_resolution_single_no_env) (c ∷ rest))
      refl refl refl refl refl refl refl refl refl refl c digit

-- The comma between the durations of a log.
pub push_log_duration-Matches :
    (c : ℕ)
    → IsDigit c
    → (rest : Text) → Matches log_duration_set_env (codes ", ") (push_log_duration) (c ∷ rest)
unfolding next_match
push_log_duration-Matches c digit rest =
    for_digits (λ c. Matches log_duration_set_env (codes ", ") (push_log_duration) (c ∷ rest)) refl
      refl refl refl refl refl refl refl refl refl c digit

-- The comma between resolutions.
pub push_resolution-Matches :
    (c : ℕ)
    → IsDigit c
    → (rest : Text) → Matches log_resolution_set_env (codes ", ") (push_resolution) (c ∷ rest)
unfolding next_match
push_resolution-Matches c digit rest =
    for_digits (λ c. Matches log_resolution_set_env (codes ", ") (push_resolution) (c ∷ rest)) refl
      refl refl refl refl refl refl refl refl refl c digit

-- The brace behind the durations of a log.
pub push_log_duration_end-Matches :
    (rest : Text)
    → Matches log_duration_set_env (codes "} ") push_log_duration_end (codes "resolution " ++ rest)
unfolding next_match
push_log_duration_end-Matches rest = refl

-- The end of the single duration of a log.
pub push_log_duration_single-Matches :
    (rest : Text)
    → Matches log_duration_single_no_env
        (codes " ")
        push_log_duration_end
        (codes "resolution " ++ rest)
unfolding next_match
push_log_duration_single-Matches rest = refl

-- The end of a log behind a set of resolutions.
pub end_log_open-Matches :
    {rest : Text} → LineStart rest → Matches log_resolution_set_env (codes "}\n") end_log rest
unfolding next_match
end_log_open-Matches at_end = refl
end_log_open-Matches (at_trigger rest) = refl
end_log_open-Matches (at_log rest) = refl

-- The end of a log behind a single resolution.
pub end_log-Matches :
    {rest : Text} → LineStart rest → Matches log_resolution_single_no_env (codes "\n") end_log rest
unfolding next_match
end_log-Matches at_end = refl
end_log-Matches (at_trigger rest) = refl
end_log-Matches (at_log rest) = refl
