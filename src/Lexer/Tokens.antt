-- ===== src/Lexer/Tokens.antt =====
-- The matches of single tokens, and what may stand behind a line.
use zpr_res_monitor.Prelude.{◌≡◌, refl, [], ◌∷◌, ◌++◌, Text, codes, length}
use zpr_res_monitor.Lexer.State.{Condition}
use zpr_res_monitor.Lexer.Rules.{Action, duration_number, add_duration}
use zpr_res_monitor.Lexer.Scan.{next_match}
use zpr_res_monitor.Lexer.Numbers.{
  Reads, trigger_set, trigger_single, log_set, log_single, resolution_set, resolution_single,
}
use zpr_res_monitor.Lexer.Syntax.{TimeUnit, seconds, minutes, hours, days, in_seconds, letter}

-- In a start condition a text in front of another is one match, which runs an action.
abbrev pub Matches : Condition → Text → Action → Text → Type 0
Matches k text a rest = next_match k (text ++ rest) ≡ (a, length text)

-- The unit of an element of a duration.
pub add_duration-Matches :
    {k : Condition}
    → Reads k duration_number
    → (u : TimeUnit) (rest : Text) → Matches k (letter u ∷ []) (add_duration (in_seconds u)) rest
unfolding next_match
add_duration-Matches trigger_set seconds rest = refl
add_duration-Matches trigger_set minutes rest = refl
add_duration-Matches trigger_set hours rest = refl
add_duration-Matches trigger_set days rest = refl
add_duration-Matches trigger_single seconds rest = refl
add_duration-Matches trigger_single minutes rest = refl
add_duration-Matches trigger_single hours rest = refl
add_duration-Matches trigger_single days rest = refl
add_duration-Matches log_set seconds rest = refl
add_duration-Matches log_set minutes rest = refl
add_duration-Matches log_set hours rest = refl
add_duration-Matches log_set days rest = refl
add_duration-Matches log_single seconds rest = refl
add_duration-Matches log_single minutes rest = refl
add_duration-Matches log_single hours rest = refl
add_duration-Matches log_single days rest = refl
add_duration-Matches resolution_set seconds rest = refl
add_duration-Matches resolution_set minutes rest = refl
add_duration-Matches resolution_set hours rest = refl
add_duration-Matches resolution_set days rest = refl
add_duration-Matches resolution_single seconds rest = refl
add_duration-Matches resolution_single minutes rest = refl
add_duration-Matches resolution_single hours rest = refl
add_duration-Matches resolution_single days rest = refl

-- What stands behind a line: nothing, or something that is no newline.
pub data LineStart : Text → Type 0 where
  at_end : LineStart []
  at_trigger : (rest : Text) → LineStart (codes "trigger " ++ rest)
  at_log : (rest : Text) → LineStart (codes "log " ++ rest)
