-- ===== src/Lexer/TriggerTokens.antt =====
-- The matches of the tokens of a line of triggers.
use zpr_res_monitor.Prelude.{ℕ, refl, ◌∷◌, ◌++◌, Text, codes}
use zpr_res_monitor.Config.Types.{
  Resource, ResourceUnit, FluctuationType, percent, mb, gb, cpu, memory, disk, under, over,
}
use zpr_res_monitor.Lexer.State.{
  initial, resource_set_env, resource_single_no_env, trigger_duration_set_env,
  trigger_duration_single_no_env, trigger_env,
}
use zpr_res_monitor.Lexer.Rules.{
  trigger_resource, fluctuation, value_unit, value_unit_end, push_value, push_value_end, enter,
  push_trigger_duration, end_trigger,
}
use zpr_res_monitor.Lexer.Scan.{next_match}
use zpr_res_monitor.Lexer.Decimal.{IsDigit, for_digits}
use zpr_res_monitor.Lexer.Syntax.{resource_text, fluctuation_text, unit_text}
use zpr_res_monitor.Lexer.Tokens.{Matches, LineStart, at_end, at_trigger, at_log}

-- `trigger` in front of a resource.
pub trigger-Matches :
    (r : Resource) (rest : Text)
    → Matches initial (codes "trigger ") (enter trigger_env) (resource_text r ++ rest)
unfolding next_match
trigger-Matches cpu rest = refl
trigger-Matches memory rest = refl
trigger-Matches disk rest = refl

-- The resource of a trigger.
pub trigger_resource-Matches :
    (r : Resource) (f : FluctuationType) (rest : Text)
    → Matches trigger_env (resource_text r) (trigger_resource r) (fluctuation_text f ++ rest)
unfolding next_match
trigger_resource-Matches cpu under rest = refl
trigger_resource-Matches cpu over rest = refl
trigger_resource-Matches memory under rest = refl
trigger_resource-Matches memory over rest = refl
trigger_resource-Matches disk under rest = refl
trigger_resource-Matches disk over rest = refl

-- The fluctuation and the brace of a set of values.
pub fluctuation_open-Matches :
    (f : FluctuationType) (c : ℕ)
    → IsDigit c
    → (rest : Text)
    → Matches trigger_env
        (fluctuation_text f ++ codes "{")
        (fluctuation f resource_set_env)
        (c ∷ rest)
unfolding next_match
fluctuation_open-Matches under c digit rest =
    for_digits
      (λ c.
        Matches trigger_env (fluctuation_text under ++ codes "{")
          (fluctuation under resource_set_env) (c ∷ rest))
      refl refl refl refl refl refl refl refl refl refl c digit
fluctuation_open-Matches over c digit rest =
    for_digits
      (λ c.
        Matches trigger_env (fluctuation_text over ++ codes "{") (fluctuation over resource_set_env)
          (c ∷ rest))
      refl refl refl refl refl refl refl refl refl refl c digit

-- The fluctuation in front of a single value.
pub fluctuation-Matches :
    (f : FluctuationType) (c : ℕ)
    → IsDigit c
    → (rest : Text)
    → Matches trigger_env (fluctuation_text f) (fluctuation f resource_single_no_env) (c ∷ rest)
unfolding next_match
fluctuation-Matches under c digit rest =
    for_digits
      (λ c.
        Matches trigger_env (fluctuation_text under) (fluctuation under resource_single_no_env)
          (c ∷ rest))
      refl refl refl refl refl refl refl refl refl refl c digit
fluctuation-Matches over c digit rest =
    for_digits
      (λ c.
        Matches trigger_env (fluctuation_text over) (fluctuation over resource_single_no_env)
          (c ∷ rest))
      refl refl refl refl refl refl refl refl refl refl c digit

-- `last for` in front of a set of durations.
pub last_for_open-Matches :
    (c : ℕ)
    → IsDigit c
    → (rest : Text)
    → Matches trigger_env (codes "last for {") (enter trigger_duration_set_env) (c ∷ rest)
unfolding next_match
last_for_open-Matches c digit rest =
    for_digits
      (λ c. Matches trigger_env (codes "last for {") (enter trigger_duration_set_env) (c ∷ rest))
      refl refl refl refl refl refl refl refl refl refl c digit

-- `last for` in front of a single duration.
pub last_for-Matches :
    (c : ℕ)
    → IsDigit c
    → (rest : Text)
    → Matches trigger_env (codes "last for ") (enter trigger_duration_single_no_env) (c ∷ rest)
unfolding next_match
last_for-Matches c digit rest =
    for_digits
      (λ c.
        Matches trigger_env (codes "last for ") (enter trigger_duration_single_no_env) (c ∷ rest))
      refl refl refl refl refl refl refl refl refl refl c digit

-- The comma between values.
pub push_value-Matches :
    (c : ℕ)
    → IsDigit c
    → (rest : Text) → Matches resource_set_env (codes ", ") (push_value) (c ∷ rest)
unfolding next_match
push_value-Matches c digit rest =
    for_digits (λ c. Matches resource_set_env (codes ", ") (push_value) (c ∷ rest)) refl refl refl
      refl refl refl refl refl refl refl c digit

-- The comma between the durations of a trigger.
pub push_trigger_duration-Matches :
    (c : ℕ)
    → IsDigit c
    → (rest : Text)
    → Matches trigger_duration_set_env (codes ", ") (push_trigger_duration) (c ∷ rest)
unfolding next_match
push_trigger_duration-Matches c digit rest =
    for_digits
      (λ c. Matches trigger_duration_set_env (codes ", ") (push_trigger_duration) (c ∷ rest)) refl
      refl refl refl refl refl refl refl refl refl c digit

-- The unit of a value in front of a comma.
pub value_unit_comma-Matches :
    (u : ResourceUnit) (rest : Text)
    → Matches resource_set_env (unit_text u) (value_unit u) (codes ", " ++ rest)
unfolding next_match
value_unit_comma-Matches percent rest = refl
value_unit_comma-Matches mb rest = refl
value_unit_comma-Matches gb rest = refl

-- The unit of a value in front of a brace.
pub value_unit_brace-Matches :
    (u : ResourceUnit) (rest : Text)
    → Matches resource_set_env (unit_text u) (value_unit u) (codes "}" ++ rest)
unfolding next_match
value_unit_brace-Matches percent rest = refl
value_unit_brace-Matches mb rest = refl
value_unit_brace-Matches gb rest = refl

-- The unit of a single value.
pub value_unit_end-Matches :
    (u : ResourceUnit) (rest : Text)
    → Matches resource_single_no_env
        (unit_text u ++ codes " ")
        (value_unit_end u)
        (codes "last for " ++ rest)
unfolding next_match
value_unit_end-Matches percent rest = refl
value_unit_end-Matches mb rest = refl
value_unit_end-Matches gb rest = refl

-- The brace behind values.
pub push_value_end-Matches :
    (rest : Text) → Matches resource_set_env (codes "} ") push_value_end (codes "last for " ++ rest)
unfolding next_match
push_value_end-Matches rest = refl

-- The end of a trigger behind a set of durations.
pub end_trigger_open-Matches :
    {rest : Text} → LineStart rest → Matches trigger_duration_set_env (codes "}\n") end_trigger rest
unfolding next_match
end_trigger_open-Matches at_end = refl
end_trigger_open-Matches (at_trigger rest) = refl
end_trigger_open-Matches (at_log rest) = refl

-- The end of a trigger behind a single duration.
pub end_trigger-Matches :
    {rest : Text}
    → LineStart rest
    → Matches trigger_duration_single_no_env (codes "\n") end_trigger rest
unfolding next_match
end_trigger-Matches at_end = refl
end_trigger-Matches (at_trigger rest) = refl
end_trigger-Matches (at_log rest) = refl
