-- ===== src/Flex/Reached/Early.antt =====
-- How the states of the first half of the tables are reached.
use zpr_res_monitor.Prelude.{Text, List, [], ◌∷◌, codes}
use zpr_res_monitor.Lexer.State.{
  Condition, initial, log_duration_set_env, log_duration_single_no_env, log_env,
  log_resolution_set_env, log_resolution_single_no_env, resource_set_env, resource_single_no_env,
  trigger_duration_set_env, trigger_duration_single_no_env, trigger_env,
}

-- Of each state from 0 on, a start condition and a text that lead there.
unfoldable pub early_states : List (Condition × Text)
early_states =
    (initial, codes "??")
    ∷ (initial, codes "")
    ∷ (initial, codes "")
    ∷ (log_env, codes "")
    ∷ (log_env, codes "")
    ∷ (trigger_env, codes "")
    ∷ (trigger_env, codes "")
    ∷ (resource_set_env, codes "")
    ∷ (resource_set_env, codes "")
    ∷ (resource_single_no_env, codes "")
    ∷ (resource_single_no_env, codes "")
    ∷ (trigger_duration_set_env, codes "")
    ∷ (trigger_duration_set_env, codes "")
    ∷ (trigger_duration_single_no_env, codes "")
    ∷ (trigger_duration_single_no_env, codes "")
    ∷ (log_duration_set_env, codes "")
    ∷ (log_duration_set_env, codes "")
    ∷ (log_duration_single_no_env, codes "")
    ∷ (log_duration_single_no_env, codes "")
    ∷ (log_resolution_set_env, codes "")
    ∷ (log_resolution_set_env, codes "")
    ∷ (log_resolution_single_no_env, codes "")
    ∷ (log_resolution_single_no_env, codes "")
    ∷ (initial, codes "??")
    ∷ (initial, codes "?")
    ∷ (initial, codes "\t")
    ∷ (initial, codes "\n")
    ∷ (initial, codes "L")
    ∷ (initial, codes "T")
    ∷ (log_env, codes "\t")
    ∷ (log_env, codes "\n")
    ∷ (log_env, codes ",")
    ∷ (log_env, codes "0")
    ∷ (log_env, codes "C")
    ∷ (log_env, codes "D")
    ∷ (log_env, codes "F")
    ∷ (log_env, codes "M")
    ∷ (log_env, codes "R")
    ∷ (log_env, codes "d")
    ∷ (log_env, codes "h")
    ∷ (log_env, codes "m")
    ∷ (log_env, codes "s")
    ∷ (log_env, codes "}")
    ∷ (trigger_env, codes "\t")
    ∷ (trigger_env, codes "\n")
    ∷ (trigger_env, codes "%")
    ∷ (trigger_env, codes ",")
    ∷ (trigger_env, codes "0")
    ∷ (trigger_env, codes "C")
    ∷ (trigger_env, codes "D")
    ∷ (trigger_env, codes "G")
    ∷ (trigger_env, codes "L")
    ∷ (trigger_env, codes "M")
    ∷ (trigger_env, codes "O")
    ∷ (trigger_env, codes "U")
    ∷ (trigger_env, codes "d")
    ∷ (trigger_env, codes "h")
    ∷ (trigger_env, codes "m")
    ∷ (trigger_env, codes "s")
    ∷ (trigger_env, codes "}")
    ∷ (resource_set_env, codes "\t")
    ∷ (resource_set_env, codes "%")
    ∷ (resource_set_env, codes ",")
    ∷ (resource_set_env, codes "0")
    ∷ (resource_set_env, codes "G")
    ∷ (resource_set_env, codes "M")
    ∷ (resource_set_env, codes "}")
    ∷ (resource_single_no_env, codes "\t")
    ∷ (resource_single_no_env, codes "%")
    ∷ (resource_single_no_env, codes "0")
    ∷ (resource_single_no_env, codes "G")
    ∷ (resource_single_no_env, codes "M")
    ∷ (trigger_duration_set_env, codes "\t")
    ∷ (trigger_duration_set_env, codes ",")
    ∷ (trigger_duration_set_env, codes "0")
    ∷ (trigger_duration_set_env, codes "d")
    ∷ (trigger_duration_set_env, codes "h")
    ∷ (trigger_duration_set_env, codes "m")
    ∷ (trigger_duration_set_env, codes "s")
    ∷ (trigger_duration_set_env, codes "}")
    ∷ (trigger_duration_single_no_env, codes "\t")
    ∷ (trigger_duration_single_no_env, codes "0")
    ∷ (trigger_duration_single_no_env, codes "d")
    ∷ (trigger_duration_single_no_env, codes "h")
    ∷ (trigger_duration_single_no_env, codes "m")
    ∷ (trigger_duration_single_no_env, codes "s")
    ∷ (log_duration_set_env, codes "\t")
    ∷ (log_duration_set_env, codes ",")
    ∷ (log_duration_set_env, codes "0")
    ∷ (log_duration_set_env, codes "d")
    ∷ (log_duration_set_env, codes "h")
    ∷ (log_duration_set_env, codes "m")
    ∷ (log_duration_set_env, codes "s")
    ∷ (log_duration_set_env, codes "}")
    ∷ (log_duration_single_no_env, codes "\t")
    ∷ (log_duration_single_no_env, codes "0")
    ∷ (log_duration_single_no_env, codes "d")
    ∷ (log_duration_single_no_env, codes "h")
    ∷ (log_duration_single_no_env, codes "m")
    ∷ (log_duration_single_no_env, codes "s")
    ∷ (log_resolution_set_env, codes "\t")
    ∷ (log_resolution_set_env, codes ",")
    ∷ (log_resolution_set_env, codes "0")
    ∷ (log_resolution_set_env, codes "d")
    ∷ (log_resolution_set_env, codes "h")
    ∷ (log_resolution_set_env, codes "m")
    ∷ (log_resolution_set_env, codes "s")
    ∷ (log_resolution_set_env, codes "}")
    ∷ (log_resolution_single_no_env, codes "\t")
    ∷ (log_resolution_single_no_env, codes "0")
    ∷ (log_resolution_single_no_env, codes "d")
    ∷ (log_resolution_single_no_env, codes "h")
    ∷ (log_resolution_single_no_env, codes "m")
    ∷ (log_resolution_single_no_env, codes "s")
    ∷ (initial, codes "\t\t")
    ∷ (initial, codes "\n\n")
    ∷ (initial, codes "LO")
    ∷ (initial, codes "TR")
    ∷ (log_env, codes "\t\t")
    ∷ (log_env, codes "\t,")
    ∷ (log_env, codes "\td")
    ∷ (log_env, codes "\th")
    ∷ (log_env, codes "\tm")
    ∷ (log_env, codes "\ts")
    ∷ (log_env, codes "\t}")
    ∷ (log_env, codes "\n\n")
    ∷ (log_env, codes ",\t")
    ∷ (log_env, codes "00")
    ∷ (log_env, codes "CP")
    ∷ (log_env, codes "DI")
    ∷ (log_env, codes "FO")
    ∷ (log_env, codes "ME")
    ∷ (log_env, codes "RE")
    ∷ (log_env, codes "}\t")
    ∷ (log_env, codes "}\n")
    ∷ (trigger_env, codes "\t\t")
    ∷ (trigger_env, codes "\t%")
    ∷ (trigger_env, codes "\t,")
    ∷ (trigger_env, codes "\tG")
    ∷ (trigger_env, codes "\tL")
    ∷ (trigger_env, codes "\tM")
    ∷ (trigger_env, codes "\td")
    ∷ (trigger_env, codes "\th")
    ∷ (trigger_env, codes "\tm")
    ∷ (trigger_env, codes "\ts")
    ∷ (trigger_env, codes "\t}")
    ∷ (trigger_env, codes "\n\n")
    ∷ (trigger_env, codes "%\t")
    ∷ (trigger_env, codes ",\t")
    ∷ (trigger_env, codes "00")
    ∷ (trigger_env, codes "CP")
    ∷ (trigger_env, codes "DI")
    ∷ (trigger_env, codes "GB")
    ∷ (trigger_env, codes "LA")
    ∷ (trigger_env, codes "MB")
    ∷ (trigger_env, codes "ME")
    ∷ (trigger_env, codes "OV")
    ∷ (trigger_env, codes "UN")
    ∷ []
