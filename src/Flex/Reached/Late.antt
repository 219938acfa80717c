-- ===== src/Flex/Reached/Late.antt =====
-- How the states of the second half of the tables are reached.
use zpr_res_monitor.Prelude.{Text, List, [], ◌∷◌, codes}
use zpr_res_monitor.Lexer.State.{
  Condition, initial, log_duration_set_env, log_duration_single_no_env, log_env,
  log_resolution_set_env, log_resolution_single_no_env, resource_set_env, resource_single_no_env,
  trigger_duration_set_env, trigger_duration_single_no_env, trigger_env,
}

-- Of each state from 158 on, a start condition and a text that lead there.
unfoldable pub late_states : List (Condition × Text)
late_states =
    (trigger_env, codes "}\t")
    ∷ (trigger_env, codes "}\n")
    ∷ (resource_set_env, codes "\t\t")
    ∷ (resource_set_env, codes "\t%")
    ∷ (resource_set_env, codes "\t,")
    ∷ (resource_set_env, codes "\tG")
    ∷ (resource_set_env, codes "\tM")
    ∷ (resource_set_env, codes "\t}")
    ∷ (resource_set_env, codes ",\t")
    ∷ (resource_set_env, codes "00")
    ∷ (resource_set_env, codes "GB")
    ∷ (resource_set_env, codes "MB")
    ∷ (resource_set_env, codes "}\t")
    ∷ (resource_single_no_env, codes "\t\t")
    ∷ (resource_single_no_env, codes "\t%")
    ∷ (resource_single_no_env, codes "\tG")
    ∷ (resource_single_no_env, codes "\tM")
    ∷ (resource_single_no_env, codes "00")
    ∷ (resource_single_no_env, codes "GB")
    ∷ (resource_single_no_env, codes "MB")
    ∷ (trigger_duration_set_env, codes "\t\t")
    ∷ (trigger_duration_set_env, codes "\t,")
    ∷ (trigger_duration_set_env, codes "\td")
    ∷ (trigger_duration_set_env, codes "\th")
    ∷ (trigger_duration_set_env, codes "\tm")
    ∷ (trigger_duration_set_env, codes "\ts")
    ∷ (trigger_duration_set_env, codes "\t}")
    ∷ (trigger_duration_set_env, codes ",\t")
    ∷ (trigger_duration_set_env, codes "00")
    ∷ (trigger_duration_set_env, codes "}\t")
    ∷ (trigger_duration_single_no_env, codes "\t\t")
    ∷ (trigger_duration_single_no_env, codes "\td")
    ∷ (trigger_duration_single_no_env, codes "\th")
    ∷ (trigger_duration_single_no_env, codes "\tm")
    ∷ (trigger_duration_single_no_env, codes "\ts")
    ∷ (trigger_duration_single_no_env, codes "00")
    ∷ (log_duration_set_env, codes "\t\t")
    ∷ (log_duration_set_env, codes "\t,")
    ∷ (log_duration_set_env, codes "\td")
    ∷ (log_duration_set_env, codes "\th")
    ∷ (log_duration_set_env, codes "\tm")
    ∷ (log_duration_set_env, codes "\ts")
    ∷ (log_duration_set_env, codes "\t}")
    ∷ (log_duration_set_env, codes ",\t")
    ∷ (log_duration_set_env, codes "00")
    ∷ (log_duration_set_env, codes "}\t")
    ∷ (log_duration_single_no_env, codes "\t\t")
    ∷ (log_duration_single_no_env, codes "\td")
    ∷ (log_duration_single_no_env, codes "\th")
    ∷ (log_duration_single_no_env, codes "\tm")
    ∷ (log_duration_single_no_env, codes "\ts")
    ∷ (log_duration_single_no_env, codes "00")
    ∷ (log_resolution_set_env, codes "\t\t")
    ∷ (log_resolution_set_env, codes "\t,")
    ∷ (log_resolution_set_env, codes "\td")
    ∷ (log_resolution_set_env, codes "\th")
    ∷ (log_resolution_set_env, codes "\tm")
    ∷ (log_resolution_set_env, codes "\ts")
    ∷ (log_resolution_set_env, codes "\t}")
    ∷ (log_resolution_set_env, codes ",\t")
    ∷ (log_resolution_set_env, codes "00")
    ∷ (log_resolution_set_env, codes "}\t")
    ∷ (log_resolution_single_no_env, codes "\t\t")
    ∷ (log_resolution_single_no_env, codes "\td")
    ∷ (log_resolution_single_no_env, codes "\th")
    ∷ (log_resolution_single_no_env, codes "\tm")
    ∷ (log_resolution_single_no_env, codes "\ts")
    ∷ (log_resolution_single_no_env, codes "00")
    ∷ (initial, codes "LOG")
    ∷ (initial, codes "TRI")
    ∷ (log_env, codes "CPU")
    ∷ (log_env, codes "DIS")
    ∷ (log_env, codes "FOR")
    ∷ (log_env, codes "MEM")
    ∷ (log_env, codes "RES")
    ∷ (trigger_env, codes "CPU")
    ∷ (trigger_env, codes "DIS")
    ∷ (trigger_env, codes "GB\t")
    ∷ (trigger_env, codes "GB/")
    ∷ (trigger_env, codes "GBP")
    ∷ (trigger_env, codes "LAS")
    ∷ (trigger_env, codes "MB\t")
    ∷ (trigger_env, codes "MB/")
    ∷ (trigger_env, codes "MBP")
    ∷ (trigger_env, codes "MEM")
    ∷ (trigger_env, codes "OVE")
    ∷ (trigger_env, codes "UND")
    ∷ (resource_set_env, codes "GB/")
    ∷ (resource_set_env, codes "GBP")
    ∷ (resource_set_env, codes "MB/")
    ∷ (resource_set_env, codes "MBP")
    ∷ (resource_single_no_env, codes "GB/")
    ∷ (resource_single_no_env, codes "GBP")
    ∷ (resource_single_no_env, codes "MB/")
    ∷ (resource_single_no_env, codes "MBP")
    ∷ (initial, codes "LOG\t")
    ∷ (initial, codes "TRIG")
    ∷ (log_env, codes "CPU\t")
    ∷ (log_env, codes "DISK")
    ∷ (log_env, codes "FOR\t")
    ∷ (log_env, codes "MEMO")
    ∷ (log_env, codes "RESO")
    ∷ (trigger_env, codes "CPU\t")
    ∷ (trigger_env, codes "DISK")
    ∷ (trigger_env, codes "GB/S")
    ∷ (trigger_env, codes "GBPS")
    ∷ (trigger_env, codes "LAST")
    ∷ (trigger_env, codes "MB/S")
    ∷ (trigger_env, codes "MBPS")
    ∷ (trigger_env, codes "MEMO")
    ∷ (trigger_env, codes "OVER")
    ∷ (trigger_env, codes "UNDE")
    ∷ (resource_set_env, codes "GB/S")
    ∷ (resource_set_env, codes "GBPS")
    ∷ (resource_set_env, codes "MB/S")
    ∷ (resource_set_env, codes "MBPS")
    ∷ (resource_single_no_env, codes "GB/S")
    ∷ (resource_single_no_env, codes "GBPS")
    ∷ (resource_single_no_env, codes "MB/S")
    ∷ (resource_single_no_env, codes "MBPS")
    ∷ (initial, codes "TRIGG")
    ∷ (log_env, codes "DISK\t")
    ∷ (log_env, codes "FOR\t{")
    ∷ (log_env, codes "MEMOR")
    ∷ (log_env, codes "RESOL")
    ∷ (trigger_env, codes "DISK\t")
    ∷ (trigger_env, codes "LAST\t")
    ∷ (trigger_env, codes "LAST ")
    ∷ (trigger_env, codes "MEMOR")
    ∷ (trigger_env, codes "OVER\t")
    ∷ (trigger_env, codes "UNDER")
    ∷ (initial, codes "TRIGGE")
    ∷ (log_env, codes "FOR\t{\t")
    ∷ (log_env, codes "MEMORY")
    ∷ (log_env, codes "RESOLU")
    ∷ (trigger_env, codes "LAST\t{")
    ∷ (trigger_env, codes "LAST F")
    ∷ (trigger_env, codes "MEMORY")
    ∷ (trigger_env, codes "OVER\t{")
    ∷ (trigger_env, codes "UNDER\t")
    ∷ (initial, codes "TRIGGER")
    ∷ (log_env, codes "MEMORY\t")
    ∷ (log_env, codes "RESOLUT")
    ∷ (trigger_env, codes "LAST\t{\t")
    ∷ (trigger_env, codes "LAST FO")
    ∷ (trigger_env, codes "MEMORY\t")
    ∷ (trigger_env, codes "OVER\t{\t")
    ∷ (trigger_env, codes "UNDER\t{")
    ∷ (initial, codes "TRIGGER\t")
    ∷ (log_env, codes "RESOLUTI")
    ∷ (trigger_env, codes "LAST FOR")
    ∷ (trigger_env, codes "UNDER\t{\t")
    ∷ (log_env, codes "RESOLUTIO")
    ∷ (log_env, codes "RESOLUTION")
    ∷ (log_env, codes "RESOLUTION\t")
    ∷ (log_env, codes "RESOLUTION\t{")
    ∷ (log_env, codes "RESOLUTION\t{\t")
    ∷ (initial, codes "??")
    ∷ []
