-- ===== src/Lexer/Table.antt =====
-- The rules of each start condition, in the order of the file. A rule inside nested conditions holds in
-- the inner and in the outer one; the rules at the end hold everywhere, since all conditions are
-- inclusive.
use zpr_res_monitor.Prelude.{List, [], ◌∷◌, ◌++◌, Text, codes}
use zpr_res_monitor.Config.Types.{percent, mb, gb, cpu, memory, disk, under, over}
use zpr_res_monitor.Lexer.Pattern.{
  Part, spaces, some_spaces, number, newlines, some_newlines, any_case, literal,
}
use zpr_res_monitor.Lexer.State.{
  Condition, initial, log_env, trigger_env, resource_set_env, resource_single_no_env,
  trigger_duration_set_env, trigger_duration_single_no_env, log_duration_set_env,
  log_duration_single_no_env, log_resolution_set_env, log_resolution_single_no_env, sec_in_min,
  sec_in_hour, sec_in_day,
}
use zpr_res_monitor.Lexer.Rules.{
  Action, trigger_resource, log_resource, fluctuation, value_number, value_unit, value_unit_end,
  push_value, push_value_end, enter, duration_number, add_duration, push_trigger_duration,
  end_trigger, push_log_duration, push_log_duration_end, push_resolution, end_log, skip,
}

pub record Rule : Type 0 where
  pub pattern : List (List Part)
  pub action : Action

abbrev rule : List (List Part) → Action → Rule
rule p a = record { pattern = p; action = a }

abbrev one : List Part → List (List Part)
one p = p ∷ []

-- `{name}{ws}+` and `{name}{ws}+"{"{ws}*`.
abbrev name : Text → List Part
name w = any_case w ∷ some_spaces ∷ []

abbrev name_open : Text → List Part
name_open w = any_case w ∷ some_spaces ∷ literal (codes "{") ∷ spaces ∷ []

-- `{ws}*"x"`, and the same with `{ws}*` behind.
abbrev mark : Text → List Part
mark w = spaces ∷ literal w ∷ []

abbrev mark_spaces : Text → List Part
mark_spaces w = spaces ∷ literal w ∷ spaces ∷ []

-- `{ws}*{MB}` and `{ws}*{GB}`, with the given parts behind.
abbrev mb_unit : List Part → List (List Part)
mb_unit ps =
    (spaces ∷ any_case (codes "mb") ∷ ps)
    ∷ (spaces ∷ any_case (codes "mb/s") ∷ ps)
    ∷ (spaces ∷ any_case (codes "mbps") ∷ ps)
    ∷ []

abbrev gb_unit : List Part → List (List Part)
gb_unit ps =
    (spaces ∷ any_case (codes "gb") ∷ ps)
    ∷ (spaces ∷ any_case (codes "gb/s") ∷ ps)
    ∷ (spaces ∷ any_case (codes "gbps") ∷ ps)
    ∷ []

-- `{ws}*{last}{ws}+`, with the given parts behind.
abbrev last_for : List Part → List (List Part)
last_for ps =
    (spaces ∷ any_case (codes "last for") ∷ some_spaces ∷ ps)
    ∷ (spaces ∷ any_case (codes "last") ∷ some_spaces ∷ ps)
    ∷ []

-- `{ws}*|\n*` and `{ws}*"}"{ws}*\n*`.
abbrev end_of_line : List (List Part)
end_of_line = (spaces ∷ []) ∷ (newlines ∷ []) ∷ []

abbrev close_line : List (List Part)
close_line = one (spaces ∷ literal (codes "}") ∷ spaces ∷ newlines ∷ [])

-- The first five rules of every block of durations.
unfoldable pub duration_rules : List Rule
duration_rules =
    rule (one (number ∷ [])) duration_number
    ∷ rule (one (mark (codes "s"))) (add_duration 1)
    ∷ rule (one (mark (codes "m"))) (add_duration sec_in_min)
    ∷ rule (one (mark (codes "h"))) (add_duration sec_in_hour)
    ∷ rule (one (mark (codes "d"))) (add_duration sec_in_day)
    ∷ []

-- Rules 1 to 7.
unfoldable pub trigger_rules : List Rule
trigger_rules =
    rule (one (name (codes "cpu"))) (trigger_resource cpu)
    ∷ rule (one (name (codes "memory"))) (trigger_resource memory)
    ∷ rule (one (name (codes "disk"))) (trigger_resource disk)
    ∷ rule (one (name_open (codes "under"))) (fluctuation under resource_set_env)
    ∷ rule (one (name (codes "under"))) (fluctuation under resource_single_no_env)
    ∷ rule (one (name_open (codes "over"))) (fluctuation over resource_set_env)
    ∷ rule (one (name (codes "over"))) (fluctuation over resource_single_no_env)
    ∷ []

-- Rules 8 to 13.
unfoldable pub resource_set_rules : List Rule
resource_set_rules =
    rule (one (number ∷ [])) value_number
    ∷ rule (one (mark (codes "%"))) (value_unit percent)
    ∷ rule (mb_unit []) (value_unit mb)
    ∷ rule (gb_unit []) (value_unit gb)
    ∷ rule (one (mark_spaces (codes ","))) push_value
    ∷ rule (one (mark_spaces (codes "}"))) push_value_end
    ∷ []

-- Rules 14 to 17.
unfoldable pub resource_single_rules : List Rule
resource_single_rules =
    rule (one (number ∷ [])) value_number
    ∷ rule (one (spaces ∷ literal (codes "%") ∷ some_spaces ∷ [])) (value_unit_end percent)
    ∷ rule (mb_unit (some_spaces ∷ [])) (value_unit_end mb)
    ∷ rule (gb_unit (some_spaces ∷ [])) (value_unit_end gb)
    ∷ []

-- Rules 18 and 19.
unfoldable pub trigger_last_rules : List Rule
trigger_last_rules =
    rule (last_for (literal (codes "{") ∷ spaces ∷ [])) (enter trigger_duration_set_env)
    ∷ rule (last_for []) (enter trigger_duration_single_no_env)
    ∷ []

-- Rules 20 to 26, and 27 to 32.
unfoldable pub trigger_duration_set_rules : List Rule
unfolding duration_rules
trigger_duration_set_rules =
    duration_rules
    ++ (rule (one (mark_spaces (codes ","))) push_trigger_duration
        ∷ rule close_line end_trigger
        ∷ [])

unfoldable pub trigger_duration_single_rules : List Rule
unfolding duration_rules
trigger_duration_single_rules = duration_rules ++ (rule end_of_line end_trigger ∷ [])

-- Rules 33 to 37.
unfoldable pub log_rules : List Rule
log_rules =
    rule (one (name (codes "cpu"))) (log_resource cpu)
    ∷ rule (one (name (codes "memory"))) (log_resource memory)
    ∷ rule (one (name (codes "disk"))) (log_resource disk)
    ∷ rule (one (name_open (codes "for"))) (enter log_duration_set_env)
    ∷ rule (one (name (codes "for"))) (enter log_duration_single_no_env)
    ∷ []

-- Rules 38 to 44, and 45 to 50.
unfoldable pub log_duration_set_rules : List Rule
unfolding duration_rules
log_duration_set_rules =
    duration_rules
    ++ (rule (one (mark_spaces (codes ","))) push_log_duration
        ∷ rule (one (spaces ∷ literal (codes "}") ∷ some_spaces ∷ [])) push_log_duration_end
        ∷ [])

unfoldable pub log_duration_single_rules : List Rule
unfolding duration_rules
log_duration_single_rules =
    duration_rules ++ (rule (one (some_spaces ∷ [])) push_log_duration_end ∷ [])

-- Rules 51 and 52.
unfoldable pub log_resolution_rules : List Rule
log_resolution_rules =
    rule (one (name_open (codes "resolution"))) (enter log_resolution_set_env)
    ∷ rule (one (name (codes "resolution"))) (enter log_resolution_single_no_env)
    ∷ []

-- Rules 53 to 59, and 60 to 65.
unfoldable pub log_resolution_set_rules : List Rule
unfolding duration_rules
log_resolution_set_rules =
    duration_rules
    ++ (rule (one (mark_spaces (codes ","))) push_resolution ∷ rule close_line end_log ∷ [])

unfoldable pub log_resolution_single_rules : List Rule
unfolding duration_rules
log_resolution_single_rules = duration_rules ++ (rule end_of_line end_log ∷ [])

-- Rules 66 to 69.
unfoldable pub common_rules : List Rule
common_rules =
    rule (one (some_spaces ∷ [])) skip
    ∷ rule (one (some_newlines ∷ [])) skip
    ∷ rule (one (name (codes "log"))) (enter log_env)
    ∷ rule (one (name (codes "trigger"))) (enter trigger_env)
    ∷ []

unfoldable pub rules_of : Condition → List Rule
unfolding trigger_rules resource_set_rules resource_single_rules trigger_last_rules
    trigger_duration_set_rules trigger_duration_single_rules log_rules log_duration_set_rules
    log_duration_single_rules log_resolution_rules log_resolution_set_rules
    log_resolution_single_rules common_rules
rules_of initial = common_rules
rules_of trigger_env =
    trigger_rules
    ++ (resource_set_rules
        ++ (resource_single_rules
            ++ (trigger_last_rules
                ++ (trigger_duration_set_rules
                    ++ (trigger_duration_single_rules ++ common_rules)))))
rules_of resource_set_env = resource_set_rules ++ common_rules
rules_of resource_single_no_env = resource_single_rules ++ common_rules
rules_of trigger_duration_set_env = trigger_duration_set_rules ++ common_rules
rules_of trigger_duration_single_no_env = trigger_duration_single_rules ++ common_rules
rules_of log_env =
    log_rules
    ++ (log_duration_set_rules
        ++ (log_duration_single_rules
            ++ (log_resolution_rules
                ++ (log_resolution_set_rules ++ (log_resolution_single_rules ++ common_rules)))))
rules_of log_duration_set_env = log_duration_set_rules ++ common_rules
rules_of log_duration_single_no_env = log_duration_single_rules ++ common_rules
rules_of log_resolution_set_env = log_resolution_set_rules ++ common_rules
rules_of log_resolution_single_no_env = log_resolution_single_rules ++ common_rules
