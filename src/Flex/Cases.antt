-- ===== src/Flex/Cases.antt =====
-- The cases of the switch on `yy_act`, src/library_src/flex.cpp, by the bodies that they have.
use zpr_res_monitor.Prelude.{ℕ, zero, suc, Option, none, List, [], ◌∷◌, get_elem?}
use zpr_res_monitor.Config.Types.{percent, mb, gb, cpu, memory, disk, under, over}
use zpr_res_monitor.Lexer.State.{
  log_env, trigger_env, resource_set_env, resource_single_no_env, trigger_duration_set_env,
  trigger_duration_single_no_env, log_duration_set_env, log_duration_single_no_env,
  log_resolution_set_env, log_resolution_single_no_env, sec_in_min, sec_in_hour, sec_in_day,
}
use zpr_res_monitor.Lexer.Rules.{
  Action, trigger_resource, log_resource, fluctuation, value_number, value_unit, value_unit_end,
  push_value, push_value_end, enter, duration_number, add_duration, push_trigger_duration,
  end_trigger, push_log_duration, push_log_duration_end, push_resolution, end_log, skip, echo,
}

-- Cases 1 to 70.
unfoldable pub cases : List Action
cases =
    trigger_resource cpu
    ∷ trigger_resource memory
    ∷ trigger_resource disk
    ∷ fluctuation under resource_set_env
    ∷ fluctuation under resource_single_no_env
    ∷ fluctuation over resource_set_env
    ∷ fluctuation over resource_single_no_env
    ∷ value_number
    ∷ value_unit percent
    ∷ value_unit mb
    ∷ value_unit gb
    ∷ push_value
    ∷ push_value_end
    ∷ value_number
    ∷ value_unit_end percent
    ∷ value_unit_end mb
    ∷ value_unit_end gb
    ∷ enter trigger_duration_set_env
    ∷ enter trigger_duration_single_no_env
    ∷ duration_number
    ∷ add_duration 1
    ∷ add_duration sec_in_min
    ∷ add_duration sec_in_hour
    ∷ add_duration sec_in_day
    ∷ push_trigger_duration
    ∷ end_trigger
    ∷ duration_number
    ∷ add_duration 1
    ∷ add_duration sec_in_min
    ∷ add_duration sec_in_hour
    ∷ add_duration sec_in_day
    ∷ end_trigger
    ∷ log_resource cpu
    ∷ log_resource memory
    ∷ log_resource disk
    ∷ enter log_duration_set_env
    ∷ enter log_duration_single_no_env
    ∷ duration_number
    ∷ add_duration 1
    ∷ add_duration sec_in_min
    ∷ add_duration sec_in_hour
    ∷ add_duration sec_in_day
    ∷ push_log_duration
    ∷ push_log_duration_end
    ∷ duration_number
    ∷ add_duration 1
    ∷ add_duration sec_in_min
    ∷ add_duration sec_in_hour
    ∷ add_duration sec_in_day
    ∷ push_log_duration_end
    ∷ enter log_resolution_set_env
    ∷ enter log_resolution_single_no_env
    ∷ duration_number
    ∷ add_duration 1
    ∷ add_duration sec_in_min
    ∷ add_duration sec_in_hour
    ∷ add_duration sec_in_day
    ∷ push_resolution
    ∷ end_log
    ∷ duration_number
    ∷ add_duration 1
    ∷ add_duration sec_in_min
    ∷ add_duration sec_in_hour
    ∷ add_duration sec_in_day
    ∷ end_log
    ∷ skip
    ∷ skip
    ∷ enter log_env
    ∷ enter trigger_env
    ∷ echo
    ∷ []

-- `none` is a number that is no rule's: 0, and the end of the buffer.
unfoldable pub case_of : ℕ → Option Action
unfolding cases
case_of zero = none
case_of (suc n) = get_elem? cases n
