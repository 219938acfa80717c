-- ===== src/Lexer/Rules.antt =====
-- The rules: their conditions, patterns and bodies, in the order of the file.
use zpr_res_monitor.Prelude.{ℕ, ◌+◌, ◌*◌, [], ◌∷◌, ◌++◌, Text}
use zpr_res_monitor.Config.Types.{ResourceUnit, Resource, FluctuationType}
use zpr_res_monitor.Lexer.State.{
  Condition, Lexer, Result, ok, ◌>>=◌, long, atol, yy_push_state, yy_pop_state,
  produce_triggers_crossproduct, produce_logs_crossproduct,
}

-- The bodies that rules have; rules with the same text share one.
pub data Action : Type 0 where
  trigger_resource log_resource : Resource → Action
  fluctuation : FluctuationType → Condition → Action
  value_number : Action
  value_unit value_unit_end : ResourceUnit → Action
  push_value push_value_end : Action
  enter : Condition → Action
  duration_number : Action
  add_duration : ℕ → Action
  push_trigger_duration end_trigger : Action
  push_log_duration push_log_duration_end : Action
  push_resolution end_log : Action
  skip echo : Action

-- Adds the element read last, times the seconds of its unit, and stores it.
unfoldable pub do_add_duration : ℕ → Lexer → Result Lexer
do_add_duration m s = do
  element ← long (s.last_read_duration_element * m)
  total ← long (s.current_duration_time + element)
  ok (record s { current_duration_time = total })

-- Stores the current duration in one of the vectors and clears it.
unfoldable pub do_push_trigger_duration : Lexer → Lexer
do_push_trigger_duration s = record s {
  trigger_duration_times = s.trigger_duration_times ++ (s.current_duration_time ∷ []);
  current_duration_time = 0;
}

unfoldable pub do_push_log_duration : Lexer → Lexer
do_push_log_duration s = record s {
  log_durations = s.log_durations ++ (s.current_duration_time ∷ []);
  current_duration_time = 0;
}

unfoldable pub do_push_resolution : Lexer → Lexer
do_push_resolution s = record s {
  log_resolutions = s.log_resolutions ++ (s.current_duration_time ∷ []);
  current_duration_time = 0;
}

unfoldable pub do_push_value : Lexer → Lexer
do_push_value s = record s {
  trigger_resource_values = s.trigger_resource_values ++ (s.current_resource_value ∷ []);
}

abbrev set_unit : ResourceUnit → Lexer → Lexer
set_unit u s = record s {
  current_resource_value = record s.current_resource_value { unit_type = u };
}

-- The switch on `yy_act`.
unfoldable pub do_action : Action → Text → Lexer → Result Lexer
unfolding do_add_duration do_push_trigger_duration do_push_log_duration do_push_resolution
    do_push_value atol yy_push_state yy_pop_state produce_triggers_crossproduct
    produce_logs_crossproduct
do_action (trigger_resource r) text s =
    ok (record s { current_trigger_type = record s.current_trigger_type { resource = r } })
do_action (log_resource r) text s =
    ok (record s { current_log_type = record s.current_log_type { resource = r } })
do_action (fluctuation f c) text s = ok (
    yy_push_state c
      (record s { current_trigger_type = record s.current_trigger_type { fluctuation_type = f } }))
do_action value_number text s = do
  n ← atol text
  ok (record s { current_resource_value = record s.current_resource_value { value = n } })
do_action (value_unit u) text s = ok (set_unit u s)
do_action (value_unit_end u) text s = yy_pop_state (do_push_value (set_unit u s))
do_action push_value text s = ok (do_push_value s)
do_action push_value_end text s = yy_pop_state (do_push_value s)
do_action (enter c) text s = ok (yy_push_state c s)
do_action duration_number text s = do
  n ← atol text
  ok (record s { last_read_duration_element = n })
do_action (add_duration m) text s = do_add_duration m s
do_action push_trigger_duration text s = ok (do_push_trigger_duration s)
do_action end_trigger text s = do
  s1 ← yy_pop_state (do_push_trigger_duration s)
  s2 ← yy_pop_state s1
  ok (produce_triggers_crossproduct s2)
do_action push_log_duration text s = ok (do_push_log_duration s)
do_action push_log_duration_end text s = yy_pop_state (do_push_log_duration s)
do_action push_resolution text s = ok (do_push_resolution s)
do_action end_log text s = do
  s1 ← yy_pop_state (do_push_resolution s)
  s2 ← yy_pop_state s1
  ok (produce_logs_crossproduct s2)
do_action skip text s = ok s
do_action echo text s = ok (record s { echoed = s.echoed ++ text })
