-- ===== src/Tests/Sampling.antt =====
-- The theorems on the sampling manager at concrete inputs.
use zpr_res_monitor.Prelude.{
  ℕ, ◌+◌, ◌%◌, ◌≡◌, ◌≤◌, refl, arith, Bool, true, false, none, some, List, [], ◌∷◌, ◌++◌, All,
  lookup, replicate,
}
use zpr_res_monitor.Config.Types.{cpu, memory, trigger_eq, log_eq}
use zpr_res_monitor.State.Cpu.{CpuState, cpu_state}
use zpr_res_monitor.State.Ram.{ram_state, ram_exceeds, set_mb_used}
use zpr_res_monitor.State.Verdicts.{ram_exceeds-set_mb_used}
use zpr_res_monitor.Sampling.Buffer.{list_buffer, list_buffer-IsCircular, last_n}
use zpr_res_monitor.Sampling.Triggers.{
  Call, activate, deactivate, TriggerStates, process_triggers, step_counter, initialize_triggers,
}
use zpr_res_monitor.Sampling.Triggers.Streak.{
  run_counter, streak, alarms, run_counter-eq-alarms, step_counter-zero_duration,
}
use zpr_res_monitor.Sampling.Triggers.Table.{
  all_measurable, calls_of, is_some, IsActivation, process_triggers-total,
}
use zpr_res_monitor.Sampling.Triggers.History.{
  run_polls, history, run_polls-alarms, never_deactivates,
}
use zpr_res_monitor.Sampling.Mean.{get_cpu_samples_mean, get_cpu_samples_mean-lt}
use zpr_res_monitor.Sampling.Logs.{initialize_logs, get_log, log_size, max_resolution}
use zpr_res_monitor.Sampling.Logs.Stored.{run_log, every, run_log_lem}
use zpr_res_monitor.Sampling.Logs.Shared.{get_log-last, max_resolution-le}
use zpr_res_monitor.Sampling.Manager.{Manager, new_manager, poll, polling_function}
use zpr_res_monitor.Sampling.Manager.Safety.{IsSafe, sample_of, poll-IsSafe}
use zpr_res_monitor.Sampling.Manager.Polling.{rounds, new_manager-IsSafe, polling_function-IsSafe}
use zpr_res_monitor.Sampling.Thread.{
  Control, went, stop_sampling, self_stop, run_events, start, destroy, polling,
  self_stop_terminates,
}
use zpr_res_monitor.Tests.Numbers.{whole, whole-IsExact}
use zpr_res_monitor.Tests.Data.{
  busy_cpu, little_ram, busy_disk, at_once, all_triggers, cpu_each_2, cpu_each_2_longer, ram_each_5,
  all_logs, hot, cool, hot_reading, cool_reading,
}

table-measurable : all_measurable (initialize_triggers all_triggers) ≡ true
unfolding initialize_triggers
table-measurable = refl

run_polls-alarms_example :
    (r : TriggerStates × List Call) × (bs : List Bool) × (run_polls
        (hot ∷ hot ∷ hot ∷ cool ∷ hot ∷ hot ∷ [])
        (initialize_triggers all_triggers)
      ≡ some r)
    × (history (hot ∷ hot ∷ hot ∷ cool ∷ hot ∷ hot ∷ []) busy_cpu ≡ some bs)
    × (lookup trigger_eq busy_cpu r.0 ≡ some (streak 0 bs % busy_cpu.duration))
    × (calls_of busy_cpu r.1 ≡ alarms busy_cpu 0 bs)
unfolding trigger_eq
run_polls-alarms_example =
    run_polls-alarms all_triggers busy_cpu (hot ∷ hot ∷ hot ∷ cool ∷ hot ∷ hot ∷ [])
      table-measurable refl (omega arith)

never_deactivates_example :
    (r : TriggerStates × List Call) × (run_polls
        (hot ∷ hot ∷ cool ∷ [])
        (initialize_triggers all_triggers)
      ≡ some r)
    × All IsActivation r.1
never_deactivates_example =
    never_deactivates all_triggers (hot ∷ hot ∷ cool ∷ [])
      (omega arith, (omega arith, (omega arith, tt))) table-measurable

run_counter-eq-alarms_example :
    run_counter busy_cpu (3 % busy_cpu.duration) (true ∷ true ∷ false ∷ []) ≡ (
      streak 3 (true ∷ true ∷ false ∷ []) % busy_cpu.duration,
      alarms busy_cpu 3 (true ∷ true ∷ false ∷ []),
    )
run_counter-eq-alarms_example =
    run_counter-eq-alarms busy_cpu 3 (true ∷ true ∷ false ∷ []) (omega arith)

step_counter-zero_duration_example :
    (step_counter false at_once 4 ≡ (0, deactivate at_once ∷ activate at_once ∷ []))
    × (step_counter true at_once 4 ≡ (5, []))
step_counter-zero_duration_example = step_counter-zero_duration at_once 4 refl

process_triggers-total_example :
    is_some (process_triggers hot ((busy_cpu, 1) ∷ (busy_disk, 2) ∷ []))
    ≡ all_measurable ((busy_cpu, 1) ∷ (busy_disk, 2) ∷ [])
process_triggers-total_example = process_triggers-total hot ((busy_cpu, 1) ∷ (busy_disk, 2) ∷ [])

ran_hot :
    process_triggers hot ((busy_cpu, 1) ∷ (busy_disk, 2) ∷ [])
    ≡ some ((busy_cpu, 0) ∷ (busy_disk, 0) ∷ [], activate busy_cpu ∷ activate busy_disk ∷ [])
unfolding process_triggers
ran_hot = refl

found : lookup {V = ℕ} trigger_eq busy_disk ((busy_cpu, 1) ∷ (busy_disk, 2) ∷ []) ≡ some 2
unfolding trigger_eq
found = refl

other_key : lookup {V = ℕ} trigger_eq busy_cpu ((busy_disk, 2) ∷ []) ≡ none
unfolding trigger_eq
other_key = refl

get_cpu_samples_mean-lt_example :
    (s : CpuState ℕ) × (get_cpu_samples_mean 3 (replicate 4 (cpu_state 60 1)) ≡ some s)
    × (whole.lt s.cpu_in_use_percentage 60 ≡ true)
get_cpu_samples_mean-lt_example =
    get_cpu_samples_mean-lt whole-IsExact 60 3 2 1 (omega arith) (omega arith) (omega arith)

run_log_lem_example :
    (y : list_buffer.Buffer ℕ) × (n : ℕ) × (run_log list_buffer ℕ cpu_each_2
        (1 ∷ 2 ∷ 3 ∷ 4 ∷ 5 ∷ [])
        (list_buffer.create ℕ 1, 0)
      ≡ some (y, n))
    × (list_buffer.elements ℕ y ≡ last_n 1 (every cpu_each_2.resolution 0 (1 ∷ 2 ∷ 3 ∷ 4 ∷ 5 ∷ [])))
run_log_lem_example =
    run_log_lem list_buffer list_buffer-IsCircular ℕ cpu_each_2 (1 ∷ 2 ∷ 3 ∷ 4 ∷ 5 ∷ []) 1

same : log_eq cpu_each_2_longer cpu_each_2 ≡ true
unfolding log_eq
same = refl

other : log_eq ram_each_5 cpu_each_2 ≡ false
unfolding log_eq
other = refl

get_log-last_example :
    get_log list_buffer ℕ cpu_each_2
      (initialize_logs list_buffer ℕ cpu (all_logs ++ (cpu_each_2_longer ∷ ram_each_5 ∷ [])))
    ≡ some (list_buffer.create ℕ (log_size cpu_each_2_longer))
get_log-last_example =
    get_log-last list_buffer ℕ cpu all_logs (ram_each_5 ∷ []) cpu_each_2_longer cpu_each_2 refl same
      (other, tt)

max_resolution-le_example :
    (ram_each_5.resolution ≤ max_resolution memory all_logs) × (1 ≤ max_resolution memory all_logs)
max_resolution-le_example = max_resolution-le memory (cpu_each_2 ∷ []) [] ram_each_5 refl

abbrev made : Manager list_buffer ℕ
made = new_manager list_buffer ℕ all_logs all_triggers

made-IsSafe : IsSafe list_buffer made
made-IsSafe =
    new_manager-IsSafe list_buffer list_buffer-IsCircular all_logs all_triggers table-measurable

poll-IsSafe_example :
    (m' : Manager list_buffer ℕ) × (calls : List Call) × (poll list_buffer hot_reading made
      ≡ some (m', calls))
    × (process_triggers (sample_of list_buffer hot_reading) made.trigger_states
        ≡ some (m'.trigger_states, calls))
    × IsSafe list_buffer m'
poll-IsSafe_example = poll-IsSafe list_buffer list_buffer-IsCircular hot_reading made made-IsSafe

polling_function-IsSafe_example :
    (m' : Manager list_buffer ℕ) × (k : ℕ) × (calls : List Call) × (polling_function list_buffer
        ((hot_reading, true) ∷ (cool_reading, false) ∷ [])
        0
        made
      ≡ some (m', k, calls))
    × IsSafe list_buffer m'
    × (k ≡ 0 + rounds ((hot_reading, true) ∷ (cool_reading, false) ∷ []))
polling_function-IsSafe_example =
    polling_function-IsSafe list_buffer list_buffer-IsCircular
      ((hot_reading, true) ∷ (cool_reading, false) ∷ []) 0 made made-IsSafe

abbrev sampling_control : Control
sampling_control = record { is_sampling = true; poller_thread = polling }

self_stop_terminates_example :
    (c' : Control) × (run_events (self_stop ∷ replicate 1 stop_sampling) sampling_control ≡ went c')
    × (start c' ≡ none)
    × (destroy c' ≡ none)
self_stop_terminates_example = self_stop_terminates 1 sampling_control refl

ram_exceeds-set_mb_used_example :
    ram_exceeds {W = ℕ} (set_mb_used 10 (ram_state 4000 3000 10)) little_ram
    ≡ ram_exceeds {W = ℕ} (ram_state 4000 3000 10) little_ram
ram_exceeds-set_mb_used_example =
    ram_exceeds-set_mb_used (ram_state 4000 3000 10) 10 little_ram (λ e. cc)
