-- ===== src/State/Cpu.antt =====
-- include/CpuState.hpp and src/library_src/CpuState.cpp.
use zpr_res_monitor.Prelude.{Bool, Option, none, some, ◌++◌, Text, codes}
use zpr_res_monitor.Double.{Double}
use zpr_res_monitor.Config.Types.{TriggerType, percent}
use zpr_res_monitor.State.Compare.{compare_with}

pub record CpuState (W : Type 0) : Type 0 where
  pub cpu_in_use_percentage : W
  pub monitor_cpu_in_use_percentage : W

module _ {W : Type 0} where
  -- The constructor that takes both percentages.
  abbrev pub cpu_state : W → W → CpuState W
  cpu_state used monitor = record {
    cpu_in_use_percentage = used;
    monitor_cpu_in_use_percentage = monitor;
  }

  unfoldable pub curr_percentage_used : CpuState W → W
  curr_percentage_used s = s.cpu_in_use_percentage

  unfoldable pub curr_monitor_percentage_used : CpuState W → W
  curr_monitor_percentage_used s = s.monitor_cpu_in_use_percentage

  unfoldable pub set_percentage_used : W → CpuState W → CpuState W
  set_percentage_used v s = record s { cpu_in_use_percentage = v }

  unfoldable pub set_monitor_percentage_used : W → CpuState W → CpuState W
  set_monitor_percentage_used v s = record s { monitor_cpu_in_use_percentage = v }

module _ {W : Type 0} ⦃d : Double W⦄ where
  unfoldable pub default_cpu_state : CpuState W
  default_cpu_state = cpu_state (d.of_long 0) (d.of_long 0)

  -- `operator>`; `none` is the failed assertion, since only percentages make sense here.
  unfoldable pub cpu_exceeds : CpuState W → TriggerType → Option Bool
  cpu_exceeds s t =
      let v = d.of_long t.trigger_value.value in
      elim t.trigger_value.unit_type [
        | percent ↦ some (compare_with t.fluctuation_type s.cpu_in_use_percentage v)
        | _ ↦ none
      ]

  -- `operator+=` and `operator/=`.
  unfoldable pub cpu_add : CpuState W → CpuState W → CpuState W
  cpu_add a b =
      cpu_state (d.add a.cpu_in_use_percentage b.cpu_in_use_percentage)
        (d.add a.monitor_cpu_in_use_percentage b.monitor_cpu_in_use_percentage)

  unfoldable pub cpu_div : CpuState W → W → CpuState W
  cpu_div a v =
      cpu_state (d.div a.cpu_in_use_percentage v) (d.div a.monitor_cpu_in_use_percentage v)

  -- `operator<<`.
  unfoldable pub show_cpu : CpuState W → Text
  show_cpu s =
      codes "CPU (system) [%]: "
      ++ d.show s.cpu_in_use_percentage
      ++ codes ", CPU (monitor) [%]: "
      ++ d.show s.monitor_cpu_in_use_percentage
