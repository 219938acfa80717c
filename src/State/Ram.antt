-- ===== src/State/Ram.antt =====
-- include/RamState.hpp and src/library_src/RamState.cpp.
use zpr_res_monitor.Prelude.{Bool, ◌++◌, Text, codes, if◌then◌else◌}
use zpr_res_monitor.Double.{Double}
use zpr_res_monitor.Config.Types.{TriggerType, percent, mb, gb}
use zpr_res_monitor.State.Compare.{compare_with}

pub record RamState (W : Type 0) : Type 0 where
  pub total_ram_mb : W
  pub ram_in_use_mb : W
  pub monitor_ram_in_use_mb : W

module _ {W : Type 0} where
  -- The constructor that takes all three sizes.
  abbrev pub ram_state : W → W → W → RamState W
  ram_state total used monitor = record {
    total_ram_mb = total;
    ram_in_use_mb = used;
    monitor_ram_in_use_mb = monitor;
  }

  unfoldable pub curr_mb_used : RamState W → W
  curr_mb_used s = s.ram_in_use_mb

  unfoldable pub curr_monitor_mb_used : RamState W → W
  curr_monitor_mb_used s = s.monitor_ram_in_use_mb

  unfoldable pub total_mb : RamState W → W
  total_mb s = s.total_ram_mb

  unfoldable pub set_mb_used : W → RamState W → RamState W
  set_mb_used v s = record s { ram_in_use_mb = v }

  unfoldable pub set_monitor_mb_used : W → RamState W → RamState W
  set_monitor_mb_used v s = record s { monitor_ram_in_use_mb = v }

  unfoldable pub set_total_mb : W → RamState W → RamState W
  set_total_mb v s = record s { total_ram_mb = v }

module _ {W : Type 0} ⦃d : Double W⦄ where
  unfoldable pub default_ram_state : RamState W
  default_ram_state = ram_state (d.of_long 0) (d.of_long 0) (d.of_long 0)

  -- `-1.0` where no total is known.
  unfoldable pub ram_percentage_used : RamState W → W
  ram_percentage_used s =
      if d.eq s.total_ram_mb (d.of_long 0)
      then d.minus_one
      else d.mul (d.div s.ram_in_use_mb s.total_ram_mb) (d.of_long 100)

  unfoldable pub ram_monitor_percentage_used : RamState W → W
  ram_monitor_percentage_used s =
      if d.eq s.total_ram_mb (d.of_long 0)
      then d.minus_one
      else d.mul (d.div s.monitor_ram_in_use_mb s.total_ram_mb) (d.of_long 100)

  -- `operator>`. It has no assertion, so it always answers.
  unfoldable pub ram_exceeds : RamState W → TriggerType → Bool
  unfolding ram_percentage_used
  ram_exceeds s t =
      let v = d.of_long t.trigger_value.value in
      elim t.trigger_value.unit_type [
        | percent ↦ compare_with t.fluctuation_type (ram_percentage_used s) v
        | mb ↦ compare_with t.fluctuation_type s.total_ram_mb v
        | gb ↦ compare_with t.fluctuation_type (d.div s.total_ram_mb (d.of_long 1000)) v
      ]

  -- `operator+=` and `operator/=` leave the total alone.
  unfoldable pub ram_add : RamState W → RamState W → RamState W
  ram_add a b = record a {
    ram_in_use_mb = d.add a.ram_in_use_mb b.ram_in_use_mb;
    monitor_ram_in_use_mb = d.add a.monitor_ram_in_use_mb b.monitor_ram_in_use_mb;
  }

  unfoldable pub ram_div : RamState W → W → RamState W
  ram_div a v = record a {
    ram_in_use_mb = d.div a.ram_in_use_mb v;
    monitor_ram_in_use_mb = d.div a.monitor_ram_in_use_mb v;
  }

  -- `operator<<`.
  unfoldable pub show_ram : RamState W → Text
  unfolding ram_percentage_used ram_monitor_percentage_used
  show_ram s =
      codes "RAM (system) [MB / %]: "
      ++ d.show s.ram_in_use_mb
      ++ codes "/"
      ++ d.show (ram_percentage_used s)
      ++ codes ", RAM (monitor) [MB / %]: "
      ++ d.show s.monitor_ram_in_use_mb
      ++ codes "/"
      ++ d.show (ram_monitor_percentage_used s)
