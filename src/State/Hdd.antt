-- ===== src/State/Hdd.antt =====
-- include/HddState.hpp and src/library_src/HddState.cpp.
use zpr_res_monitor.Prelude.{Bool, Option, none, some, ◌++◌, Text, codes}
use zpr_res_monitor.Double.{Double, max_double}
use zpr_res_monitor.Config.Types.{TriggerType, percent, mb, gb}
use zpr_res_monitor.State.Compare.{compare_with}

pub record HddState (W : Type 0) : Type 0 where
  pub hdd_in_use_kbs_read : W
  pub hdd_in_use_kbs_write : W
  pub monitor_hdd_in_use_kbs_read : W
  pub monitor_hdd_in_use_kbs_write : W

module _ {W : Type 0} where
  -- The constructor that takes all four speeds.
  abbrev pub hdd_state : W → W → W → W → HddState W
  hdd_state read write monitor_read monitor_write = record {
    hdd_in_use_kbs_read = read;
    hdd_in_use_kbs_write = write;
    monitor_hdd_in_use_kbs_read = monitor_read;
    monitor_hdd_in_use_kbs_write = monitor_write;
  }

  unfoldable pub curr_kbs_used_read : HddState W → W
  curr_kbs_used_read s = s.hdd_in_use_kbs_read

  unfoldable pub curr_kbs_used_write : HddState W → W
  curr_kbs_used_write s = s.hdd_in_use_kbs_write

  unfoldable pub curr_monitor_kbs_used_read : HddState W → W
  curr_monitor_kbs_used_read s = s.monitor_hdd_in_use_kbs_read

  unfoldable pub curr_monitor_kbs_used_write : HddState W → W
  curr_monitor_kbs_used_write s = s.monitor_hdd_in_use_kbs_write

  unfoldable pub set_kbs_used_read : W → HddState W → HddState W
  set_kbs_used_read v s = record s { hdd_in_use_kbs_read = v }

  unfoldable pub set_kbs_used_write : W → HddState W → HddState W
  set_kbs_used_write v s = record s { hdd_in_use_kbs_write = v }

  unfoldable pub set_monitor_kbs_used_read : W → HddState W → HddState W
  set_monitor_kbs_used_read v s = record s { monitor_hdd_in_use_kbs_read = v }

  unfoldable pub set_monitor_kbs_used_write : W → HddState W → HddState W
  set_monitor_kbs_used_write v s = record s { monitor_hdd_in_use_kbs_write = v }

module _ {W : Type 0} ⦃d : Double W⦄ where
  unfoldable pub default_hdd_state : HddState W
  default_hdd_state = hdd_state (d.of_long 0) (d.of_long 0) (d.of_long 0) (d.of_long 0)

  -- `operator>`; `none` is the failed assertion, since percentages make no sense here.
  unfoldable pub hdd_exceeds : HddState W → TriggerType → Option Bool
  hdd_exceeds s t =
      let v = d.of_long t.trigger_value.value in
      let in_use = max_double s.hdd_in_use_kbs_read s.hdd_in_use_kbs_write in
      elim t.trigger_value.unit_type [
        | percent ↦ none
        | mb ↦ some (compare_with t.fluctuation_type (d.div in_use (d.of_long 1000)) v)
        | gb ↦ some (compare_with t.fluctuation_type (d.div in_use (d.of_long 1_000_000)) v)
      ]

  -- `operator+=` and `operator/=`.
  unfoldable pub hdd_add : HddState W → HddState W → HddState W
  hdd_add a b =
      hdd_state (d.add a.hdd_in_use_kbs_read b.hdd_in_use_kbs_read)
        (d.add a.hdd_in_use_kbs_write b.hdd_in_use_kbs_write)
        (d.add a.monitor_hdd_in_use_kbs_read b.monitor_hdd_in_use_kbs_read)
        (d.add a.monitor_hdd_in_use_kbs_write b.monitor_hdd_in_use_kbs_write)

  unfoldable pub hdd_div : HddState W → W → HddState W
  hdd_div a v =
      hdd_state (d.div a.hdd_in_use_kbs_read v) (d.div a.hdd_in_use_kbs_write v)
        (d.div a.monitor_hdd_in_use_kbs_read v) (d.div a.monitor_hdd_in_use_kbs_write v)

  -- `operator<<`.
  unfoldable pub show_hdd : HddState W → Text
  show_hdd s =
      codes "Hdd (system) read/write [KB/s]: "
      ++ d.show s.hdd_in_use_kbs_read
      ++ codes "/"
      ++ d.show s.hdd_in_use_kbs_write
      ++ codes ", Hdd (monitor) read/write KB/s]: "
      ++ d.show s.monitor_hdd_in_use_kbs_read
      ++ codes "/"
      ++ d.show s.monitor_hdd_in_use_kbs_write
