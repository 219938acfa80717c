-- ===== src/Provider/Linux/Getters.antt =====
-- The constructor, `getCpuState` and `getHddState`.
use zpr_res_monitor.Prelude.{ℕ, Option, none, some, Text}
use zpr_res_monitor.Double.{Double}
use zpr_res_monitor.State.Cpu.{
  CpuState, default_cpu_state, set_percentage_used, set_monitor_percentage_used,
}
use zpr_res_monitor.State.Hdd.{
  HddState, default_hdd_state, set_kbs_used_read, set_kbs_used_write, set_monitor_kbs_used_read,
  set_monitor_kbs_used_write,
}
use zpr_res_monitor.Provider.Linux.{
  LinuxProvider, TimeSample, init_system_cpu_usage, init_self_cpu_usage, get_system_cpu_usage,
  get_self_cpu_usage,
}
use zpr_res_monitor.Provider.Linux.Hdd.{get_hdd_system_usage, get_hdd_self_usage}

-- What the system answers to the constructor: each file and clock as often as it is read. The sector
-- size is the number that `fscanf` reads, or `none` where the file does not hold one.
pub record Boot : Type 0 where
  pub stat : Text
  pub boot_times : TimeSample
  pub cpuinfo : Text
  pub sector_size : Option ℕ
  pub diskstats : Text
  pub system_time : ℕ
  pub io : Text
  pub self_time : ℕ
  pub stat_again : Text
  pub times_again : TimeSample

-- `fscanf(sectorSizeFile, "%d", &hddSectorSize)`: where it fails the member stays as it was.
unfoldable pub scan_sector_size : Option ℕ → LinuxProvider → LinuxProvider
scan_sector_size none p = p
scan_sector_size (some n) p = record p { hdd_sector_size = n }

module _ (W : Type 0) ⦃d : Double W⦄ where
  -- The results of the two getters are dropped.
  unfoldable pub init_hdd_usage : Boot → LinuxProvider → Option LinuxProvider
  unfolding scan_sector_size get_hdd_system_usage get_hdd_self_usage
  init_hdd_usage b p =
      elim (get_hdd_system_usage {W = W} b.diskstats b.system_time
        (scan_sector_size b.sector_size p)) [
          | none ↦ none
          | some (_, p1) ↦ elim (get_hdd_self_usage {W = W} b.io b.self_time p1) [
            | none ↦ none
            | some (_, p2) ↦ some p2
          ]
        ]

module _ {W : Type 0} ⦃d : Double W⦄ where
  unfoldable pub get_cpu_state :
      Text → TimeSample → LinuxProvider → Option (CpuState W × LinuxProvider)
  unfolding get_system_cpu_usage get_self_cpu_usage default_cpu_state set_percentage_used
      set_monitor_percentage_used
  get_cpu_state stat t p = elim (get_system_cpu_usage {W = W} stat p) [
    | none ↦ none
    | some (used, p1) ↦
        let (monitor, p2) = get_self_cpu_usage t p1 in
        some (set_monitor_percentage_used monitor (set_percentage_used used default_cpu_state), p2)
  ]

  unfoldable pub get_hdd_state :
      Text → ℕ → Text → ℕ → LinuxProvider → Option (HddState W × LinuxProvider)
  unfolding get_hdd_system_usage get_hdd_self_usage default_hdd_state set_kbs_used_read
      set_kbs_used_write set_monitor_kbs_used_read set_monitor_kbs_used_write
  get_hdd_state diskstats system_time io self_time p =
      elim (get_hdd_system_usage {W = W} diskstats system_time p) [
        | none ↦ none
        | some ((read, write), p1) ↦ elim (get_hdd_self_usage {W = W} io self_time p1) [
          | none ↦ none
          | some ((self_read, self_write), p2) ↦ some (
            set_monitor_kbs_used_write self_write (
                set_monitor_kbs_used_read self_read
                  (set_kbs_used_write write (set_kbs_used_read read default_hdd_state))),
            p2,
          )
        ]
      ]

module _ (W : Type 0) ⦃d : Double W⦄ where
  -- The constructor, from members that nothing has set.
  unfoldable pub new_linux_provider : Boot → LinuxProvider → Option LinuxProvider
  unfolding init_system_cpu_usage init_self_cpu_usage init_hdd_usage get_cpu_state
  new_linux_provider b p = elim (init_system_cpu_usage b.stat p) [
    | none ↦ none
    | some p1 ↦ elim (init_hdd_usage W b (init_self_cpu_usage b.boot_times b.cpuinfo p1)) [
      | none ↦ none
      | some p2 ↦ elim (get_cpu_state {W = W} b.stat_again b.times_again p2) [
        | none ↦ none
        | some (_, p3) ↦ some p3
      ]
    ]
  ]
