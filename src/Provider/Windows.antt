-- ===== src/Provider/Windows.antt =====
-- include/WindowsResProvider.hpp and src/library_src/WindowsResProvider.cpp. What the calls of the
-- system answer are arguments; a call that fails is `none`. The transfer counters are below 2 ^ 63, so
-- their `long long` copies keep their values. The handles are left out.
pub mod Fresh
use zpr_res_monitor.Prelude.{ℕ, ◌+◌, ◌-◌, ◌%◌, Option, none, some, if◌then◌else◌}
use zpr_res_monitor.Double.{Double}
use zpr_res_monitor.State.Cpu.{
  CpuState, default_cpu_state, set_percentage_used, set_monitor_percentage_used,
}
use zpr_res_monitor.State.Ram.{
  RamState, default_ram_state, set_total_mb, set_mb_used, set_monitor_mb_used,
}
use zpr_res_monitor.State.Hdd.{
  HddState, default_hdd_state, set_kbs_used_read, set_kbs_used_write, set_monitor_kbs_used_read,
  set_monitor_kbs_used_write,
}
use zpr_res_monitor.Provider.Scanning.{word}
use zpr_res_monitor.Provider.Linux.{of_difference, wrapping_sub}

pub record WindowsProvider : Type 0 where
  pub last_cpu : ℕ
  pub last_sys_cpu : ℕ
  pub last_user_cpu : ℕ
  pub num_processors : ℕ
  pub last_hdd_self_read : ℕ
  pub last_hdd_self_write : ℕ
  pub last_hdd_system_read : ℕ
  pub last_hdd_system_write : ℕ
  pub hdd_self_last_measure_time : ℕ
  pub hdd_system_last_measure_time : ℕ

-- `GetSystemTimeAsFileTime` and the kernel and user times of `GetProcessTimes`.
pub record FileTimes : Type 0 where
  pub now : ℕ
  pub sys : ℕ
  pub user : ℕ

-- The fields that are read of `MEMORYSTATUSEX` and `PROCESS_MEMORY_COUNTERS`.
pub record MemoryStatus : Type 0 where
  pub total_phys : ℕ
  pub avail_phys : ℕ
  pub working_set_size : ℕ

-- The bytes read and written, of `IO_COUNTERS` or `DISK_PERFORMANCE`, if the call succeeds.
abbrev pub Counters : Type 0
Counters = Option (ℕ × ℕ)

unfoldable pub windows_init_self_cpu_usage : ℕ → FileTimes → WindowsProvider → WindowsProvider
windows_init_self_cpu_usage processors t p = record p {
  num_processors = processors;
  last_cpu = t.now;
  last_sys_cpu = t.sys;
  last_user_cpu = t.user;
}

-- The early returns keep what was set before them.
unfoldable pub windows_init_hdd_usage :
    Counters → Counters → ℕ → ℕ → WindowsProvider → WindowsProvider
windows_init_hdd_usage none drive system_time self_time p = p
windows_init_hdd_usage (some (r, w)) none system_time self_time p = record p {
  last_hdd_self_read = r;
  last_hdd_self_write = w;
}
windows_init_hdd_usage (some (r, w)) (some (dr, dw)) system_time self_time p = record p {
  last_hdd_self_read = r;
  last_hdd_self_write = w;
  last_hdd_system_read = dr;
  last_hdd_system_write = dw;
  hdd_system_last_measure_time = system_time;
  hdd_self_last_measure_time = self_time;
}

module _ {W : Type 0} ⦃d : Double W⦄ where
  unfoldable pub windows_get_self_cpu_usage : FileTimes → WindowsProvider → W × WindowsProvider
  windows_get_self_cpu_usage t p =
      let busy = (wrapping_sub t.sys p.last_sys_cpu + wrapping_sub t.user p.last_user_cpu) % word in
      let share =
        d.div (d.div (d.of_long busy) (d.of_long (wrapping_sub t.now p.last_cpu)))
          (d.of_long p.num_processors) in
      (
        d.mul share (d.of_long 100),
        record p { last_cpu = t.now; last_user_cpu = t.user; last_sys_cpu = t.sys },
      )

  -- The first value is what the performance counter gives.
  unfoldable pub windows_get_cpu_state :
      W → FileTimes → WindowsProvider → CpuState W × WindowsProvider
  unfolding windows_get_self_cpu_usage default_cpu_state set_percentage_used
      set_monitor_percentage_used
  windows_get_cpu_state total t p =
      let (monitor, p') = windows_get_self_cpu_usage t p in
      (set_monitor_percentage_used monitor (set_percentage_used total default_cpu_state), p')

  unfoldable pub windows_get_ram_state : MemoryStatus → RamState W
  unfolding default_ram_state set_total_mb set_mb_used set_monitor_mb_used
  windows_get_ram_state i =
      let megabyte = d.of_long 1_000_000 in
      set_monitor_mb_used (d.div (d.of_long i.working_set_size) megabyte) (
        set_mb_used (d.div (d.of_long (wrapping_sub i.total_phys i.avail_phys)) megabyte)
          (set_total_mb (d.div (d.of_long i.total_phys) megabyte) default_ram_state))

  -- A signed difference of bytes over the milliseconds.
  unfoldable pub windows_get_hdd_self_usage :
      Counters → ℕ → WindowsProvider → (W × W) × WindowsProvider
  windows_get_hdd_self_usage none time p = ((d.minus_one, d.minus_one), p)
  windows_get_hdd_self_usage (some (r, w)) time p =
      let elapsed = of_difference time p.hdd_self_last_measure_time in
      (
        (
          d.div (of_difference r p.last_hdd_self_read) elapsed,
          d.div (of_difference w p.last_hdd_self_write) elapsed,
        ),
        record p {
          hdd_self_last_measure_time = time;
          last_hdd_self_read = r;
          last_hdd_self_write = w;
        },
      )

  -- An unsigned difference here.
  unfoldable pub windows_get_hdd_system_usage :
      Counters → ℕ → WindowsProvider → (W × W) × WindowsProvider
  windows_get_hdd_system_usage none time p = ((d.minus_one, d.minus_one), p)
  windows_get_hdd_system_usage (some (r, w)) time p =
      let elapsed = of_difference time p.hdd_system_last_measure_time in
      (
        (
          d.div (d.of_long (wrapping_sub r p.last_hdd_system_read)) elapsed,
          d.div (d.of_long (wrapping_sub w p.last_hdd_system_write)) elapsed,
        ),
        record p {
          hdd_system_last_measure_time = time;
          last_hdd_system_read = r;
          last_hdd_system_write = w;
        },
      )

  unfoldable pub windows_get_hdd_state :
      Counters → ℕ → Counters → ℕ → WindowsProvider → HddState W × WindowsProvider
  unfolding windows_get_hdd_self_usage windows_get_hdd_system_usage default_hdd_state
      set_kbs_used_read set_kbs_used_write set_monitor_kbs_used_read set_monitor_kbs_used_write
  windows_get_hdd_state drive system_time self self_time p =
      let ((read, write), p1) = windows_get_hdd_system_usage drive system_time p in
      let ((self_read, self_write), p2) = windows_get_hdd_self_usage self self_time p1 in
      (
        set_monitor_kbs_used_write self_write (
            set_monitor_kbs_used_read self_read
              (set_kbs_used_write write (set_kbs_used_read read default_hdd_state))),
        p2,
      )

-- What the system answers to the constructor.
pub record WindowsBoot : Type 0 where
  pub processors : ℕ
  pub boot_times : FileTimes
  pub self_counters : Counters
  pub drive_counters : Counters
  pub boot_system_time : ℕ
  pub boot_self_time : ℕ
  pub times_again : FileTimes

module _ {W : Type 0} ⦃d : Double W⦄ where
  -- The constructor, from members that nothing has set; `total` is the performance counter's value.
  unfoldable pub new_windows_provider : W → WindowsBoot → WindowsProvider → WindowsProvider
  unfolding windows_init_self_cpu_usage windows_init_hdd_usage windows_get_cpu_state
  new_windows_provider total b p =
      let p1 = windows_init_self_cpu_usage b.processors b.boot_times p in
      let p2 =
        windows_init_hdd_usage b.self_counters b.drive_counters b.boot_system_time b.boot_self_time
          p1 in
      (windows_get_cpu_state total b.times_again p2).1
