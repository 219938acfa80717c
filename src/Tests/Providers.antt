-- ===== src/Tests/Providers.antt =====
-- The theorems on the bandwidths and on the Windows provider at concrete inputs.
use zpr_res_monitor.Prelude.{ℕ, ◌≡◌, refl, none, some, Text, codes, ◌-◌, arith}
use zpr_res_monitor.Provider.Scanning.{lines_of}
use zpr_res_monitor.Provider.Linux.{LinuxProvider}
use zpr_res_monitor.Provider.Linux.Hdd.{disk_traffic, get_hdd_system_usage}
use zpr_res_monitor.Provider.Linux.Rates.{get_hdd_system_usage-twice}
use zpr_res_monitor.Provider.Windows.{WindowsProvider, WindowsBoot, new_windows_provider}
use zpr_res_monitor.Provider.Windows.Fresh.{AgreeUnset, new_windows_provider-fresh}
use zpr_res_monitor.Tests.Numbers.{whole}

abbrev zeroed : WindowsProvider
zeroed = record {
  last_cpu = 0;
  last_sys_cpu = 0;
  last_user_cpu = 0;
  num_processors = 0;
  last_hdd_self_read = 0;
  last_hdd_self_write = 0;
  last_hdd_system_read = 0;
  last_hdd_system_write = 0;
  hdd_self_last_measure_time = 0;
  hdd_system_last_measure_time = 0;
}

abbrev left_over : WindowsProvider
left_over = record zeroed { last_cpu = 9; last_hdd_self_read = 77 }

abbrev windows_boot : WindowsBoot
windows_boot = record {
  processors = 4;
  boot_times = record { now = 100; sys = 10; user = 20 };
  self_counters = some (50, 60);
  drive_counters = none;
  boot_system_time = 1000;
  boot_self_time = 1001;
  times_again = record { now = 110; sys = 12; user = 22 };
}

-- The drive's counters are not read.
new_windows_provider-fresh_example :
    (new_windows_provider {W = ℕ} 3 windows_boot left_over
      ≡ new_windows_provider {W = ℕ} 3 windows_boot zeroed)
    × AgreeUnset
        (some (50, 60))
        none
        (new_windows_provider {W = ℕ} 3 windows_boot left_over)
        left_over
new_windows_provider-fresh_example =
    new_windows_provider-fresh 3 windows_boot left_over zeroed (refl, refl, refl, refl)

abbrev running : LinuxProvider
running = record {
  last_total_user = 0;
  last_total_niced = 0;
  last_total_sys = 0;
  last_total_idle = 0;
  last_hdd_self_read = 0;
  last_hdd_self_write = 0;
  last_hdd_system_read = 9;
  last_hdd_system_write = 9;
  last_cpu = 0;
  last_sys_cpu = 0;
  last_user_cpu = 0;
  num_processors = 1;
  hdd_sector_size = 512;
  hdd_self_last_measure_time = 0;
  hdd_system_last_measure_time = 0;
}

abbrev first_stats : Text
first_stats = codes "   8       0 sda 10 0 200 3 20 0 400 5 0 0 0\n"

abbrev second_stats : Text
second_stats = codes "   8       0 sda 15 0 300 3 21 0 410 5 0 0 0\n"

first_stats-read : disk_traffic 512 (lines_of 128 first_stats) ≡ some (102_400, 204_800)
unfolding disk_traffic zpr_res_monitor.Lexer.State.digits_value
first_stats-read = refl

second_stats-read : disk_traffic 512 (lines_of 128 second_stats) ≡ some (153_600, 209_920)
unfolding disk_traffic zpr_res_monitor.Lexer.State.digits_value
second_stats-read = refl

get_hdd_system_usage-twice_example :
    (usage : ℕ × ℕ) × (p1 : LinuxProvider) × (p2 : LinuxProvider) × (get_hdd_system_usage
        first_stats 1000 running
      ≡ some (usage, p1))
    × (get_hdd_system_usage second_stats 2000 p1
        ≡ some (
          (
            whole.div (whole.of_long (153_600 - 102_400)) (whole.of_long (2000 - 1000)),
            whole.div (whole.of_long (209_920 - 204_800)) (whole.of_long (2000 - 1000)),
          ),
          p2,
        ))
get_hdd_system_usage-twice_example =
    get_hdd_system_usage-twice first_stats second_stats 1000 2000 running first_stats-read
      second_stats-read (omega arith) (omega arith) (omega arith) (omega arith) (omega arith)
