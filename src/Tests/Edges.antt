-- ===== src/Tests/Edges.antt =====
-- The theorems on the scanner, the Linux provider and the requests at concrete inputs.
use zpr_res_monitor.Prelude.{
  ℕ, ◌+◌, ◌≤◌, ◌≡◌, ◌≢◌, refl, arith, Option, none, some, List, [], ◌∷◌, codes,
}
use zpr_res_monitor.Config.Types.{ResourceValue, percent}
use zpr_res_monitor.Lexer.State.{
  Lexer, Condition, initial, trigger_env, trigger_duration_set_env, log_env, log_resolution_set_env,
  ok, fault, stack_underflow,
}
use zpr_res_monitor.Lexer.Scan.{yylex, out_of_fuel, yylex-ne-out_of_fuel}
use zpr_res_monitor.Provider.Linux.{
  LinuxProvider, CpuCounters, read_cpu_counters, store_counters, get_system_cpu_usage,
}
use zpr_res_monitor.Provider.Linux.Usage.{busy_ticks, all_ticks, kept, get_system_cpu_usage-later}
use zpr_res_monitor.Provider.Linux.Getters.{Boot}
use zpr_res_monitor.Predicate.{Predicate, or_and}
use zpr_res_monitor.Engine.{add_predicate}
use zpr_res_monitor.Engine.Delivery.{AllValid}
use zpr_res_monitor.Web.{Field, Mail, Session, stoi, notification, trigger_choose}
use zpr_res_monitor.Web.Subscription.{trigger_choose_three}
use zpr_res_monitor.Tests.Numbers.{whole}
use zpr_res_monitor.Tests.Data.{busy_cpu, little_ram, busy_disk, all_triggers, cpu_each_2}

abbrev seventy : ResourceValue
seventy = record { unit_type = percent; value = 70 }

-- Before the end of `trigger cpu over {70%, 70%} last for {2s, 60s}`.
abbrev at_end : Lexer
at_end = record {
  current_duration_time = 60;
  last_read_duration_element = 60;
  current_trigger_type = busy_cpu;
  trigger_types = little_ram ∷ [];
  current_resource_value = seventy;
  trigger_resource_values = seventy ∷ seventy ∷ [];
  trigger_duration_times = 2 ∷ [];
  current_log_type = cpu_each_2;
  log_types = [];
  log_durations = 600 ∷ [];
  log_resolutions = 5 ∷ [];
  condition = trigger_duration_set_env;
  stack = trigger_env ∷ initial ∷ [];
  echoed = [];
}

yylex-ne-out_of_fuel_example : yylex 12 (codes "trigger cpu ") at_end ≢ out_of_fuel
yylex-ne-out_of_fuel_example = yylex-ne-out_of_fuel 12 (codes "trigger cpu ") at_end (omega arith)

abbrev provider : LinuxProvider
provider = record {
  last_total_user = 100;
  last_total_niced = 10;
  last_total_sys = 50;
  last_total_idle = 1000;
  last_hdd_self_read = 0;
  last_hdd_self_write = 0;
  last_hdd_system_read = 0;
  last_hdd_system_write = 0;
  last_cpu = 5;
  last_sys_cpu = 1;
  last_user_cpu = 1;
  num_processors = 4;
  hdd_sector_size = 512;
  hdd_self_last_measure_time = 0;
  hdd_system_last_measure_time = 0;
}

abbrev later_counters : CpuCounters
later_counters = record { total_user = 130; total_niced = 10; total_sys = 60; total_idle = 1060 }

later_counters-read : read_cpu_counters (codes "cpu  130 10 60 1060 7\n") ≡ some later_counters
unfolding read_cpu_counters zpr_res_monitor.Lexer.State.digits_value
later_counters-read = refl

get_system_cpu_usage-later_example :
    (busy : ℕ) × (all : ℕ) × (get_system_cpu_usage (codes "cpu  130 10 60 1060 7\n") provider
      ≡ some (
        whole.mul (whole.div (whole.of_long busy) (whole.of_long all)) (whole.of_long 100),
        store_counters later_counters provider,
      ))
    × (busy + busy_ticks (kept provider) ≡ busy_ticks later_counters)
    × (all + all_ticks (kept provider) ≡ all_ticks later_counters)
    × (busy ≤ all)
get_system_cpu_usage-later_example =
    get_system_cpu_usage-later (codes "cpu  130 10 60 1060 7\n") provider later_counters
      later_counters-read (omega arith, omega arith, omega arith, omega arith) (omega arith)

abbrev boot : Boot
boot = record {
  stat = codes "cpu  1 2 3 4\n";
  boot_times = record { now = 10; tms_stime = 1; tms_utime = 2 };
  cpuinfo = codes "processor : 0\nprocessor : 1\n";
  sector_size = none;
  diskstats = codes "   8       0 sda 10 0 200 3 20 0 400 5 0 0 0\n";
  system_time = 1000;
  io = codes "rchar: 50\nwchar: 60\n";
  self_time = 1001;
  stat_again = codes "cpu  2 2 3 5\n";
  times_again = record { now = 12; tms_stime = 1; tms_utime = 3 };
}

abbrev session : Session
session = record {
  user_name = codes " Ann";
  user_email = codes " ann@example.org";
  next_identity = 0;
  registry = [];
  store = λ i. none;
}

abbrev choice : List Field
choice =
    (codes "trigger2", codes "2")
    ∷ (codes "trigger1", codes "1")
    ∷ (codes "trigger0", codes "0")
    ∷ []

stoi_digit :
    (stoi (codes " 0") ≡ some 0) × (stoi (codes " 1") ≡ some 1) × (stoi (codes " 2") ≡ some 2)
unfolding stoi zpr_res_monitor.Lexer.State.digits_value
stoi_digit = (refl, refl, refl)

trigger_choose_three_example :
    (p : Predicate (Option Mail)) × (s' : Session) × (trigger_choose all_triggers choice session
      ≡ some (codes "Your subscription has been saved!", s'))
    × (p.kind ≡ or_and busy_cpu little_ram busy_disk)
    × (p.callback
        ≡ some (
            notification session.user_name session.user_email
              (or_and busy_cpu little_ram busy_disk)))
    × (s'.store session.next_identity ≡ some p)
    × (s'.registry ≡ add_predicate session.next_identity p session.registry)
    × AllValid s'.store
trigger_choose_three_example =
    trigger_choose_three all_triggers (codes "trigger2") (codes "2") (codes "trigger1") (codes "1")
      (codes "trigger0") (codes "0") 2 1 0 busy_cpu little_ram busy_disk session (ground arith)
      stoi_digit.2 stoi_digit.1 stoi_digit.0 refl refl refl (λ i p e. cc)
