-- ===== src/Tests/Data.antt =====
-- Concrete triggers, logs, states and readings.
use zpr_res_monitor.Prelude.{ℕ, List, [], ◌∷◌}
use zpr_res_monitor.Config.Types.{TriggerType, LogType, percent, mb, cpu, memory, disk, under, over}
use zpr_res_monitor.State.Cpu.{cpu_state}
use zpr_res_monitor.State.Ram.{ram_state}
use zpr_res_monitor.State.Hdd.{hdd_state}
use zpr_res_monitor.Sampling.Triggers.{Sample}
use zpr_res_monitor.Sampling.Manager.{Reading}

-- Over 70 % of the processor for two polls.
abbrev pub busy_cpu : TriggerType
busy_cpu = record {
  resource = cpu;
  fluctuation_type = over;
  trigger_value = record { unit_type = percent; value = 70 };
  duration = 2;
}

-- Under 500 MB of memory, for one poll.
abbrev pub little_ram : TriggerType
little_ram = record {
  resource = memory;
  fluctuation_type = under;
  trigger_value = record { unit_type = mb; value = 500 };
  duration = 1;
}

-- Over 9 MB/s of the disk, for three polls.
abbrev pub busy_disk : TriggerType
busy_disk = record {
  resource = disk;
  fluctuation_type = over;
  trigger_value = record { unit_type = mb; value = 9 };
  duration = 3;
}

abbrev pub at_once : TriggerType
at_once = record busy_cpu { duration = 0 }

abbrev pub all_triggers : List TriggerType
all_triggers = busy_cpu ∷ little_ram ∷ busy_disk ∷ []

abbrev pub cpu_each_2 : LogType
cpu_each_2 = record { resource = cpu; duration = 10; resolution = 2 }

abbrev pub cpu_each_2_longer : LogType
cpu_each_2_longer = record { resource = cpu; duration = 60; resolution = 2 }

abbrev pub ram_each_5 : LogType
ram_each_5 = record { resource = memory; duration = 60; resolution = 5 }

abbrev pub all_logs : List LogType
all_logs = cpu_each_2 ∷ ram_each_5 ∷ []

abbrev pub hot : Sample ℕ
hot = record {
  last_cpu_state = cpu_state 90 1;
  last_ram_state = ram_state 4000 3000 10;
  last_hdd_state = hdd_state 20_000 10 0 0;
}

abbrev pub cool : Sample ℕ
cool = record {
  last_cpu_state = cpu_state 10 1;
  last_ram_state = ram_state 4000 1000 10;
  last_hdd_state = hdd_state 5 10 0 0;
}

abbrev pub hot_reading : Reading ℕ
hot_reading = record {
  cpu_reading = (1, hot.last_cpu_state);
  ram_reading = (2, hot.last_ram_state);
  hdd_reading = (3, hot.last_hdd_state);
}

abbrev pub cool_reading : Reading ℕ
cool_reading = record {
  cpu_reading = (1001, cool.last_cpu_state);
  ram_reading = (1002, cool.last_ram_state);
  hdd_reading = (1003, cool.last_hdd_state);
}
