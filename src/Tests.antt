-- ===== src/Tests.antt =====
-- The scanner on the configuration of the tests.
pub mod Numbers
pub mod Data
mod Sampling
mod Edges
mod Providers
mod Engine
pub mod RoundTrip
mod Flex
mod EngineCases
mod ManagerCases
mod Mail
mod Web
mod System
use zpr_res_monitor.Prelude.{ℕ, ◌≡◌, refl, List, [], ◌∷◌, codes, length, Text}
use zpr_res_monitor.Config.Types.{
  TriggerType, LogType, percent, mb, gb, cpu, memory, disk, under, over,
}
use zpr_res_monitor.Lexer.State.{Lexer, initial, ok, fault, stack_underflow}
use zpr_res_monitor.Lexer.Scan.{run, done, failed, out_of_fuel, Outcome}

abbrev pub new_lexer : Lexer
new_lexer = record {
  current_duration_time = 0;
  last_read_duration_element = 0;
  current_trigger_type = record {
    resource = cpu;
    fluctuation_type = under;
    trigger_value = record { unit_type = percent; value = 0 };
    duration = 0;
  };
  trigger_types = [];
  current_resource_value = record { unit_type = percent; value = 0 };
  trigger_resource_values = [];
  trigger_duration_times = [];
  current_log_type = record { resource = cpu; duration = 0; resolution = 0 };
  log_types = [];
  log_durations = [];
  log_resolutions = [];
  condition = initial;
  stack = [];
  echoed = [];
}

abbrev triggers_of : Outcome → List TriggerType
triggers_of (done s) = s.trigger_types
triggers_of (failed f) = []
triggers_of out_of_fuel = []

abbrev logs_of : Outcome → List LogType
logs_of (done s) = s.log_types
logs_of (failed f) = []
logs_of out_of_fuel = []

-- tests_src/conf_parser/example.
abbrev example_config : Text
example_config =
    codes
      "\n    trigger cpu over {70%, 80%, 90%} last for {20s, 1m}\n    trigger cpu under {5%, 50%} last for {2s, 20s}\n    trigger memory over 200MB last for 1s\n    trigger memory over 75% last for 10s\n    trigger disk over 9mb/s last for 1m2s\n\n    log cpu for {3h, 6h, 12h} resolution {30s, 5m, 15m, 30m, 1h}\n    log memory for {12h, 1d, 1d12h, 2d} resolution {1h, 6h}\n    log memory for {2h, 8h} resolution {15s}\n    trigger disk under 1MB/s last for 2s\n    log disk for 72h resolution {1h}\n    log disk for 72h resolution {2h}\n    log disk for 72h resolution 3h\n"

-- tests_src/conf_parser/configurationParserTests.cpp: the numbers of triggers and of logs.
unfoldable first_test : ℕ × ℕ
unfolding run
first_test =
    let parsed = run example_config new_lexer in
    (length (triggers_of parsed), length (logs_of parsed))

first_test_counts : first_test ≡ (14, 28)
unfolding first_test zpr_res_monitor.Lexer.Scan.scan_step
first_test_counts = refl
