-- ===== src/Tests/ManagerCases.antt =====
-- tests_src/samples_manager/samplesManagerTests.cpp: its mocks and its cases, run on the model with
-- whole numbers in place of `double`.
use zpr_res_monitor.Prelude.{
  ℕ, zero, suc, ◌≡◌, refl, Bool, not, leb, Option, none, some, List, [], ◌∷◌, Text, codes, length,
  if◌then◌else◌,
}
use zpr_res_monitor.Config.Types.{LogType, Resource, cpu, memory, disk, resource_eq}
use zpr_res_monitor.State.Cpu.{CpuState, cpu_state}
use zpr_res_monitor.State.Ram.{RamState, ram_state}
use zpr_res_monitor.State.Hdd.{HddState, hdd_state}
use zpr_res_monitor.Lexer.State.{Lexer}
use zpr_res_monitor.Lexer.Scan.{Outcome, run, done, failed, out_of_fuel}
use zpr_res_monitor.Sampling.Buffer.{list_buffer}
use zpr_res_monitor.Sampling.Logs.{get_log}
use zpr_res_monitor.Sampling.Triggers.{Call}
use zpr_res_monitor.Sampling.Triggers
use zpr_res_monitor.Sampling.Manager.{Reading, Manager, new_manager, polling_function}
use zpr_res_monitor.Tests.Numbers.{whole}
use zpr_res_monitor.Tests.{new_lexer}

-- `ResProviderMock`; the times play no part.
abbrev provider_mock : Reading ℕ
provider_mock = record {
  cpu_reading = (0, cpu_state 85 10);
  ram_reading = (0, ram_state 1000 500 100);
  hdd_reading = (0, hdd_state 100 100 2000 2000);
}

-- `SamplerManagerMock`: after the n-th sample `isSampling` holds while n is less than
-- `SAMPLES_NUMBER`. More rounds are offered than are taken.
abbrev rounds_from : ℕ → ℕ → List (Reading ℕ × Bool)
rounds_from zero n = []
rounds_from (suc more) n = (provider_mock, not (leb 10 n)) ∷ rounds_from more (suc n)

abbrev sampler_manager_mock : Manager list_buffer ℕ → Option (Manager list_buffer ℕ × ℕ × List Call)
unfolding polling_function
sampler_manager_mock m = polling_function list_buffer (rounds_from 20 1) 0 m

abbrev sampled_config : Text
sampled_config =
    codes
      "\n    trigger cpu over {70%, 80%, 90%} last for {8s, 1m}\n    trigger memory over 200MB last for 6s\n    trigger memory over 75% last for 10s\n    trigger disk over 9mb/s last for 1m2s\n    trigger disk under 10MB/s last for 2s\n\n    log cpu for {3h} resolution {7s}\n    log memory for {12h} resolution {1h}\n    log disk for 3h resolution 4s\n"

unfoldable sampled : Option (Lexer × Manager list_buffer ℕ × ℕ × List Call)
unfolding run new_manager sampler_manager_mock
sampled = elim (run sampled_config new_lexer) [
  | done s ↦ elim (sampler_manager_mock (new_manager list_buffer ℕ s.log_types s.trigger_types)) [
    | none ↦ none
    | some (m, n, calls) ↦ some (s, m, n, calls)
  ]
  | failed e ↦ none
  | out_of_fuel ↦ none
]

-- The size of the log of a type, in the map of its resource.
unfoldable log_size_of : Manager list_buffer ℕ → LogType → Option ℕ
unfolding get_log
log_size_of m l = elim l.resource [
  | cpu ↦ elim (get_log list_buffer (CpuState ℕ) l m.cpu_log) [
    | none ↦ none
    | some x ↦ some (length (list_buffer.elements (CpuState ℕ) x))
  ]
  | memory ↦ elim (get_log list_buffer (RamState ℕ) l m.ram_log) [
    | none ↦ none
    | some x ↦ some (length (list_buffer.elements (RamState ℕ) x))
  ]
  | disk ↦ elim (get_log list_buffer (HddState ℕ) l m.hdd_log) [
    | none ↦ none
    | some x ↦ some (length (list_buffer.elements (HddState ℕ) x))
  ]
]

abbrev sizes_of : Manager list_buffer ℕ → List LogType → List (Resource × Option ℕ)
unfolding log_size_of
sizes_of m [] = []
sizes_of m (l ∷ ls) = (l.resource, log_size_of m l) ∷ sizes_of m ls

unfoldable log_test : List (Resource × Option ℕ)
unfolding sampled sizes_of
log_test = elim sampled [ none ↦ [] | some (s, m, n, calls) ↦ sizes_of m s.log_types ]

-- How many of the calls are of triggers of a resource.
unfoldable triggered : Resource → List Call → ℕ
triggered r [] = 0
triggered r (Triggers.activate t ∷ cs) =
    let rest = triggered r cs in if resource_eq t.resource r then suc rest else rest
triggered r (Triggers.deactivate t ∷ cs) = triggered r cs

-- `cpuTriggers`, `ramTriggers` and `hddTriggers`.
unfoldable trigger_test : Option (ℕ × ℕ × ℕ)
unfolding sampled triggered
trigger_test = elim sampled [
  | none ↦ none
  | some (s, m, n, calls) ↦ some (triggered cpu calls, triggered memory calls, triggered disk calls)
]

log_test_sizes : log_test ≡ (cpu, some 1) ∷ (memory, some 0) ∷ (disk, some 2) ∷ []
unfolding log_test zpr_res_monitor.Lexer.Scan.scan_step
log_test_sizes = refl

trigger_test_counts : trigger_test ≡ some (2, 1, 5)
unfolding trigger_test zpr_res_monitor.Lexer.Scan.scan_step
trigger_test_counts = refl
