-- ===== src/Sampling/Manager.antt =====
-- The state of SamplingManager and one round of `pollingFunction`. The readings of the provider and
-- the clock are arguments of the round; the messages of `printDebugInfo` are left out.
pub mod Safety
pub mod Polling
use zpr_res_monitor.Prelude.{
  ℕ, suc, ◌+◌, Bool, true, false, Option, none, some, List, [], ◌∷◌, ◌++◌, if◌then◌else◌, map,
  Option-cases,
}
use mathlib.Core.List.{reverse}
use zpr_res_monitor.Double.{Double, gt}
use zpr_res_monitor.Config.Types.{TriggerType, LogType, cpu, memory, disk}
use zpr_res_monitor.State.Cpu.{CpuState}
use zpr_res_monitor.State.Ram.{RamState}
use zpr_res_monitor.State.Hdd.{HddState}
use zpr_res_monitor.Sampling.Buffer.{CircularBuffer}
use zpr_res_monitor.Sampling.Mean.{get_cpu_samples_mean, get_ram_samples_mean, get_hdd_samples_mean}
use zpr_res_monitor.Sampling.Logs.{LogMap, max_resolution, initialize_logs, process_logs}
use zpr_res_monitor.Sampling.Triggers.{
  Call, TriggerStates, Sample, initialize_triggers, process_triggers,
}

-- What a round reads: the three states, each with the time of `system_clock`.
pub record Reading (W : Type 0) : Type 0 where
  pub cpu_reading : ℕ × CpuState W
  pub ram_reading : ℕ × RamState W
  pub hdd_reading : ℕ × HddState W

module _ (b : CircularBuffer) (W : Type 0) where
  pub record Manager : Type 0 where
    pub cpu_samples : b.Buffer (ℕ × CpuState W)
    pub ram_samples : b.Buffer (ℕ × RamState W)
    pub hdd_samples : b.Buffer (ℕ × HddState W)
    pub cpu_log : LogMap b (CpuState W)
    pub ram_log : LogMap b (RamState W)
    pub hdd_log : LogMap b (HddState W)
    pub trigger_states : TriggerStates

  -- The constructor.
  unfoldable pub new_manager : List LogType → List TriggerType → Manager
  unfolding max_resolution initialize_logs initialize_triggers
  new_manager logs triggers = record {
    cpu_samples = b.create (ℕ × CpuState W) (max_resolution cpu logs);
    ram_samples = b.create (ℕ × RamState W) (max_resolution memory logs);
    hdd_samples = b.create (ℕ × HddState W) (max_resolution disk logs);
    cpu_log = initialize_logs b (CpuState W) cpu logs;
    ram_log = initialize_logs b (RamState W) memory logs;
    hdd_log = initialize_logs b (HddState W) disk logs;
    trigger_states = initialize_triggers triggers;
  }

  -- The stored states, newest first, as `rbegin` gives them.
  abbrev pub newest_first : {S : Type 0} → b.Buffer (ℕ × S) → List S
  newest_first {S} x = reverse (map (λ p. p.1) (b.elements (ℕ × S) x))

  -- `back()`; `none` is the undefined read of an empty buffer.
  unfoldable pub back : {S : Type 0} → List S → Option S
  back [] = none
  back (x ∷ xs) = some x

  -- The three `push_back`s.
  unfoldable pub store_reading : Reading W → Manager → Manager
  store_reading r m = record m {
    cpu_samples = b.push_back (ℕ × CpuState W) r.cpu_reading m.cpu_samples;
    ram_samples = b.push_back (ℕ × RamState W) r.ram_reading m.ram_samples;
    hdd_samples = b.push_back (ℕ × HddState W) r.hdd_reading m.hdd_samples;
  }

  unfoldable pub last_sample : Manager → Option (Sample W)
  unfolding back
  last_sample m = elim (back (newest_first m.cpu_samples)) [
    | none ↦ none
    | some c ↦ elim (back (newest_first m.ram_samples)) [
      | none ↦ none
      | some r ↦ elim (back (newest_first m.hdd_samples)) [
        | none ↦ none
        | some h ↦ some (record { last_cpu_state = c; last_ram_state = r; last_hdd_state = h })
      ]
    ]
  ]

module _ (b : CircularBuffer) {W : Type 0} ⦃d : Double W⦄ where
  -- `processLogs` for the three resources.
  unfoldable pub process_all_logs : Manager b W → Option (Manager b W)
  unfolding process_logs get_cpu_samples_mean get_ram_samples_mean get_hdd_samples_mean
  process_all_logs m =
      elim (process_logs b (CpuState W)
        (λ n. get_cpu_samples_mean n (newest_first b W m.cpu_samples)) m.cpu_log) [
          | none ↦ none
          | some cl ↦
              elim (process_logs b (RamState W)
                (λ n. get_ram_samples_mean n (newest_first b W m.ram_samples)) m.ram_log) [
                  | none ↦ none
                  | some rl ↦
                      elim (process_logs b (HddState W)
                        (λ n. get_hdd_samples_mean n (newest_first b W m.hdd_samples)) m.hdd_log) [
                          | none ↦ none
                          | some hl ↦ some (record m { cpu_log = cl; ram_log = rl; hdd_log = hl })
                        ]
                ]
        ]

  -- A round up to `afterPollCallback`; `none` is an abort or an undefined read.
  unfoldable pub poll : Reading W → Manager b W → Option (Manager b W × List Call)
  unfolding store_reading last_sample process_triggers process_all_logs
  poll r m =
      let m1 = store_reading b W r m in
      elim (last_sample b W m1) [
        | none ↦ none
        | some s ↦ elim (process_triggers s m1.trigger_states) [
          | none ↦ none
          | some (ts, calls) ↦ elim (process_all_logs (record m1 { trigger_states = ts })) [
            | none ↦ none
            | some m2 ↦ some (m2, calls)
          ]
        ]
      ]

  -- `pollingFunction`: what each round reads, and whether `isSampling` still holds after it, when it
  -- is tested twice. The result counts the samples, as `afterPollCallback` is told.
  unfoldable pub polling_function :
      List (Reading W × Bool) → ℕ → Manager b W → Option (Manager b W × ℕ × List Call)
  unfolding poll
  polling_function [] n m = some (m, n, [])
  polling_function ((r, sampling) ∷ rs) n m = elim (poll r m) [
    | none ↦ none
    | some (m', calls) ↦ elim sampling [
      | false ↦ some (m', suc n, calls)
      | true ↦ elim (polling_function rs (suc n) m') [
        | none ↦ none
        | some (m'', k, later) ↦ some (m'', k, calls ++ later)
      ]
    ]
  ]

  -- The milliseconds to sleep after a round that took `duration`.
  unfoldable pub sleep_time : ℕ → W → ℕ
  sleep_time interval duration =
      if gt (d.of_long interval) duration
      then d.truncate (d.sub (d.of_long interval) duration)
      else 0
