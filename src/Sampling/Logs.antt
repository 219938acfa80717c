-- ===== src/Sampling/Logs.antt =====
-- The log part of SamplingManager: `initializeSamplesBuffers`, `initializeLoggingBuffers`,
-- `processLogs` and the getters of the logs. The loops for the three resources are one generic loop.
pub mod Stored
pub mod Shared
use zpr_res_monitor.Prelude.{
  ℕ, suc, ◌+◌, ◌/◌, Bool, true, false, Option, none, some, List, [], ◌∷◌, ltb, leb, max, lookup,
  insert, if◌then◌else◌,
}
use zpr_res_monitor.Config.Types.{LogType, Resource, resource_eq, log_eq}
use zpr_res_monitor.Sampling.Buffer.{CircularBuffer}

-- `initializeSamplesBuffers` of one resource: the largest resolution among its logs, at least 1.
unfoldable pub max_resolution_from : Resource → ℕ → List LogType → ℕ
max_resolution_from r best [] = best
max_resolution_from r best (l ∷ ls) =
    max_resolution_from r (if resource_eq l.resource r then max best l.resolution else best) ls

unfoldable pub max_resolution : Resource → List LogType → ℕ
unfolding max_resolution_from
max_resolution r ls = max_resolution_from r 1 ls

-- The capacity of a log: `long size = 1`, or the quotient where it is defined.
unfoldable pub log_size : LogType → ℕ
log_size l = if ltb 0 l.resolution then l.duration / l.resolution else 1

module _ (b : CircularBuffer) where
  -- `cpuLog`, `ramLog`, `hddLog`: the buffer, and the seconds since its last entry.
  abbrev pub LogMap : Type 0 → Type 0
  LogMap S = List (LogType × (b.Buffer S × ℕ))

  -- `initializeLoggingBuffers` of one resource.
  unfoldable pub initialize_logs_from : (S : Type 0) → Resource → LogMap S → List LogType → LogMap S
  unfolding log_size log_eq
  initialize_logs_from S r m [] = m
  initialize_logs_from S r m (l ∷ ls) =
      initialize_logs_from S r
        (if resource_eq l.resource r then insert log_eq l (b.create S (log_size l), 0) m else m) ls

  unfoldable pub initialize_logs : (S : Type 0) → Resource → List LogType → LogMap S
  unfolding initialize_logs_from
  initialize_logs S r ls = initialize_logs_from S r [] ls

  -- `getCpuLog`, `getRamLog`, `getHddLog`: `none` is `std::out_of_range`.
  unfoldable pub get_log : (S : Type 0) → LogType → LogMap S → Option (b.Buffer S)
  unfolding log_eq
  get_log S l m = elim (lookup log_eq l m) [ none ↦ none | some (x, n) ↦ some x ]

  -- The body of the loop of `processLogs`; `mean` is the getter of the means, which reads the samples.
  unfoldable pub process_log :
      (S : Type 0) → (ℕ → Option S) → LogType → b.Buffer S × ℕ → Option (b.Buffer S × ℕ)
  process_log S mean l (x, seconds) =
      if leb l.resolution (suc seconds)
      then elim (mean l.resolution) [ none ↦ none | some state ↦ some (b.push_back S state x, 0) ]
      else some (x, suc seconds)

  unfoldable pub process_logs : (S : Type 0) → (ℕ → Option S) → LogMap S → Option (LogMap S)
  unfolding process_log
  process_logs S mean [] = some []
  process_logs S mean ((l, e) ∷ m) = elim (process_log S mean l e) [
    | none ↦ none
    | some e' ↦ elim (process_logs S mean m) [ none ↦ none | some m' ↦ some ((l, e') ∷ m') ]
  ]
