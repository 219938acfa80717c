-- ===== src/Sampling/Triggers.antt =====
-- The trigger part of SamplingManager: `initializeTriggers`, `processTriggers`, `fireTrigger`.
pub mod Streak
pub mod Table
pub mod History
use zpr_res_monitor.Prelude.{
  ℕ, ◌+◌, ◌==◌, Bool, true, false, Option, none, some, List, [], ◌∷◌, ◌++◌, leb, if◌then◌else◌,
  insert,
}
use zpr_res_monitor.Double.{Double}
use zpr_res_monitor.Config.Types.{TriggerType, cpu, memory, disk, trigger_eq}
use zpr_res_monitor.State.Cpu.{CpuState, cpu_exceeds}
use zpr_res_monitor.State.Ram.{RamState, ram_exceeds}
use zpr_res_monitor.State.Hdd.{HddState, hdd_exceeds}

-- A call of one of the two callbacks that SamplingManager holds, in the order of the calls.
pub data Call : Type 0 where
  activate deactivate : TriggerType → Call

-- `triggerStates`: how many polls in a row exceeded each trigger.
abbrev pub TriggerStates : Type 0
TriggerStates = List (TriggerType × ℕ)

unfoldable pub initialize_triggers_from : TriggerStates → List TriggerType → TriggerStates
unfolding trigger_eq
initialize_triggers_from m [] = m
initialize_triggers_from m (t ∷ ts) = initialize_triggers_from (insert trigger_eq t 0 m) ts

unfoldable pub initialize_triggers : List TriggerType → TriggerStates
unfolding initialize_triggers_from
initialize_triggers ts = initialize_triggers_from [] ts

-- `fireTrigger`.
unfoldable pub fire_trigger : TriggerType → List Call
fire_trigger t = activate t ∷ []

-- The branch of a resource, which is the same for all three: count, or deactivate and start again.
unfoldable pub judge : Bool → TriggerType → ℕ → ℕ × List Call
judge true t n = (n + 1, [])
judge false t n = (0, if leb t.duration n then deactivate t ∷ [] else [])

-- The body of the loop over `triggerStates`, for a trigger that is exceeded or not.
unfoldable pub step_counter : Bool → TriggerType → ℕ → ℕ × List Call
unfolding judge fire_trigger
step_counter exceeded t n =
    let (m, calls) = judge exceeded t n in
    if m == t.duration then (0, calls ++ fire_trigger t) else (m, calls)

-- The last values read.
pub record Sample (W : Type 0) : Type 0 where
  pub last_cpu_state : CpuState W
  pub last_ram_state : RamState W
  pub last_hdd_state : HddState W

module _ {W : Type 0} ⦃d : Double W⦄ where
  -- The comparison that the branches on `trigger.resource` choose.
  unfoldable pub exceeds : Sample W → TriggerType → Option Bool
  unfolding cpu_exceeds ram_exceeds hdd_exceeds
  exceeds s t = elim t.resource [
    | cpu ↦ cpu_exceeds s.last_cpu_state t
    | memory ↦ some (ram_exceeds s.last_ram_state t)
    | disk ↦ hdd_exceeds s.last_hdd_state t
  ]

  -- `none` is a failed assertion, which aborts the process.
  unfoldable pub process_triggers : Sample W → TriggerStates → Option (TriggerStates × List Call)
  unfolding exceeds step_counter
  process_triggers s [] = some ([], [])
  process_triggers s ((t, n) ∷ m) = elim (exceeds s t) [
    | none ↦ none
    | some b ↦
        let (n', calls) = step_counter b t n in
        elim (process_triggers s m) [
          | none ↦ none
          | some (m', later) ↦ some ((t, n') ∷ m', calls ++ later)
        ]
  ]
