-- ===== src/System/Boot.antt =====
-- `main`: from the text of the configuration to the running program.
use zpr_res_monitor.Prelude.{
  Bool, if◌then◌else◌, ℕ, ◌≡◌, true, Option, none, some, List, ◌∷◌, Text, All, map,
}
use zpr_res_monitor.Double.{Double}
use zpr_res_monitor.Config.Types.{
  ResourceValue, Resource, cpu, memory, disk, FluctuationType, TriggerType, LogType,
}
use zpr_res_monitor.Sampling.Buffer.{CircularBuffer}
use zpr_res_monitor.Sampling.Triggers.Table.{is_measurable}
use zpr_res_monitor.Lexer.State.{Lexer}
use zpr_res_monitor.Lexer.Scan.{done, failed, out_of_fuel}
use zpr_res_monitor.Lexer.Syntax.{Line, trigger_line, log_line, picked}
use zpr_res_monitor.Flex.Stream.{stream_run}
use zpr_res_monitor.Sampling.Logs.{log_size, max_resolution}
use zpr_res_monitor.System.{System, started}

-- The capacities of the buffers that the constructor of the manager makes: the samples of the three
-- resources, and the logs.
unfoldable pub capacities : List LogType → List ℕ
unfolding max_resolution log_size
capacities logs =
    max_resolution cpu logs
    ∷ max_resolution memory logs
    ∷ max_resolution disk logs
    ∷ map log_size logs

module _ (b : CircularBuffer) (W : Type 0) (allocates : List ℕ → Bool) where
  -- The parser runs on the text, and the manager is made from what it found; `none` is a scanner that
  -- fails, or a buffer whose constructor throws. `allocates` tells if boost and the memory allow
  -- buffers of some capacities.
  unfoldable pub boot_from : Text → Lexer → Option (List LogType × List TriggerType × System b W)
  unfolding stream_run started capacities
  boot_from cs s = elim (stream_run cs s) [
    | none ↦ none
    | some (done s') ↦
        if allocates (capacities s'.log_types)
        then some (s'.log_types, s'.trigger_types, started b W s'.log_types s'.trigger_types)
        else none
    | some (failed f) ↦ none
    | some out_of_fuel ↦ none
  ]

-- The unit suits the resource.
abbrev pub Suits : Resource → ResourceValue → Type 0
Suits r v =
    is_measurable (record {
      resource = r;
      fluctuation_type = FluctuationType.under;
      trigger_value = v;
      duration = 0;
    })
    ≡ true

abbrev pub SuitsLine : Line → Type 0
SuitsLine (trigger_line r f vs ds) = All (Suits r) (picked vs)
SuitsLine (log_line r ds rs) = Unit

abbrev IsMeasurable : TriggerType → Type 0
IsMeasurable t = is_measurable t ≡ true
