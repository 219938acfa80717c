-- ===== src/Tests/RoundTrip.antt =====
-- A configuration that is written and read back.
use zpr_res_monitor.Prelude.{
  All, Bool, true, ◌&&◌, leb, ℕ, ◌≡◌, refl, List, [], ◌∷◌, codes, Text, ◌<◌, arith,
}
use zpr_res_monitor.Config.Types.{percent, mb, cpu, memory, over}
use zpr_res_monitor.Lexer.Syntax.{
  Line, trigger_line, log_line, single, braced, only, next, seconds, minutes, hours, put_lines,
  FitsLine, all_triggers,
}
use zpr_res_monitor.Prelude.{Option}
use zpr_res_monitor.Sampling.Buffer.{list_buffer}
use zpr_res_monitor.System.{System, started}
use zpr_res_monitor.Tests.Numbers.{whole}
use zpr_res_monitor.Lexer.RoundTrip.{IsReady}
use zpr_res_monitor.Tests.{new_lexer}

abbrev pub two_lines : List Line
two_lines =
    trigger_line cpu over
      (braced (
        next (record { unit_type = percent; value = 70 })
          (only (record { unit_type = mb; value = 80 }))))
      (braced (
        next (only (record { amount = 20; time_unit = seconds })) (
          only (
            next (record { amount = 1; time_unit = minutes })
              (only (record { amount = 2; time_unit = seconds }))))))
    ∷ log_line memory (single (only (record { amount = 3; time_unit = hours })))
        (single (only (record { amount = 30; time_unit = seconds })))
    ∷ []

put_lines_text :
    put_lines two_lines
    ≡ codes "trigger cpu over {70%, 80MB} last for {20s, 1m2s}\nlog memory for 3h resolution 30s\n"
unfolding put_lines zpr_res_monitor.Prelude.decimal
put_lines_text = refl

pub new_lexer-IsReady : IsReady new_lexer
new_lexer-IsReady = record {
  in_initial = refl;
  no_stack = refl;
  no_duration = refl;
  no_values = refl;
  no_trigger_durations = refl;
  no_log_durations = refl;
  no_resolutions = refl;
}

pub two_lines-FitsLine : All FitsLine two_lines
two_lines-FitsLine = (
  ((omega arith, (omega arith, tt)), (omega arith, (omega arith, tt))),
  (((omega arith, tt), (omega arith, tt)), tt),
)

-- The same lines with the units that suit: a start of the program on them.
abbrev one_line : List Line
one_line =
    trigger_line cpu over (single (record { unit_type = percent; value = 70 }))
      (single (only (record { amount = 20; time_unit = seconds })))
    ∷ []

abbrev one_started : System list_buffer ℕ
one_started = started list_buffer ℕ [] (all_triggers one_line)

-- Buffers of up to a million elements.
abbrev million : List ℕ → Bool
million [] = true
million (n ∷ ns) = leb n 1_000_000 && million ns
