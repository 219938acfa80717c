-- ===== src/Tests/Flex.antt =====
-- The generated scanner on a text and on a configuration that is written.
use zpr_res_monitor.Prelude.{◌≡◌, refl, some, [], ◌∷◌, Text, codes, All, arith}
use zpr_res_monitor.Config.Types.{percent, mb, cpu, memory, over}
use zpr_res_monitor.Lexer.State.{Lexer, trigger_env}
use zpr_res_monitor.Lexer.Scan.{next_match, done, run}
use zpr_res_monitor.Lexer.Rules.{trigger_resource}
use zpr_res_monitor.Lexer.Syntax.{put_lines, trigger_of, log_of}
use zpr_res_monitor.Lexer.RoundTrip.{IsReady}
use zpr_res_monitor.Flex.Classes.{IsByte}
use zpr_res_monitor.Flex.Machine.{flex_match}
use zpr_res_monitor.Flex.Simulation.{flex_match-next_match}
use zpr_res_monitor.Flex.Stream.{stream_run, stream_run-run}
use zpr_res_monitor.Flex.RoundTrip.{stream_run-put_lines}
use zpr_res_monitor.Tests.{new_lexer}
use zpr_res_monitor.Tests.RoundTrip.{two_lines, two_lines-FitsLine, new_lexer-IsReady}

-- The name of a resource.
abbrev a_name : Text
a_name = codes "CPU "

a_name-IsByte : All IsByte a_name
a_name-IsByte = (
  (omega arith, omega arith),
  ((omega arith, omega arith), ((omega arith, omega arith), ((omega arith, omega arith), tt))),
)

flex_match-next_match_example : flex_match trigger_env a_name ≡ some (next_match trigger_env a_name)
flex_match-next_match_example = flex_match-next_match trigger_env 67 (codes "PU ") a_name-IsByte

a_name_matched : flex_match trigger_env a_name ≡ some (trigger_resource cpu, 4)
unfolding flex_match
a_name_matched = refl

stream_run-put_lines_example :
    (s' : Lexer) × (stream_run (put_lines two_lines) new_lexer ≡ some (done s'))
    × (s'.trigger_types
        ≡ trigger_of cpu over (record { unit_type = percent; value = 70 }) 20
          ∷ trigger_of cpu over (record { unit_type = percent; value = 70 }) 62
          ∷ trigger_of cpu over (record { unit_type = mb; value = 80 }) 20
          ∷ trigger_of cpu over (record { unit_type = mb; value = 80 }) 62
          ∷ [])
    × (s'.log_types ≡ log_of memory 10800 30 ∷ [])
    × (s'.echoed ≡ [])
    × IsReady s'
stream_run-put_lines_example =
    stream_run-put_lines two_lines new_lexer new_lexer-IsReady two_lines-FitsLine

stream_run-run_example : stream_run a_name new_lexer ≡ some (run a_name new_lexer)
stream_run-run_example = stream_run-run a_name new_lexer a_name-IsByte
