-- ===== src/Flex/RoundTrip.antt =====
-- What the generated scanner makes of a configuration that is written line by line.
use zpr_res_monitor.Prelude.{
  every, and_true, ℕ, ◌≡◌, refl, ◌∙◌, ap, Bool, true, ◌&&◌, some, List, [], ◌∷◌, ◌++◌, Text, codes,
  decimal, All, ltb, arith, subst, sym,
}
use zpr_res_monitor.Config.Types.{
  ResourceUnit, Resource, FluctuationType, percent, mb, gb, cpu, memory, disk, under, over,
}
use zpr_res_monitor.Lexer.State.{Lexer}
use zpr_res_monitor.Lexer.Scan.{done}
use zpr_res_monitor.Lexer.Decimal.{IsDigit, decimal-Digits}
use zpr_res_monitor.Lexer.Syntax.{
  only, next, single, braced, TimeUnit, seconds, minutes, hours, days, letter, Line, trigger_line,
  log_line, resource_text, fluctuation_text, unit_text, put_value, put_duration, put_series,
  put_choice, put_line, put_lines, all_triggers, all_logs, FitsLine,
}
use zpr_res_monitor.Lexer.RoundTrip.{IsReady, run-put_lines}
use zpr_res_monitor.Flex.Classes.{IsByte}
use zpr_res_monitor.Flex.Stream.{stream_run, stream_run-run}

abbrev is_byte : ℕ → Bool
is_byte c = ltb 0 c && ltb c 256

literal-IsByte :
    (cs rest : Text) → every is_byte cs ≡ true → All IsByte rest → All IsByte (cs ++ rest)
literal-IsByte [] rest h all = all
literal-IsByte (c ∷ cs) rest h all =
    let (first, others) = and_true (is_byte c) (every is_byte cs) h in
    ((ground (arith, first), ground (arith, first)), literal-IsByte cs rest others all)

digits-IsByte : (ds rest : Text) → All IsDigit ds → All IsByte rest → All IsByte (ds ++ rest)
digits-IsByte [] rest h all = all
digits-IsByte (d ∷ ds) rest h all =
    ((ground (arith, h.0), ground (arith, h.0)), digits-IsByte ds rest h.1 all)

decimal-IsByte : (n : ℕ) (rest : Text) → All IsByte rest → All IsByte (decimal n ++ rest)
decimal-IsByte n rest all =
    let d = decimal-Digits n in
    subst (λ cs. All IsByte (cs ++ rest)) (sym d.printed)
      (digits-IsByte (d.leading ∷ d.others) rest (d.leading-IsDigit, d.others-AllDigits) all)

unit_text-IsByte :
    (u : ResourceUnit) (rest : Text) → All IsByte rest → All IsByte (unit_text u ++ rest)
unit_text-IsByte percent rest all = literal-IsByte (codes "%") rest refl all
unit_text-IsByte mb rest all = literal-IsByte (codes "MB") rest refl all
unit_text-IsByte gb rest all = literal-IsByte (codes "GB") rest refl all

resource_text-IsByte :
    (r : Resource) (rest : Text) → All IsByte rest → All IsByte (resource_text r ++ rest)
resource_text-IsByte cpu rest all = literal-IsByte (codes "cpu ") rest refl all
resource_text-IsByte memory rest all = literal-IsByte (codes "memory ") rest refl all
resource_text-IsByte disk rest all = literal-IsByte (codes "disk ") rest refl all

fluctuation_text-IsByte :
    (f : FluctuationType) (rest : Text) → All IsByte rest → All IsByte (fluctuation_text f ++ rest)
fluctuation_text-IsByte under rest all = literal-IsByte (codes "under ") rest refl all
fluctuation_text-IsByte over rest all = literal-IsByte (codes "over ") rest refl all

letter-IsByte : (u : TimeUnit) → IsByte (letter u)
letter-IsByte seconds = (omega arith, omega arith)
letter-IsByte minutes = (omega arith, omega arith)
letter-IsByte hours = (omega arith, omega arith)
letter-IsByte days = (omega arith, omega arith)

-- A printer writes no NUL.
abbrev Clean : {A : Type 0} → (A → Text → Text) → Type 0
Clean {A} put = (a : A) (rest : Text) → All IsByte rest → All IsByte (put a rest)

put_value-Clean : Clean put_value
put_value-Clean v rest all =
    decimal-IsByte v.value (unit_text v.unit_type ++ rest) (unit_text-IsByte v.unit_type rest all)

put_duration-Clean : Clean put_duration
put_duration-Clean (only e) rest all =
    decimal-IsByte e.amount (letter e.time_unit ∷ rest) (letter-IsByte e.time_unit, all)
put_duration-Clean (next e es) rest all =
    decimal-IsByte e.amount (letter e.time_unit ∷ put_duration es rest)
      (letter-IsByte e.time_unit, put_duration-Clean es rest all)

put_series-Clean : {A : Type 0} (put : A → Text → Text) → Clean put → Clean (put_series put)
put_series-Clean put h (only a) rest all = h a rest all
put_series-Clean put h (next a as') rest all = h a (codes ", " ++ put_series put as' rest) (
    literal-IsByte (codes ", ") (put_series put as' rest) refl
      (put_series-Clean put h as' rest all))

put_choice-Clean : {A : Type 0} (put : A → Text → Text) → Clean put → Clean (put_choice put)
put_choice-Clean put h (single a) rest all = h a rest all
put_choice-Clean put h (braced as') rest all =
    literal-IsByte (codes "{") (put_series put as' (codes "}" ++ rest)) refl
      (put_series-Clean put h as' (codes "}" ++ rest) (literal-IsByte (codes "}") rest refl all))

abbrev durations-Clean : Clean (put_choice put_duration)
durations-Clean = put_choice-Clean put_duration put_duration-Clean

put_line-Clean : Clean put_line
put_line-Clean (trigger_line r f vs ds) rest all =
    let line_end = literal-IsByte (codes "\n") rest refl all in
    let durations = durations-Clean ds (codes "\n" ++ rest) line_end in
    let last = literal-IsByte (codes " last for ") _ refl durations in
    let values = put_choice-Clean put_value put_value-Clean vs _ last in
    literal-IsByte (codes "trigger ") _ refl
      (resource_text-IsByte r _ (fluctuation_text-IsByte f _ values))
put_line-Clean (log_line r ds rs) rest all =
    let line_end = literal-IsByte (codes "\n") rest refl all in
    let resolutions = durations-Clean rs (codes "\n" ++ rest) line_end in
    let middle = literal-IsByte (codes " resolution ") _ refl resolutions in
    let durations = durations-Clean ds _ middle in
    literal-IsByte (codes "log ") _ refl
      (resource_text-IsByte r _ (literal-IsByte (codes "for ") _ refl durations))

put_lines-IsByte : (ls : List Line) → All IsByte (put_lines ls)
unfolding put_lines
put_lines-IsByte [] = tt
put_lines-IsByte (l ∷ ls) = put_line-Clean l (put_lines ls) (put_lines-IsByte ls)

-- The generated scanner, between two lines, reads a configuration that is written line by line back as
-- the triggers and the logs it means, in order and nothing else, echoes nothing, reads inside of its
-- tables, and ends between two lines, where every value is under 2^63 and every duration is under 2^63
-- seconds.
pub stream_run-put_lines :
    (ls : List Line) (s : Lexer)
    → IsReady s
    → All FitsLine ls
    → (s' : Lexer) × (stream_run (put_lines ls) s ≡ some (done s'))
      × (s'.trigger_types ≡ all_triggers ls)
      × (s'.log_types ≡ all_logs ls)
      × (s'.echoed ≡ s.echoed)
      × IsReady s'
stream_run-put_lines ls s ready fits =
    let (s', e, triggers, logs, echoes, ready') = run-put_lines ls s ready fits in
    (
      s',
      stream_run-run (put_lines ls) s (put_lines-IsByte ls) ∙ ap some e,
      triggers,
      logs,
      echoes,
      ready',
    )
