-- ===== src/Lexer/RoundTrip.antt =====
-- Reading a configuration that was written line by line.
use mathlib.Core.List.{append_assoc, append-nil}
use zpr_res_monitor.Prelude.{◌≡◌, refl, ◌∙◌, ap, sym, List, [], ◌∷◌, ◌++◌, Text, All, map}
use zpr_res_monitor.Config.Types.{TriggerType, LogType}
use zpr_res_monitor.Lexer.State.{
  initial, Lexer, reset_lexer, produce_triggers_crossproduct, produce_logs_crossproduct,
  yy_push_state,
}
use zpr_res_monitor.Lexer.Product.{triggers_product_lem, logs_product_lem}
use zpr_res_monitor.Lexer.Scan.{run, done}
use zpr_res_monitor.Lexer.Syntax.{
  Line, trigger_line, log_line, picked, total_seconds, put_line, put_lines, line_triggers,
  line_logs, all_triggers, all_logs, FitsLine, trigger_of, log_of,
}
use zpr_res_monitor.Lexer.Tokens.{LineStart, at_end, at_trigger, at_log}
use zpr_res_monitor.Lexer.Reach.{Reaches, reach_same, ◌then◌, reach_end}
use zpr_res_monitor.Lexer.TriggerLine.{reach_trigger_line, read_trigger_line}
use zpr_res_monitor.Lexer.LogLine.{reach_log_line, read_log_line}

-- A scanner between two lines.
pub record IsReady (s : Lexer) : Type 0 where
  pub in_initial : s.condition ≡ initial
  pub no_stack : s.stack ≡ []
  pub no_duration : s.current_duration_time ≡ 0
  pub no_values : s.trigger_resource_values ≡ []
  pub no_trigger_durations : s.trigger_duration_times ≡ []
  pub no_log_durations : s.log_durations ≡ []
  pub no_resolutions : s.log_resolutions ≡ []

-- What reading text does to the results, from one state between lines to another.
pub record Adds (s s' : Lexer) (triggers : List TriggerType) (logs : List LogType) : Type 0 where
  pub is_ready : IsReady s'
  pub triggers_added : s'.trigger_types ≡ s.trigger_types ++ triggers
  pub logs_added : s'.log_types ≡ s.log_types ++ logs
  pub nothing_echoed : s'.echoed ≡ s.echoed

abbrev read_line : Line → Lexer → Lexer
read_line (trigger_line r f vs ds) s = read_trigger_line r f vs ds s
read_line (log_line r ds rs) s = read_log_line r ds rs s

reach_line :
    (l : Line) {rest : Text} (s : Lexer)
    → LineStart rest
    → IsReady s
    → FitsLine l
    → Reaches (put_line l rest) s rest (read_line l s)
reach_line (trigger_line r f vs ds) s start ready fits =
    reach_trigger_line r f vs ds s start fits.0 fits.1 ready.in_initial ready.no_duration
reach_line (log_line r ds rs) s start ready fits =
    reach_log_line r ds rs s start fits.0 fits.1 ready.in_initial ready.no_duration

read_line-Adds :
    (l : Line) (s : Lexer) → IsReady s → Adds s (read_line l s) (line_triggers l) (line_logs l)
unfolding produce_triggers_crossproduct produce_logs_crossproduct yy_push_state
read_line-Adds (trigger_line r f vs ds) s ready =
    let t = s.current_trigger_type in
    record {
      is_ready = record {
        in_initial = ready.in_initial;
        no_stack = ready.no_stack;
        no_duration = refl;
        no_values = refl;
        no_trigger_durations = refl;
        no_log_durations = ready.no_log_durations;
        no_resolutions = ready.no_resolutions;
      };
      triggers_added = ap (◌++◌ s.trigger_types) (
          rw (ready.no_values, ready.no_trigger_durations)
            (triggers_product_lem (trigger_of r f t.trigger_value t.duration) (picked vs)
              (map total_seconds (picked ds))));
      logs_added = sym (append-nil s.log_types);
      nothing_echoed = refl;
    }
read_line-Adds (log_line r ds rs) s ready =
    let k = s.current_log_type in
    record {
      is_ready = record {
        in_initial = ready.in_initial;
        no_stack = ready.no_stack;
        no_duration = refl;
        no_values = ready.no_values;
        no_trigger_durations = ready.no_trigger_durations;
        no_log_durations = refl;
        no_resolutions = refl;
      };
      triggers_added = sym (append-nil s.trigger_types);
      logs_added = ap (◌++◌ s.log_types) (
          rw (ready.no_log_durations, ready.no_resolutions)
            (logs_product_lem (log_of r k.duration k.resolution) (map total_seconds (picked ds))
              (map total_seconds (picked rs))));
      nothing_echoed = refl;
    }

put_lines-LineStart : (ls : List Line) → LineStart (put_lines ls)
unfolding put_lines
put_lines-LineStart [] = at_end
put_lines-LineStart (trigger_line r f vs ds ∷ ls) = at_trigger _
put_lines-LineStart (log_line r ds rs ∷ ls) = at_log _

Adds-same : {s : Lexer} → IsReady s → Adds s s [] []
Adds-same {s} ready = record {
  is_ready = ready;
  triggers_added = sym (append-nil s.trigger_types);
  logs_added = sym (append-nil s.log_types);
  nothing_echoed = refl;
}

Adds-then :
    {s s1 s2 : Lexer} {ts us : List TriggerType} {ls ms : List LogType}
    → Adds s s1 ts ls
    → Adds s1 s2 us ms
    → Adds s s2 (ts ++ us) (ls ++ ms)
Adds-then {s} {ts = ts} {us = us} {ls = ls} {ms = ms} a b = record {
  is_ready = b.is_ready;
  triggers_added =
      b.triggers_added ∙ ap (λ l. l ++ us) a.triggers_added ∙ append_assoc s.trigger_types ts us;
  logs_added = b.logs_added ∙ ap (λ l. l ++ ms) a.logs_added ∙ append_assoc s.log_types ls ms;
  nothing_echoed = b.nothing_echoed ∙ a.nothing_echoed;
}

reach_lines :
    (ls : List Line) (s : Lexer)
    → IsReady s
    → All FitsLine ls
    → (s' : Lexer) × Reaches (put_lines ls) s [] s' × Adds s s' (all_triggers ls) (all_logs ls)
unfolding put_lines
reach_lines [] s ready fits = (s, reach_same, Adds-same ready)
reach_lines (l ∷ ls) s ready fits =
    let adds = read_line-Adds l s ready in
    let (s', reach, more) = reach_lines ls (read_line l s) adds.is_ready fits.1 in
    (s', reach_line l s (put_lines-LineStart ls) ready fits.0 then reach, Adds-then adds more)

-- A configuration that is written line by line and read by a scanner between two lines gives back the
-- triggers and the logs it means, in order and nothing else, echoes nothing, and leaves the scanner
-- between two lines, where every value is under 2^63 and every duration is under 2^63 seconds.
pub run-put_lines :
    (ls : List Line) (s : Lexer)
    → IsReady s
    → All FitsLine ls
    → (s' : Lexer) × (run (put_lines ls) s ≡ done s')
      × (s'.trigger_types ≡ all_triggers ls)
      × (s'.log_types ≡ all_logs ls)
      × (s'.echoed ≡ s.echoed)
      × IsReady s'
unfolding run reset_lexer
run-put_lines ls s ready fits =
    let ready' : IsReady (reset_lexer s) = record {
      in_initial = ready.in_initial;
      no_stack = ready.no_stack;
      no_duration = ready.no_duration;
      no_values = ready.no_values;
      no_trigger_durations = ready.no_trigger_durations;
      no_log_durations = ready.no_log_durations;
      no_resolutions = ready.no_resolutions;
    } in
    let (s', reach, adds) = reach_lines ls (reset_lexer s) ready' fits in
    (
      s',
      reach_end (put_lines ls) (reset_lexer s) reach,
      adds.triggers_added,
      adds.logs_added,
      adds.nothing_echoed,
      adds.is_ready,
    )
