-- ===== src/Lexer/LogLine.antt =====
-- Reading one line that describes logs.
use zpr_res_monitor.Prelude.{
  ◌<◌, ◌≡◌, refl, ◌∙◌, ap, List, ◌∷◌, ◌++◌, Text, All, map, codes, length, arith, subst,
}
use zpr_res_monitor.Config.Types.{Resource}
use zpr_res_monitor.Lexer.State.{
  Condition, initial, log_env, log_duration_set_env, log_duration_single_no_env,
  log_resolution_set_env, log_resolution_single_no_env, Lexer, ok, yy_push_state, yy_pop_state,
  produce_logs_crossproduct,
}
use zpr_res_monitor.Lexer.Rules.{
  do_action, do_push_log_duration, do_push_resolution, end_log, enter, log_resource,
  push_log_duration_end,
}
use zpr_res_monitor.Lexer.Product.{ended_log}
use zpr_res_monitor.Lexer.Reach.{Reaches, ◌then◌, reach_text}
use zpr_res_monitor.Lexer.Syntax.{
  FitsDuration, Series, Choice, single, braced, picked, Element, total_seconds, put_duration,
  put_choice, resource_text, put_line, log_line,
}
use zpr_res_monitor.Lexer.Numbers.{log_single, resolution_single}
use zpr_res_monitor.Lexer.Tokens.{Matches, LineStart}
use zpr_res_monitor.Lexer.LogTokens.{
  log-Matches, log_resource-Matches, for-Matches, for_open-Matches, resolution-Matches,
  resolution_open-Matches, push_log_duration_end-Matches, push_log_duration_single-Matches,
  end_log-Matches, end_log_open-Matches,
}
use zpr_res_monitor.Lexer.Series.{reach_series, series_starts}
use zpr_res_monitor.Lexer.Items.{reach_before_digit, reach_duration, put_duration-StartsWithDigit}
use zpr_res_monitor.Lexer.Readers.{
  log_duration_reader, resolution_reader, log_durations_collected, log_duration_pushed,
  resolutions_collected, resolution_pushed, with_log_durations, with_resolutions, last_amount,
}
use zpr_res_monitor.Lexer.TriggerLine.{last_choice, resource_text-pos}

-- The state after the durations of a line.
abbrev read_log_durations : Choice (Series Element) → Lexer → Lexer
read_log_durations ds s =
    with_log_durations (last_amount (last_choice ds)) (map total_seconds (picked ds)) s

-- The end of the durations, in the state where the last one is still to be pushed.
reach_log_durations_end :
    (k : Condition) (text rest : Text) (ds : Choice (Series Element)) (s x : Lexer) (c : Condition)
    (deeper : List Condition)
    → 0 < length text
    → Matches k text push_log_duration_end rest
    → s.condition ≡ k
    → s.stack ≡ c ∷ deeper
    → do_push_log_duration x ≡ read_log_durations ds s
    → Reaches
        (text ++ rest)
        x
        rest
        (record (read_log_durations ds s) { condition = c; stack = deeper })
unfolding do_action do_push_log_duration yy_pop_state
reach_log_durations_end k text rest ds s x c deeper some matched at below e =
    let at' : x.condition ≡ k = ap (λ y. y.condition) e ∙ at in
    let below' : x.stack ≡ c ∷ deeper = ap (λ y. y.stack) e ∙ below in
    let leave : Lexer → Lexer = λ y. record y { condition = c; stack = deeper } in
    subst (λ y. Reaches (text ++ rest) x rest y) (ap leave e)
      (reach_text k text rest x push_log_duration_end some at' matched (rw below' refl))

reach_log_durations :
    (ds : Choice (Series Element)) (rest : Text) (s : Lexer)
    → All FitsDuration (picked ds)
    → s.condition ≡ log_env
    → s.current_duration_time ≡ 0
    → Reaches
        (codes "for " ++ put_choice put_duration ds (codes " resolution " ++ rest))
        s
        (codes "resolution " ++ rest)
        (read_log_durations ds s)
unfolding do_action yy_push_state log_duration_reader
reach_log_durations (single d) rest s fits at z =
    let s1 = yy_push_state log_duration_single_no_env s in
    reach_before_digit log_env (codes "for ") _ s (omega arith) (put_duration-StartsWithDigit d _)
      at for-Matches refl
    then reach_duration log_single d (codes " resolution " ++ rest) s1 (omega (arith, z, fits.0))
        refl
    then reach_log_durations_end log_duration_single_no_env (codes " ")
        (codes "resolution " ++ rest) (single d) s1 _ s.condition s.stack (omega arith)
        (push_log_duration_single-Matches rest) refl refl (log_duration_pushed d s1 z)
reach_log_durations (braced ds) rest s fits at z =
    let s1 = yy_push_state log_duration_set_env s in
    reach_before_digit log_env (codes "for {") _ s (omega arith)
      (series_starts log_duration_reader ds _) at for_open-Matches refl
    then reach_series log_duration_reader ds (codes " resolution " ++ rest) s1 fits (refl, z)
    then reach_log_durations_end log_duration_set_env (codes "} ") (codes "resolution " ++ rest)
        (braced ds) s1 _ s.condition s.stack (omega arith) (push_log_duration_end-Matches rest) refl
        refl (log_durations_collected ds s1 z)

-- The state at the end of a line whose resolutions have been collected.
abbrev read_log_end : Choice (Series Element) → Condition → List Condition → Lexer → Lexer
read_log_end rs c deeper s =
    produce_logs_crossproduct
      (record (with_resolutions (last_amount (last_choice rs)) (map total_seconds (picked rs)) s) {
        condition = c;
        stack = deeper;
      })

do_action-end_log_ended :
    (text : Text) (s : Lexer) (c1 c2 : Condition) (deeper : List Condition)
    → s.stack ≡ c1 ∷ c2 ∷ deeper
    → do_action end_log text s ≡ ok (ended_log s c2 deeper)
unfolding do_action yy_pop_state do_push_resolution
do_action-end_log_ended text s c1 c2 deeper h = rw h refl

reach_log_end :
    (k : Condition) (text rest : Text) (rs : Choice (Series Element)) (s x : Lexer)
    (c1 c2 : Condition) (deeper : List Condition)
    → 0 < length text
    → Matches k text end_log rest
    → s.condition ≡ k
    → s.stack ≡ c1 ∷ c2 ∷ deeper
    → do_push_resolution x
      ≡ with_resolutions (last_amount (last_choice rs)) (map total_seconds (picked rs)) s
    → Reaches (text ++ rest) x rest (read_log_end rs c2 deeper s)
unfolding do_push_resolution
reach_log_end k text rest rs s x c1 c2 deeper some matched at below e =
    let at' : x.condition ≡ k = ap (λ y. y.condition) e ∙ at in
    let below' : x.stack ≡ c1 ∷ c2 ∷ deeper = ap (λ y. y.stack) e ∙ below in
    let leave : Lexer → Lexer =
      λ y. produce_logs_crossproduct (record y { condition = c2; stack = deeper }) in
    subst (λ y. Reaches (text ++ rest) x rest y) (ap leave e)
      (reach_text k text rest x end_log some at' matched
        (do_action-end_log_ended text x c1 c2 deeper below'))

reach_resolutions :
    (rs : Choice (Series Element)) {rest : Text} (s : Lexer) (c : Condition)
    (deeper : List Condition)
    → LineStart rest
    → All FitsDuration (picked rs)
    → s.condition ≡ log_env
    → s.stack ≡ c ∷ deeper
    → s.current_duration_time ≡ 0
    → Reaches
        (codes "resolution " ++ put_choice put_duration rs (codes "\n" ++ rest))
        s
        rest
        (read_log_end rs c deeper s)
unfolding do_action yy_push_state resolution_reader
reach_resolutions (single d) {rest} s c deeper line fits at below z =
    let s1 = yy_push_state log_resolution_single_no_env s in
    reach_before_digit log_env (codes "resolution ") _ s (omega arith)
      (put_duration-StartsWithDigit d _) at resolution-Matches refl
    then reach_duration resolution_single d (codes "\n" ++ rest) s1 (omega (arith, z, fits.0)) refl
    then reach_log_end log_resolution_single_no_env (codes "\n") rest (single d) s1 _ s.condition c
        deeper (omega arith) (end_log-Matches line) refl (ap (◌∷◌ s.condition) below)
        (resolution_pushed d s1 z)
reach_resolutions (braced rs) {rest} s c deeper line fits at below z =
    let s1 = yy_push_state log_resolution_set_env s in
    reach_before_digit log_env (codes "resolution {") _ s (omega arith)
      (series_starts resolution_reader rs _) at resolution_open-Matches refl
    then reach_series resolution_reader rs (codes "\n" ++ rest) s1 fits (refl, z)
    then reach_log_end log_resolution_set_env (codes "}\n") rest (braced rs) s1 _ s.condition c
        deeper (omega arith) (end_log_open-Matches line) refl (ap (◌∷◌ s.condition) below)
        (resolutions_collected rs s1 z)

-- The state after a line of logs.
abbrev pub read_log_line :
    Resource → Choice (Series Element) → Choice (Series Element) → Lexer → Lexer
read_log_line r ds rs s =
    let s1 = yy_push_state log_env s in
    let s2 = record s1 { current_log_type = record s1.current_log_type { resource = r } } in
    read_log_end rs s.condition s.stack (read_log_durations ds s2)

pub reach_log_line :
    (r : Resource) (ds rs : Choice (Series Element)) {rest : Text} (s : Lexer)
    → LineStart rest
    → All FitsDuration (picked ds)
    → All FitsDuration (picked rs)
    → s.condition ≡ initial
    → s.current_duration_time ≡ 0
    → Reaches (put_line (log_line r ds rs) rest) s rest (read_log_line r ds rs s)
unfolding do_action yy_push_state
reach_log_line r ds rs {rest} s line fits_durations fits at z =
    let behind = put_choice put_duration rs (codes "\n" ++ rest) in
    let s1 = yy_push_state log_env s in
    let s2 : Lexer = record s1 { current_log_type = record s1.current_log_type { resource = r } } in
    reach_text initial (codes "log ") _ s (enter log_env) (omega arith) at (log-Matches r _) refl
    then reach_text log_env (resource_text r) _ s1 (log_resource r) (resource_text-pos r) refl
        (log_resource-Matches r _) refl
    then reach_log_durations ds behind s2 fits_durations refl z
    then reach_resolutions rs (read_log_durations ds s2) s.condition s.stack line fits refl refl
        refl
