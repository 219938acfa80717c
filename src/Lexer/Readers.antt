-- ===== src/Lexer/Readers.antt =====
-- The four kinds of series and what is collected when one has been read.
use native.Mathlib.Nat.{add_assoc, zero-add}
use mathlib.Core.List.{append_assoc}
use zpr_res_monitor.Prelude.{
  ℕ, ◌+◌, ◌≡◌, refl, ◌∙◌, ap, List, [], ◌∷◌, ◌++◌, Text, map, codes, arith,
}
use zpr_res_monitor.Config.Types.{ResourceValue}
use zpr_res_monitor.Lexer.State.{
  Condition, resource_set_env, trigger_duration_set_env, log_duration_set_env,
  log_resolution_set_env, Lexer, ok,
}
use zpr_res_monitor.Lexer.Rules.{
  Action, do_action, duration_number, push_value, push_trigger_duration, push_log_duration,
  push_resolution, do_push_value, do_push_trigger_duration, do_push_log_duration,
  do_push_resolution,
}
use zpr_res_monitor.Lexer.Decimal.{IsDigit}
use zpr_res_monitor.Lexer.Numbers.{Reads, trigger_set, log_set, resolution_set}
use zpr_res_monitor.Lexer.Syntax.{
  FitsValue, FitsDuration, Series, only, next, items, Element, element_seconds, total_seconds,
  put_value, put_duration,
}
use zpr_res_monitor.Lexer.Tokens.{Matches}
use zpr_res_monitor.Lexer.TriggerTokens.{push_value-Matches, push_trigger_duration-Matches}
use zpr_res_monitor.Lexer.LogTokens.{push_log_duration-Matches, push_resolution-Matches}
use zpr_res_monitor.Lexer.Series.{SeriesReader, read_series}
use zpr_res_monitor.Lexer.Items.{
  read_duration, read_value, read_element, reach_value, reach_duration, put_value-StartsWithDigit,
  put_duration-StartsWithDigit,
}

-- The amount of the last element.
abbrev pub last_amount : Series Element → ℕ
last_amount (only e) = e.amount
last_amount (next e es) = last_amount es

pub read_duration_lem :
    (d : Series Element) (s : Lexer)
    → read_duration d s ≡ record s {
      last_read_duration_element = last_amount d;
      current_duration_time = s.current_duration_time + total_seconds d;
    }
read_duration_lem (only e) s = refl
read_duration_lem (next e es) s =
    read_duration_lem es (read_element e s)
    ∙ ap (λ n. record s { last_read_duration_element = last_amount es; current_duration_time = n })
        (add_assoc s.current_duration_time (element_seconds e) (total_seconds es))

pub read_duration-condition :
    (d : Series Element) (s : Lexer) → (read_duration d s).condition ≡ s.condition
read_duration-condition d s = ap (λ x. x.condition) (read_duration_lem d s)

unfoldable pub value_reader : SeriesReader ResourceValue put_value FitsValue
unfolding do_action do_push_value
value_reader = record {
  condition = resource_set_env;
  ReadyFor = λ s. s.condition ≡ resource_set_env;
  read_item = read_value;
  comma_action = push_value;
  push = do_push_value;
  item_starts = put_value-StartsWithDigit;
  reach_item = λ v s behind fits at. reach_value v s behind fits at;
  item_condition = λ v s at. at;
  push-ReadyFor = λ v s at. at;
  comma_matches = push_value-Matches;
  comma_acts = λ text s. refl;
}

-- Durations, which a comma stores somewhere before it clears the current one.
abbrev duration_reader :
    (k : Condition)
    → Reads k duration_number
    → (a : Action) (push : Lexer → Lexer)
    → ((s : Lexer) → ((push s).condition ≡ s.condition) × ((push s).current_duration_time ≡ 0))
    → ((c : ℕ) → IsDigit c → (rest : Text) → Matches k (codes ", ") a (c ∷ rest))
    → ((text : Text) (s : Lexer) → do_action a text s ≡ ok (push s))
    → SeriesReader (Series Element) put_duration FitsDuration
duration_reader k r a push clears matched acts = record {
  condition = k;
  ReadyFor = λ s. (s.condition ≡ k) × (s.current_duration_time ≡ 0);
  read_item = read_duration;
  comma_action = a;
  push = push;
  item_starts = put_duration-StartsWithDigit;
  reach_item =
      λ d {rest} s behind fits ready. reach_duration r d rest s (omega (arith, ready.1)) ready.0;
  item_condition = λ d s ready. read_duration-condition d s ∙ ready.0;
  push-ReadyFor = λ d s ready. (
    (clears (read_duration d s)).0 ∙ read_duration-condition d s ∙ ready.0,
    (clears (read_duration d s)).1,
  );
  comma_matches = matched;
  comma_acts = acts;
}

unfoldable pub trigger_duration_reader : SeriesReader (Series Element) put_duration FitsDuration
unfolding do_action do_push_trigger_duration
trigger_duration_reader =
    duration_reader trigger_duration_set_env trigger_set push_trigger_duration
      do_push_trigger_duration (λ s. (refl, refl)) push_trigger_duration-Matches (λ text s. refl)

unfoldable pub log_duration_reader : SeriesReader (Series Element) put_duration FitsDuration
unfolding do_action do_push_log_duration
log_duration_reader =
    duration_reader log_duration_set_env log_set push_log_duration do_push_log_duration
      (λ s. (refl, refl)) push_log_duration-Matches (λ text s. refl)

unfoldable pub resolution_reader : SeriesReader (Series Element) put_duration FitsDuration
unfolding do_action do_push_resolution
resolution_reader =
    duration_reader log_resolution_set_env resolution_set push_resolution do_push_resolution
      (λ s. (refl, refl)) push_resolution-Matches (λ text s. refl)

abbrev pub last_item : {A : Type 0} → Series A → A
last_item (only a) = a
last_item (next a as') = last_item as'

-- The values that a series collects once the last one is pushed.
pub values_collected :
    (vs : Series ResourceValue) (s : Lexer)
    → do_push_value (read_series value_reader vs s) ≡ record s {
      current_resource_value = last_item vs;
      trigger_resource_values = s.trigger_resource_values ++ items vs;
    }
unfolding do_push_value value_reader
values_collected (only v) s = refl
values_collected (next v vs) s =
    values_collected vs (do_push_value (read_value v s))
    ∙ ap (λ l. record s { current_resource_value = last_item vs; trigger_resource_values = l })
        (append_assoc s.trigger_resource_values (v ∷ []) (items vs))

-- The state with durations behind those of a vector, the last amount read, and no current duration.
abbrev pub with_trigger_durations : ℕ → List ℕ → Lexer → Lexer
with_trigger_durations n ds s = record s {
  current_duration_time = 0;
  last_read_duration_element = n;
  trigger_duration_times = s.trigger_duration_times ++ ds;
}

abbrev pub with_log_durations : ℕ → List ℕ → Lexer → Lexer
with_log_durations n ds s = record s {
  current_duration_time = 0;
  last_read_duration_element = n;
  log_durations = s.log_durations ++ ds;
}

abbrev pub with_resolutions : ℕ → List ℕ → Lexer → Lexer
with_resolutions n ds s = record s {
  current_duration_time = 0;
  last_read_duration_element = n;
  log_resolutions = s.log_resolutions ++ ds;
}

pub trigger_duration_pushed :
    (d : Series Element) (s : Lexer)
    → s.current_duration_time ≡ 0
    → do_push_trigger_duration (read_duration d s)
      ≡ with_trigger_durations (last_amount d) (total_seconds d ∷ []) s
unfolding do_push_trigger_duration
trigger_duration_pushed d s z = rw (read_duration_lem d s, z, zero-add) refl

pub log_duration_pushed :
    (d : Series Element) (s : Lexer)
    → s.current_duration_time ≡ 0
    → do_push_log_duration (read_duration d s)
      ≡ with_log_durations (last_amount d) (total_seconds d ∷ []) s
unfolding do_push_log_duration
log_duration_pushed d s z = rw (read_duration_lem d s, z, zero-add) refl

pub resolution_pushed :
    (d : Series Element) (s : Lexer)
    → s.current_duration_time ≡ 0
    → do_push_resolution (read_duration d s)
      ≡ with_resolutions (last_amount d) (total_seconds d ∷ []) s
unfolding do_push_resolution
resolution_pushed d s z = rw (read_duration_lem d s, z, zero-add) refl

-- The durations that a series collects once the last one is pushed.
pub trigger_durations_collected :
    (ds : Series (Series Element)) (s : Lexer)
    → s.current_duration_time ≡ 0
    → do_push_trigger_duration (read_series trigger_duration_reader ds s)
      ≡ with_trigger_durations (last_amount (last_item ds)) (map total_seconds (items ds)) s
unfolding do_push_trigger_duration trigger_duration_reader
trigger_durations_collected (only d) s z = trigger_duration_pushed d s z
trigger_durations_collected (next d ds) s z =
    let n = last_amount (last_item ds) in
    let rest = map total_seconds (items ds) in
    trigger_durations_collected ds (do_push_trigger_duration (read_duration d s)) refl
    ∙ ap (with_trigger_durations n rest) (trigger_duration_pushed d s z)
    ∙ ap (λ l. record (with_trigger_durations n [] s) { trigger_duration_times = l })
        (append_assoc s.trigger_duration_times (total_seconds d ∷ []) rest)

pub log_durations_collected :
    (ds : Series (Series Element)) (s : Lexer)
    → s.current_duration_time ≡ 0
    → do_push_log_duration (read_series log_duration_reader ds s)
      ≡ with_log_durations (last_amount (last_item ds)) (map total_seconds (items ds)) s
unfolding do_push_log_duration log_duration_reader
log_durations_collected (only d) s z = log_duration_pushed d s z
log_durations_collected (next d ds) s z =
    let n = last_amount (last_item ds) in
    let rest = map total_seconds (items ds) in
    log_durations_collected ds (do_push_log_duration (read_duration d s)) refl
    ∙ ap (with_log_durations n rest) (log_duration_pushed d s z)
    ∙ ap (λ l. record (with_log_durations n [] s) { log_durations = l })
        (append_assoc s.log_durations (total_seconds d ∷ []) rest)

pub resolutions_collected :
    (ds : Series (Series Element)) (s : Lexer)
    → s.current_duration_time ≡ 0
    → do_push_resolution (read_series resolution_reader ds s)
      ≡ with_resolutions (last_amount (last_item ds)) (map total_seconds (items ds)) s
unfolding do_push_resolution resolution_reader
resolutions_collected (only d) s z = resolution_pushed d s z
resolutions_collected (next d ds) s z =
    let n = last_amount (last_item ds) in
    let rest = map total_seconds (items ds) in
    resolutions_collected ds (do_push_resolution (read_duration d s)) refl
    ∙ ap (with_resolutions n rest) (resolution_pushed d s z)
    ∙ ap (λ l. record (with_resolutions n [] s) { log_resolutions = l })
        (append_assoc s.log_resolutions (total_seconds d ∷ []) rest)
