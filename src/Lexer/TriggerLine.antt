-- ===== src/Lexer/TriggerLine.antt =====
-- Reading one line that describes triggers.
use zpr_res_monitor.Prelude.{
  ◌<◌, ◌≡◌, refl, ◌∙◌, ap, List, ◌∷◌, ◌++◌, Text, All, map, codes, length, arith, subst,
}
use zpr_res_monitor.Config.Types.{
  ResourceValue, Resource, cpu, memory, disk, FluctuationType, under, over,
}
use zpr_res_monitor.Lexer.State.{
  Condition, initial, resource_set_env, resource_single_no_env, trigger_env,
  trigger_duration_set_env, trigger_duration_single_no_env, Lexer, ok, yy_push_state, yy_pop_state,
  produce_triggers_crossproduct,
}
use zpr_res_monitor.Lexer.Rules.{
  do_action, do_push_value, do_push_trigger_duration, push_value_end, end_trigger, enter,
  trigger_resource,
}
use zpr_res_monitor.Lexer.Product.{ended}
use zpr_res_monitor.Lexer.Reach.{Reaches, ◌then◌, reach_text}
use zpr_res_monitor.Lexer.Syntax.{
  FitsDuration, FitsValue, Series, Choice, single, braced, picked, Element, total_seconds,
  put_value, put_duration, put_choice, fluctuation_text, resource_text, put_line, trigger_line,
}
use zpr_res_monitor.Lexer.Numbers.{trigger_single}
use zpr_res_monitor.Lexer.Tokens.{Matches, LineStart}
use zpr_res_monitor.Lexer.TriggerTokens.{
  fluctuation-Matches, fluctuation_open-Matches, push_value_end-Matches, last_for-Matches,
  last_for_open-Matches, end_trigger-Matches, end_trigger_open-Matches, trigger-Matches,
  trigger_resource-Matches,
}
use zpr_res_monitor.Lexer.Series.{reach_series, series_starts, read_series}
use zpr_res_monitor.Lexer.Items.{
  StartsWithDigit, reach_before_digit, reach_value_single, reach_duration,
  put_value-StartsWithDigit, put_duration-StartsWithDigit,
}
use zpr_res_monitor.Lexer.Readers.{
  value_reader, trigger_duration_reader, values_collected, trigger_durations_collected,
  trigger_duration_pushed, with_trigger_durations, last_item, last_amount,
}

abbrev pub last_choice : {A : Type 0} → Choice A → A
last_choice (single a) = a
last_choice (braced as') = last_item as'

-- The state with a fluctuation set, and the same inside the values.
abbrev with_fluctuation : FluctuationType → Lexer → Lexer
with_fluctuation f s = record s {
  current_trigger_type = record s.current_trigger_type { fluctuation_type = f };
}

-- The state after the fluctuation and the values of a line.
abbrev pub read_values : FluctuationType → Choice ResourceValue → Lexer → Lexer
read_values f vs s = record (with_fluctuation f s) {
  current_resource_value = last_choice vs;
  trigger_resource_values = s.trigger_resource_values ++ picked vs;
}

reach_fluctuation :
    (f : FluctuationType) {rest : Text} (s : Lexer)
    → StartsWithDigit rest
    → s.condition ≡ trigger_env
    → Reaches
        (fluctuation_text f ++ rest)
        s
        rest
        (yy_push_state resource_single_no_env (with_fluctuation f s))
unfolding do_action
reach_fluctuation under s d at =
    reach_before_digit trigger_env (codes "under ") _ s (omega arith) d at
      (fluctuation-Matches under) refl
reach_fluctuation over s d at =
    reach_before_digit trigger_env (codes "over ") _ s (omega arith) d at (fluctuation-Matches over)
      refl

reach_fluctuation_open :
    (f : FluctuationType) {rest : Text} (s : Lexer)
    → StartsWithDigit rest
    → s.condition ≡ trigger_env
    → Reaches
        (fluctuation_text f ++ (codes "{" ++ rest))
        s
        rest
        (yy_push_state resource_set_env (with_fluctuation f s))
unfolding do_action
reach_fluctuation_open under s d at =
    reach_before_digit trigger_env (codes "under {") _ s (omega arith) d at
      (fluctuation_open-Matches under) refl
reach_fluctuation_open over s d at =
    reach_before_digit trigger_env (codes "over {") _ s (omega arith) d at
      (fluctuation_open-Matches over) refl

-- The brace behind values pushes the last one and leaves the state.
reach_values_end :
    (rest : Text) (s : Lexer) (k : Condition) (stack : List Condition)
    → s.condition ≡ resource_set_env
    → s.stack ≡ k ∷ stack
    → Reaches
        (codes "} last for " ++ rest)
        s
        (codes "last for " ++ rest)
        (record (do_push_value s) { condition = k; stack = stack })
unfolding do_action do_push_value yy_pop_state
reach_values_end rest s k stack at below =
    reach_text resource_set_env (codes "} ") _ s push_value_end (omega arith) at
      (push_value_end-Matches rest) (rw below refl)

pub reach_values :
    (f : FluctuationType) (vs : Choice ResourceValue) (rest : Text) (s : Lexer)
    → All FitsValue (picked vs)
    → s.condition ≡ trigger_env
    → Reaches
        (fluctuation_text f ++ put_choice put_value vs (codes " last for " ++ rest))
        s
        (codes "last for " ++ rest)
        (read_values f vs s)
unfolding do_push_value yy_push_state value_reader
reach_values f (single v) rest s fits at =
    reach_fluctuation f s (put_value-StartsWithDigit v _) at
    then reach_value_single v rest _ s.condition s.stack fits.0 refl refl
reach_values f (braced vs) rest s fits at =
    let s1 = yy_push_state resource_set_env (with_fluctuation f s) in
    let e = values_collected vs s1 in
    let leave : Lexer → Lexer = λ x. record x { condition = s.condition; stack = s.stack } in
    reach_fluctuation_open f s (series_starts value_reader vs _) at
    then reach_series value_reader vs (codes " last for " ++ rest) s1 fits refl
    then subst
        (λ x.
          Reaches (codes "} last for " ++ rest) (read_series value_reader vs s1)
            (codes "last for " ++ rest) x)
        (ap leave e)
        (reach_values_end rest _ s.condition s.stack (ap (λ x. x.condition) e)
          (ap (λ x. x.stack) e))

-- The state at the end of a line whose durations have been collected.
abbrev read_trigger_end : Choice (Series Element) → Condition → List Condition → Lexer → Lexer
read_trigger_end ds c deeper s =
    produce_triggers_crossproduct
      (record (with_trigger_durations (last_amount (last_choice ds)) (map total_seconds (picked ds))
        s) { condition = c; stack = deeper })

do_action-end_trigger_ended :
    (text : Text) (s : Lexer) (c1 c2 : Condition) (deeper : List Condition)
    → s.stack ≡ c1 ∷ c2 ∷ deeper
    → do_action end_trigger text s ≡ ok (ended s c2 deeper)
unfolding do_action yy_pop_state do_push_trigger_duration
do_action-end_trigger_ended text s c1 c2 deeper h = rw h refl

-- The end of a line, in the state where its last duration is still to be pushed.
reach_trigger_end :
    (k : Condition) (text rest : Text) (ds : Choice (Series Element)) (s x : Lexer)
    (c1 c2 : Condition) (deeper : List Condition)
    → 0 < length text
    → Matches k text end_trigger rest
    → s.condition ≡ k
    → s.stack ≡ c1 ∷ c2 ∷ deeper
    → do_push_trigger_duration x
      ≡ with_trigger_durations (last_amount (last_choice ds)) (map total_seconds (picked ds)) s
    → Reaches (text ++ rest) x rest (read_trigger_end ds c2 deeper s)
unfolding do_push_trigger_duration
reach_trigger_end k text rest ds s x c1 c2 deeper some matched at below e =
    let at' : x.condition ≡ k = ap (λ y. y.condition) e ∙ at in
    let below' : x.stack ≡ c1 ∷ c2 ∷ deeper = ap (λ y. y.stack) e ∙ below in
    let leave : Lexer → Lexer =
      λ y. produce_triggers_crossproduct (record y { condition = c2; stack = deeper }) in
    subst (λ y. Reaches (text ++ rest) x rest y) (ap leave e)
      (reach_text k text rest x end_trigger some at' matched
        (do_action-end_trigger_ended text x c1 c2 deeper below'))

pub reach_trigger_durations :
    (ds : Choice (Series Element)) {rest : Text} (s : Lexer) (c : Condition)
    (deeper : List Condition)
    → LineStart rest
    → All FitsDuration (picked ds)
    → s.condition ≡ trigger_env
    → s.stack ≡ c ∷ deeper
    → s.current_duration_time ≡ 0
    → Reaches
        (codes "last for " ++ put_choice put_duration ds (codes "\n" ++ rest))
        s
        rest
        (read_trigger_end ds c deeper s)
unfolding do_action yy_push_state trigger_duration_reader
reach_trigger_durations (single d) {rest} s c deeper line fits at below z =
    let s1 = yy_push_state trigger_duration_single_no_env s in
    reach_before_digit trigger_env (codes "last for ") _ s (omega arith)
      (put_duration-StartsWithDigit d _) at last_for-Matches refl
    then reach_duration trigger_single d (codes "\n" ++ rest) s1 (omega (arith, z, fits.0)) refl
    then reach_trigger_end trigger_duration_single_no_env (codes "\n") rest (single d) s1 _
        s.condition c deeper (omega arith) (end_trigger-Matches line) refl
        (ap (◌∷◌ s.condition) below) (trigger_duration_pushed d s1 z)
reach_trigger_durations (braced ds) {rest} s c deeper line fits at below z =
    let s1 = yy_push_state trigger_duration_set_env s in
    reach_before_digit trigger_env (codes "last for {") _ s (omega arith)
      (series_starts trigger_duration_reader ds _) at last_for_open-Matches refl
    then reach_series trigger_duration_reader ds (codes "\n" ++ rest) s1 fits (refl, z)
    then reach_trigger_end trigger_duration_set_env (codes "}\n") rest (braced ds) s1 _ s.condition
        c deeper (omega arith) (end_trigger_open-Matches line) refl (ap (◌∷◌ s.condition) below)
        (trigger_durations_collected ds s1 z)

-- The state after a line of triggers.
abbrev pub read_trigger_line :
    Resource → FluctuationType → Choice ResourceValue → Choice (Series Element) → Lexer → Lexer
read_trigger_line r f vs ds s =
    let s1 = yy_push_state trigger_env s in
    let s2 = record s1 { current_trigger_type = record s1.current_trigger_type { resource = r } } in
    read_trigger_end ds s.condition s.stack (read_values f vs s2)

pub resource_text-pos : (r : Resource) → 0 < length (resource_text r)
resource_text-pos cpu = omega arith
resource_text-pos memory = omega arith
resource_text-pos disk = omega arith

pub reach_trigger_line :
    (r : Resource) (f : FluctuationType) (vs : Choice ResourceValue) (ds : Choice (Series Element))
    {rest : Text} (s : Lexer)
    → LineStart rest
    → All FitsValue (picked vs)
    → All FitsDuration (picked ds)
    → s.condition ≡ initial
    → s.current_duration_time ≡ 0
    → Reaches (put_line (trigger_line r f vs ds) rest) s rest (read_trigger_line r f vs ds s)
unfolding do_action yy_push_state
reach_trigger_line r f vs ds {rest} s line fits_values fits at z =
    let behind = put_choice put_duration ds (codes "\n" ++ rest) in
    let s1 = yy_push_state trigger_env s in
    let s2 : Lexer = record s1 {
      current_trigger_type = record s1.current_trigger_type { resource = r };
    } in
    reach_text initial (codes "trigger ") _ s (enter trigger_env) (omega arith) at
      (trigger-Matches r _) refl
    then reach_text trigger_env (resource_text r) _ s1 (trigger_resource r) (resource_text-pos r)
        refl (trigger_resource-Matches r f _) refl
    then reach_values f vs behind s2 fits_values refl
    then reach_trigger_durations ds (read_values f vs s2) s.condition s.stack line fits refl refl z
