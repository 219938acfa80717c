-- ===== src/Lexer/Items.antt =====
-- Reading one element, one duration and one value.
use zpr_res_monitor.Prelude.{
  ℕ, ◌+◌, ◌<◌, ◌≤◌, ◌≡◌, refl, ap, List, [], ◌∷◌, ◌++◌, Text, codes, length, arith, true, decimal,
  ltb,
}
use zpr_res_monitor.Config.Types.{ResourceValue, ResourceUnit, percent, mb, gb}
use zpr_res_monitor.Lexer.Pattern.{span, is_digit}
use zpr_res_monitor.Lexer.State.{
  Condition, resource_set_env, resource_single_no_env, yy_pop_state, Lexer, ok, long_limit,
}
use zpr_res_monitor.Lexer.Rules.{
  Action, do_push_value, value_unit_end, do_action, value_number, duration_number, value_unit,
  add_duration,
}
use zpr_res_monitor.Lexer.Reach.{Reaches, reach_token, reach_text, ◌then◌}
use zpr_res_monitor.Lexer.Decimal.{IsDigit, decimal-Digits}
use zpr_res_monitor.Lexer.Numbers.{Reads, value_set, value_single, reach_number, store_number}
use zpr_res_monitor.Lexer.Syntax.{
  Series, only, next, Element, TimeUnit, seconds, minutes, hours, days, in_seconds, letter,
  element_seconds, total_seconds, put_value, put_element, put_duration, unit_text,
}
use zpr_res_monitor.Lexer.Tokens.{Matches, add_duration-Matches}
use zpr_res_monitor.Lexer.TriggerTokens.{
  value_unit_comma-Matches, value_unit_brace-Matches, value_unit_end-Matches,
}

-- A text that begins with a digit.
pub record StartsWithDigit (text : Text) : Type 0 where
  pub digit : ℕ
  pub others : Text
  pub written : text ≡ digit ∷ others
  pub digit-IsDigit : IsDigit digit

decimal-StartsWithDigit : (n : ℕ) (rest : Text) → StartsWithDigit (decimal n ++ rest)
decimal-StartsWithDigit n rest =
    let d = decimal-Digits n in
    record {
      digit = d.leading;
      others = d.others ++ rest;
      written = ap (λ t. t ++ rest) d.printed;
      digit-IsDigit = d.leading-IsDigit;
    }

pub put_value-StartsWithDigit :
    (v : ResourceValue) (rest : Text) → StartsWithDigit (put_value v rest)
put_value-StartsWithDigit v rest = decimal-StartsWithDigit v.value _

pub put_duration-StartsWithDigit :
    (d : Series Element) (rest : Text) → StartsWithDigit (put_duration d rest)
put_duration-StartsWithDigit (only e) rest = decimal-StartsWithDigit e.amount _
put_duration-StartsWithDigit (next e es) rest = decimal-StartsWithDigit e.amount _

-- A token in front of a digit.
pub reach_before_digit :
    (k : Condition) (text : Text) {rest : Text} (a : Action) (s : Lexer) {s' : Lexer}
    → 0 < length text
    → StartsWithDigit rest
    → s.condition ≡ k
    → ((c : ℕ) → IsDigit c → (others : Text) → Matches k text a (c ∷ others))
    → do_action a text s ≡ ok s'
    → Reaches (text ++ rest) s rest s'
reach_before_digit k text {rest} a s some d at matched acted =
    let matched' : Matches k text a rest =
      rw d.written (matched d.digit d.digit-IsDigit d.others) in
    reach_text k text rest s a some at matched' acted

-- What reading an element, a duration and a value does to the state.
abbrev pub read_element : Element → Lexer → Lexer
read_element e s = record s {
  last_read_duration_element = e.amount;
  current_duration_time = s.current_duration_time + element_seconds e;
}

abbrev pub read_duration : Series Element → Lexer → Lexer
read_duration (only e) s = read_element e s
read_duration (next e es) s = read_duration es (read_element e s)

abbrev pub read_value : ResourceValue → Lexer → Lexer
read_value v s = record s { current_resource_value = v }

amount-le : (e : Element) → e.amount ≤ element_seconds e
amount-le e = ground arith

do_action-add_duration :
    (e : Element) (text : Text) (s : Lexer)
    → s.current_duration_time + element_seconds e < long_limit
    → do_action
        (add_duration (in_seconds e.time_unit))
        text
        (store_number duration_number e.amount s)
      ≡ ok (read_element e s)
unfolding do_action
do_action-add_duration e text s h =
    let fits : ltb (element_seconds e) long_limit ≡ true = ground arith in
    let fits' : ltb (s.current_duration_time + element_seconds e) long_limit ≡ true =
      ground arith in
    rw (fits, fits') refl

span-letter : (u : TimeUnit) (rest : Text) → span is_digit (letter u ∷ rest) ≡ 0
span-letter seconds rest = refl
span-letter minutes rest = refl
span-letter hours rest = refl
span-letter days rest = refl

reach_element :
    {k : Condition}
    → Reads k duration_number
    → (e : Element) (rest : Text) (s : Lexer)
    → s.current_duration_time + element_seconds e < long_limit
    → s.condition ≡ k
    → Reaches (put_element e rest) s rest (read_element e s)
reach_element {k} r e rest s h at =
    let small = amount-le e in
    reach_number r e.amount (letter e.time_unit ∷ rest) s (omega arith)
      (span-letter e.time_unit rest) at
    then reach_token k (letter e.time_unit) [] rest _ (add_duration (in_seconds e.time_unit)) at
        (add_duration-Matches r e.time_unit rest)
        (do_action-add_duration e (letter e.time_unit ∷ []) s h)

pub reach_duration :
    {k : Condition}
    → Reads k duration_number
    → (d : Series Element) (rest : Text) (s : Lexer)
    → s.current_duration_time + total_seconds d < long_limit
    → s.condition ≡ k
    → Reaches (put_duration d rest) s rest (read_duration d s)
reach_duration r (only e) rest s h at = reach_element r e rest s h at
reach_duration r (next e es) rest s h at =
    reach_element r e (put_duration es rest) s (omega arith) at
    then reach_duration r es rest (read_element e s) (omega arith) at

-- What stands behind an item of a series.
pub data Behind : Text → Type 0 where
  comma : (rest : Text) → Behind (codes ", " ++ rest)
  brace : (rest : Text) → Behind (codes "}" ++ rest)

unit_text-pos : (u : ResourceUnit) → 0 < length (unit_text u)
unit_text-pos percent = omega arith
unit_text-pos mb = omega arith
unit_text-pos gb = omega arith

span-unit_text : (u : ResourceUnit) (rest : Text) → span is_digit (unit_text u ++ rest) ≡ 0
span-unit_text percent rest = refl
span-unit_text mb rest = refl
span-unit_text gb rest = refl

value_unit-Matches :
    (u : ResourceUnit) {rest : Text}
    → Behind rest
    → Matches resource_set_env (unit_text u) (value_unit u) rest
value_unit-Matches u (comma rest) = value_unit_comma-Matches u rest
value_unit-Matches u (brace rest) = value_unit_brace-Matches u rest

pub reach_value :
    (v : ResourceValue) {rest : Text} (s : Lexer)
    → Behind rest
    → v.value < long_limit
    → s.condition ≡ resource_set_env
    → Reaches (put_value v rest) s rest (read_value v s)
unfolding do_action
reach_value v {rest} s behind h at =
    let u = v.unit_type in
    reach_number value_set v.value (unit_text u ++ rest) s h (span-unit_text u rest) at
    then reach_text resource_set_env (unit_text u) rest _ (value_unit u) (unit_text-pos u) at
        (value_unit-Matches u behind) refl

-- A value that stands alone is pushed, and the state is left.
abbrev pub read_value_single : ResourceValue → Condition → List Condition → Lexer → Lexer
read_value_single v k stack s = record (do_push_value (read_value v s)) {
  condition = k;
  stack = stack;
}

reach_unit_end :
    (n : ℕ) (u : ResourceUnit) (rest : Text) (s : Lexer) (k : Condition) (stack : List Condition)
    → s.condition ≡ resource_single_no_env
    → s.stack ≡ k ∷ stack
    → Reaches
        (unit_text u ++ (codes " last for " ++ rest))
        (store_number value_number n s)
        (codes "last for " ++ rest)
        (read_value_single (record { unit_type = u; value = n }) k stack s)
unfolding do_action do_push_value yy_pop_state
reach_unit_end n percent rest s k stack at below =
    reach_text resource_single_no_env (codes "% ") _ _ (value_unit_end percent) (omega arith) at
      (value_unit_end-Matches percent rest) (rw below refl)
reach_unit_end n mb rest s k stack at below =
    reach_text resource_single_no_env (codes "MB ") _ _ (value_unit_end mb) (omega arith) at
      (value_unit_end-Matches mb rest) (rw below refl)
reach_unit_end n gb rest s k stack at below =
    reach_text resource_single_no_env (codes "GB ") _ _ (value_unit_end gb) (omega arith) at
      (value_unit_end-Matches gb rest) (rw below refl)

pub reach_value_single :
    (v : ResourceValue) (rest : Text) (s : Lexer) (k : Condition) (stack : List Condition)
    → v.value < long_limit
    → s.condition ≡ resource_single_no_env
    → s.stack ≡ k ∷ stack
    → Reaches
        (put_value v (codes " last for " ++ rest))
        s
        (codes "last for " ++ rest)
        (read_value_single v k stack s)
reach_value_single v rest s k stack h at below =
    let u = v.unit_type in
    reach_number value_single v.value (unit_text u ++ (codes " last for " ++ rest)) s h
      (span-unit_text u _) at
    then reach_unit_end v.value u rest s k stack at below
