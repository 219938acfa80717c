-- ===== src/Lexer/State.antt =====
-- The globals of the scanner, its start conditions and their stack, and the bodies of the rules.
use zpr_res_monitor.Prelude.{
  ℕ, ◌+◌, ◌*◌, ◌-◌, ◌^◌, List, [], ◌∷◌, ◌++◌, Text, ltb, if◌then◌else◌, map,
}
use zpr_res_monitor.Config.Types.{ResourceValue, TriggerType, LogType}

-- The start conditions, all inclusive (`%s`).
pub data Condition : Type 0 where
  initial log_env trigger_env : Condition
  resource_set_env resource_single_no_env : Condition
  trigger_duration_set_env trigger_duration_single_no_env : Condition
  log_duration_set_env log_duration_single_no_env : Condition
  log_resolution_set_env log_resolution_single_no_env : Condition

pub record Lexer : Type 0 where
  pub current_duration_time : ℕ
  pub last_read_duration_element : ℕ
  pub current_trigger_type : TriggerType
  pub trigger_types : List TriggerType
  pub current_resource_value : ResourceValue
  pub trigger_resource_values : List ResourceValue
  pub trigger_duration_times : List ℕ
  pub current_log_type : LogType
  pub log_types : List LogType
  pub log_durations : List ℕ
  pub log_resolutions : List ℕ
  -- `YY_START` and `yy_start_stack`, the top first.
  pub condition : Condition
  pub stack : List Condition
  -- What the default rule echoed.
  pub echoed : Text

-- How the scanner fails: `yy_pop_state` on an empty stack ends the process; a `long` that overflows is
-- undefined.
pub data Fault : Type 0 where
  stack_underflow long_overflow : Fault

pub data Result {ℓ} (A : Type ℓ) : Type ℓ where
  ok : A → Result A
  fault : Fault → Result A

infixl 5 ◌>>=◌
abbrev pub ◌>>=◌ {ℓ κ} : {A : Type ℓ} {B : Type κ} → Result A → (A → Result B) → Result B
ok a >>= f = f a
fault e >>= f = fault e

abbrev pub long_limit : ℕ
long_limit = 2 ^ 63

abbrev pub long : ℕ → Result ℕ
long n = if ltb n long_limit then ok n else fault long_overflow

abbrev pub sec_in_min : ℕ
sec_in_min = 60

abbrev pub sec_in_hour : ℕ
sec_in_hour = 60 * sec_in_min

abbrev pub sec_in_day : ℕ
sec_in_day = 24 * sec_in_hour

-- The value of a text of digits.
unfoldable pub digits_value : ℕ → Text → ℕ
digits_value acc [] = acc
digits_value acc (c ∷ cs) = digits_value (acc * 10 + (c - 48)) cs

-- `atol` on what `{number}` matched.
unfoldable pub atol : Text → Result ℕ
unfolding digits_value
atol cs = long (digits_value 0 cs)

unfoldable pub yy_push_state : Condition → Lexer → Lexer
yy_push_state c s = record s { condition = c; stack = s.condition ∷ s.stack }

abbrev pop_onto : Lexer → List Condition → Result Lexer
pop_onto s [] = fault stack_underflow
pop_onto s (c ∷ cs) = ok (record s { condition = c; stack = cs })

unfoldable pub yy_pop_state : Lexer → Result Lexer
yy_pop_state s = pop_onto s s.stack

-- The two nested loops, resource values outside and durations inside.
unfoldable pub triggers_product : TriggerType → List ResourceValue → List ℕ → List TriggerType
triggers_product t [] ds = []
triggers_product t (v ∷ vs) ds =
    map (λ d. record t { trigger_value = v; duration = d }) ds ++ triggers_product t vs ds

-- `currentTriggerType` keeps what the last round of the loops wrote.
unfoldable pub last_trigger : TriggerType → List TriggerType → TriggerType
last_trigger t [] = t
last_trigger t (u ∷ us) = last_trigger u us

unfoldable pub produce_triggers_crossproduct : Lexer → Lexer
unfolding triggers_product last_trigger
produce_triggers_crossproduct s =
    let new =
      triggers_product s.current_trigger_type s.trigger_resource_values s.trigger_duration_times in
    record s {
      current_trigger_type = last_trigger s.current_trigger_type new;
      trigger_types = s.trigger_types ++ new;
      trigger_resource_values = [];
      trigger_duration_times = [];
    }

-- Durations outside and resolutions inside.
unfoldable pub logs_product : LogType → List ℕ → List ℕ → List LogType
logs_product l [] rs = []
logs_product l (d ∷ ds) rs =
    map (λ r. record l { resolution = r; duration = d }) rs ++ logs_product l ds rs

unfoldable pub last_log : LogType → List LogType → LogType
last_log l [] = l
last_log l (k ∷ ks) = last_log k ks

unfoldable pub produce_logs_crossproduct : Lexer → Lexer
unfolding logs_product last_log
produce_logs_crossproduct s =
    let new = logs_product s.current_log_type s.log_durations s.log_resolutions in
    record s {
      current_log_type = last_log s.current_log_type new;
      log_types = s.log_types ++ new;
      log_durations = [];
      log_resolutions = [];
    }

-- `resetLexer` clears the two result vectors and nothing else.
unfoldable pub reset_lexer : Lexer → Lexer
reset_lexer s = record s { trigger_types = []; log_types = [] }
