-- ===== src/Lexer/Syntax.antt =====
-- The lines of a configuration file as data, the text they are written as, and the records they mean.
use zpr_res_monitor.Prelude.{ℕ, ◌+◌, ◌*◌, ◌<◌, All, map, List, [], ◌∷◌, ◌++◌, Text, codes, decimal}
use zpr_res_monitor.Config.Types.{
  ResourceUnit, ResourceValue, Resource, FluctuationType, TriggerType, LogType, percent, mb, gb,
  cpu, memory, disk, under, over,
}
use zpr_res_monitor.Lexer.State.{long_limit, sec_in_min, sec_in_hour, sec_in_day}
use zpr_res_monitor.Lexer.Product.{product}

-- One item or more.
pub data Series {ℓ} (A : Type ℓ) : Type ℓ where
  only : A → Series A
  next : A → Series A → Series A

abbrev pub items {ℓ} : {A : Type ℓ} → Series A → List A
items (only a) = a ∷ []
items (next a as') = a ∷ items as'

-- An item as it stands, or items in braces.
pub data Choice {ℓ} (A : Type ℓ) : Type ℓ where
  single : A → Choice A
  braced : Series A → Choice A

abbrev pub picked {ℓ} : {A : Type ℓ} → Choice A → List A
picked (single a) = a ∷ []
picked (braced as') = items as'

pub data TimeUnit : Type 0 where
  seconds minutes hours days : TimeUnit

abbrev pub in_seconds : TimeUnit → ℕ
in_seconds seconds = 1
in_seconds minutes = sec_in_min
in_seconds hours = sec_in_hour
in_seconds days = sec_in_day

abbrev pub letter : TimeUnit → ℕ
letter seconds = 115
letter minutes = 109
letter hours = 104
letter days = 100

-- `2m` in `1h2m`.
pub record Element : Type 0 where
  pub amount : ℕ
  pub time_unit : TimeUnit

abbrev pub element_seconds : Element → ℕ
element_seconds e = e.amount * in_seconds e.time_unit

abbrev pub total_seconds : Series Element → ℕ
total_seconds (only e) = element_seconds e
total_seconds (next e es) = element_seconds e + total_seconds es

pub data Line : Type 0 where
  trigger_line : Resource → FluctuationType → Choice ResourceValue → Choice (Series Element) → Line
  log_line : Resource → Choice (Series Element) → Choice (Series Element) → Line

abbrev pub resource_text : Resource → Text
resource_text cpu = codes "cpu "
resource_text memory = codes "memory "
resource_text disk = codes "disk "

abbrev pub fluctuation_text : FluctuationType → Text
fluctuation_text under = codes "under "
fluctuation_text over = codes "over "

abbrev pub unit_text : ResourceUnit → Text
unit_text percent = codes "%"
unit_text mb = codes "MB"
unit_text gb = codes "GB"

-- Each printer writes its part in front of a text.
abbrev pub put_value : ResourceValue → Text → Text
put_value v rest = decimal v.value ++ (unit_text v.unit_type ++ rest)

abbrev pub put_element : Element → Text → Text
put_element e rest = decimal e.amount ++ (letter e.time_unit ∷ rest)

abbrev pub put_duration : Series Element → Text → Text
put_duration (only e) rest = put_element e rest
put_duration (next e es) rest = put_element e (put_duration es rest)

abbrev pub put_series : {A : Type 0} → (A → Text → Text) → Series A → Text → Text
put_series put (only a) rest = put a rest
put_series put (next a as') rest = put a (codes ", " ++ put_series put as' rest)

abbrev pub put_choice : {A : Type 0} → (A → Text → Text) → Choice A → Text → Text
put_choice put (single a) rest = put a rest
put_choice put (braced as') rest = codes "{" ++ put_series put as' (codes "}" ++ rest)

abbrev pub put_line : Line → Text → Text
put_line (trigger_line r f vs ds) rest =
    codes "trigger "
    ++ (resource_text r
        ++ (fluctuation_text f
            ++ put_choice put_value vs
                (codes " last for " ++ put_choice put_duration ds (codes "\n" ++ rest))))
put_line (log_line r ds rs) rest =
    codes "log "
    ++ (resource_text r
        ++ (codes "for "
            ++ put_choice put_duration ds
                (codes " resolution " ++ put_choice put_duration rs (codes "\n" ++ rest))))

-- The text of a configuration.
unfoldable pub put_lines : List Line → Text
put_lines [] = []
put_lines (l ∷ ls) = put_line l (put_lines ls)

abbrev pub trigger_of : Resource → FluctuationType → ResourceValue → ℕ → TriggerType
trigger_of r f v d = record { resource = r; fluctuation_type = f; trigger_value = v; duration = d }

abbrev pub log_of : Resource → ℕ → ℕ → LogType
log_of r d resolution = record { resource = r; duration = d; resolution = resolution }

-- The triggers and the logs that a line means: each value with each duration, and each duration with
-- each resolution.
abbrev pub line_triggers : Line → List TriggerType
line_triggers (trigger_line r f vs ds) =
    product (trigger_of r f) (picked vs) (map total_seconds (picked ds))
line_triggers (log_line r ds rs) = []

abbrev pub line_logs : Line → List LogType
line_logs (trigger_line r f vs ds) = []
line_logs (log_line r ds rs) =
    product (log_of r) (map total_seconds (picked ds)) (map total_seconds (picked rs))

abbrev pub all_triggers : List Line → List TriggerType
all_triggers [] = []
all_triggers (l ∷ ls) = line_triggers l ++ all_triggers ls

abbrev pub all_logs : List Line → List LogType
all_logs [] = []
all_logs (l ∷ ls) = line_logs l ++ all_logs ls

-- The numbers that the scanner can hold in a `long`.
abbrev pub FitsValue : ResourceValue → Type 0
FitsValue v = v.value < long_limit

abbrev pub FitsDuration : Series Element → Type 0
FitsDuration d = total_seconds d < long_limit

abbrev pub FitsLine : Line → Type 0
FitsLine (trigger_line r f vs ds) = All FitsValue (picked vs) × All FitsDuration (picked ds)
FitsLine (log_line r ds rs) = All FitsDuration (picked ds) × All FitsDuration (picked rs)
