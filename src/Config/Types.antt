-- ===== src/Config/Types.antt =====
-- The raw configuration records of include/configrawdata.hpp and their `operator==`.
use zpr_res_monitor.Prelude.{ℕ, ◌≡◌, ◌↔◌, Bool, true, false, ◌&&◌, ◌==◌, arith}

pub data ResourceUnit : Type 0 where
  percent mb gb : ResourceUnit

-- `long value` comes from digits only, so it is a natural number.
pub record ResourceValue : Type 0 where
  pub unit_type : ResourceUnit
  pub value : ℕ

-- `TriggerType::Resource` and `LogType::Resource` have the same members.
pub data Resource : Type 0 where
  cpu memory disk : Resource

pub data FluctuationType : Type 0 where
  under over : FluctuationType

pub record TriggerType : Type 0 where
  pub resource : Resource
  pub fluctuation_type : FluctuationType
  pub trigger_value : ResourceValue
  pub duration : ℕ

pub record LogType : Type 0 where
  pub resource : Resource
  pub duration : ℕ
  pub resolution : ℕ

abbrev pub unit_eq : ResourceUnit → ResourceUnit → Bool
unit_eq percent percent = true
unit_eq mb mb = true
unit_eq gb gb = true
unit_eq _ _ = false

abbrev pub resource_eq : Resource → Resource → Bool
resource_eq cpu cpu = true
resource_eq memory memory = true
resource_eq disk disk = true
resource_eq _ _ = false

abbrev pub fluctuation_eq : FluctuationType → FluctuationType → Bool
fluctuation_eq under under = true
fluctuation_eq over over = true
fluctuation_eq _ _ = false

abbrev pub value_eq : ResourceValue → ResourceValue → Bool
value_eq a b = unit_eq a.unit_type b.unit_type && a.value == b.value

unfoldable pub trigger_eq : TriggerType → TriggerType → Bool
trigger_eq a b =
    resource_eq a.resource b.resource
    && fluctuation_eq a.fluctuation_type b.fluctuation_type
    && value_eq a.trigger_value b.trigger_value
    && a.duration == b.duration

-- The duration takes no part.
unfoldable pub log_eq : LogType → LogType → Bool
log_eq a b = resource_eq a.resource b.resource && a.resolution == b.resolution

pub trigger_eq_iff : (a b : TriggerType) → (trigger_eq a b ≡ true) ↔ (a ≡ b)
unfolding trigger_eq
trigger_eq_iff a b = ground arith

pub log_eq_iff :
    (a b : LogType)
    → (log_eq a b ≡ true) ↔ (a.resource ≡ b.resource) × (a.resolution ≡ b.resolution)
unfolding log_eq
log_eq_iff a b = ground arith
