-- ===== src/Config/Hash.antt =====
-- `std::hash` of LogType and TriggerType (include/configrawdata.hpp). `boost::hash_combine` is a
-- parameter, one for the numbers behind the enumerations and one for `long`.
use zpr_res_monitor.Prelude.{ℕ, ◌≡◌, refl, ap, true}
use zpr_res_monitor.Config.Types.{
  ResourceUnit, percent, mb, gb, Resource, cpu, memory, disk, FluctuationType, under, over,
  TriggerType, LogType, trigger_eq, log_eq, trigger_eq_iff, log_eq_iff,
}

-- The values of the enumerators.
abbrev pub resource_id : Resource → ℕ
resource_id cpu = 0
resource_id memory = 1
resource_id disk = 2

abbrev pub fluctuation_id : FluctuationType → ℕ
fluctuation_id under = 0
fluctuation_id over = 1

abbrev pub unit_id : ResourceUnit → ℕ
unit_id percent = 0
unit_id mb = 1
unit_id gb = 2

module _ (combine_enum combine_long : ℕ → ℕ → ℕ) where
  unfoldable pub hash_log : LogType → ℕ
  hash_log l = combine_long (combine_enum 0 (resource_id l.resource)) l.resolution

  unfoldable pub hash_trigger : TriggerType → ℕ
  hash_trigger t =
      let v = t.trigger_value in
      let h =
        combine_enum (combine_enum 0 (resource_id t.resource))
          (fluctuation_id t.fluctuation_type) in
      combine_long (combine_long (combine_enum h (unit_id v.unit_type)) v.value) t.duration

  -- Logs and triggers that `operator==` takes for equal have equal hashes, whatever `hash_combine`
  -- does: two logs even if they differ in the duration.
  pub hash_log-log_eq :
      (a b : LogType) (t u : TriggerType)
      → log_eq a b ≡ true
      → trigger_eq t u ≡ true
      → (hash_log a ≡ hash_log b) × (hash_trigger t ≡ hash_trigger u)
  unfolding hash_log
  hash_log-log_eq a b t u h k =
      let (r, n) = (log_eq_iff a b).0 h in
      (rw (r, n) refl, ap hash_trigger ((trigger_eq_iff t u).0 k))
