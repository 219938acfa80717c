-- ===== src/Tests/Web.antt =====
-- A choice of options on the page, and the hashes of equal logs.
use zpr_res_monitor.Prelude.{
  ◌+◌, ◌*◌, ◌≡◌, refl, ap, some, [], ◌∷◌, ◌++◌, Text, codes, get_elem?, arith,
}
use zpr_res_monitor.Predicate.{or_and, both, element}
use zpr_res_monitor.Config.Types.{TriggerType, log_eq, trigger_eq}
use zpr_res_monitor.Config.Hash.{hash_log, hash_trigger, hash_log-log_eq}
use zpr_res_monitor.Web.{chosen_kind}
use zpr_res_monitor.Config.Print.{show_trigger}
use zpr_res_monitor.Web.Page.{selections}
use zpr_res_monitor.Web.Browser.{read_options}
use zpr_res_monitor.Web.Labels.{choices_subscribe}
use zpr_res_monitor.Tests.Data.{
  busy_cpu, little_ram, busy_disk, all_triggers, cpu_each_2, cpu_each_2_longer,
}

-- What the page has behind the options of its first field.
abbrev behind_options : Text
behind_options = codes " </select>OR<select name=\"trigger1\" required>\n"

offered_choices :
    read_options 3 (selections show_trigger 0 all_triggers ++ behind_options)
    ≡ record { value = codes "0"; label = show_trigger busy_cpu }
      ∷ record { value = codes "1"; label = show_trigger little_ram }
      ∷ record { value = codes "2"; label = show_trigger busy_disk }
      ∷ []
unfolding read_options selections show_trigger
offered_choices = refl

choices_subscribe_example :
    (a : TriggerType) × (b : TriggerType) × (c : TriggerType) × (show_trigger busy_disk
      ≡ show_trigger a)
    × (show_trigger busy_cpu ≡ show_trigger b)
    × (show_trigger little_ram ≡ show_trigger c)
    × (chosen_kind all_triggers ((codes "trigger0", codes "2") ∷ []) ≡ some (some (element a)))
    × (chosen_kind all_triggers ((codes "trigger0", codes "2") ∷ (codes "trigger1", codes "0") ∷ [])
        ≡ some (some (both b a)))
    × (chosen_kind all_triggers (
          (codes "trigger0", codes "2")
          ∷ (codes "trigger1", codes "0")
          ∷ (codes "trigger2", codes "1")
          ∷ [])
        ≡ some (some (or_and c b a)))
choices_subscribe_example =
    choices_subscribe all_triggers behind_options (codes "trigger0") (codes "trigger1")
      (codes "trigger2") 2 0 1 (record { value = codes "2"; label = show_trigger busy_disk })
      (record { value = codes "0"; label = show_trigger busy_cpu })
      (record { value = codes "1"; label = show_trigger little_ram })
      (refl, (refl, (refl, (refl, (refl, (refl, (refl, (refl, tt))))))))
      (refl, (refl, (refl, (refl, (refl, (refl, (refl, (refl, tt))))))))
      (refl, (refl, (refl, (refl, (refl, (refl, (refl, (refl, tt)))))))) (omega arith) refl
      (ap (λ l. get_elem? l 2) offered_choices) (ap (λ l. get_elem? l 0) offered_choices)
      (ap (λ l. get_elem? l 1) offered_choices)

-- `hash_combine` is a sum and a polynomial here.
hash_log-log_eq_example :
    (hash_log (λ h n. h + n) (λ h n. h * 31 + n) cpu_each_2
      ≡ hash_log (λ h n. h + n) (λ h n. h * 31 + n) cpu_each_2_longer)
    × (hash_trigger (λ h n. h + n) (λ h n. h * 31 + n) busy_cpu
        ≡ hash_trigger (λ h n. h + n) (λ h n. h * 31 + n) busy_cpu)
unfolding log_eq trigger_eq
hash_log-log_eq_example =
    hash_log-log_eq (λ h n. h + n) (λ h n. h * 31 + n) cpu_each_2 cpu_each_2_longer busy_cpu
      busy_cpu refl refl
