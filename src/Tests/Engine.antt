-- ===== src/Tests/Engine.antt =====
-- The theorems on the predicates, the engine and the whole monitor at concrete inputs.
use zpr_res_monitor.Prelude.{ℕ, ◌≡◌, refl, true, none, some, List, [], ◌∷◌}
use zpr_res_monitor.Config.Types.{TriggerType, trigger_eq}
use zpr_res_monitor.Sampling.Buffer.{list_buffer, list_buffer-IsCircular}
use zpr_res_monitor.Sampling.Triggers.{Call, initialize_triggers}
use zpr_res_monitor.Sampling.Triggers
use zpr_res_monitor.Sampling.Triggers.Table.{all_measurable}
use zpr_res_monitor.Sampling.Manager.{new_manager}
use zpr_res_monitor.Predicate.{
  Predicate, Kind, or_and, both, element, new_predicate, activate, deactivate,
}
use zpr_res_monitor.Predicate.Invariant.{
  IsValid, value_of, activated, called, new_predicate-IsValid, activate_lem,
}
use zpr_res_monitor.Predicate.Firing.{
  switch_on, switch_off, run_ops, firings, run_ops-eq-firings, run_ops_muted,
}
use zpr_res_monitor.Engine.{
  Registry, Store, register, registered, enter, put, trigger_activation, deliver, add_predicate,
}
use zpr_res_monitor.Engine.Subscriber.{
  notices, IsSubscribed, deliver-IsSubscribed, new_predicate-IsSubscribed,
}
use zpr_res_monitor.Monitor.Alerts.{run_rounds-alarms}
use zpr_res_monitor.Monitor.Liveness.{run_rounds-exceeded}
use zpr_res_monitor.Sampling.Triggers.Streak.{alarms}
use zpr_res_monitor.Sampling.Triggers.Table.{calls_of}
use zpr_res_monitor.Sampling.Triggers.History.{history}
use zpr_res_monitor.Sampling.Manager.Safety.{sample_of}
use zpr_res_monitor.Prelude.{map, arith, Bool}
use zpr_res_monitor.Engine.Delivery.{
  count, iterate, map_option, AllValid, AllValid-put, trigger_activation_lem,
}
use zpr_res_monitor.Monitor.{Monitor, run_rounds}
use zpr_res_monitor.Tests.Numbers.{whole}
use zpr_res_monitor.Tests.Data.{
  busy_cpu, little_ram, busy_disk, all_triggers, all_logs, hot_reading, cool_reading,
}

-- The callback is the number 7.
abbrev subscribed : Predicate ℕ
subscribed = new_predicate 7 (or_and busy_cpu little_ram busy_disk)

subscribed-IsValid : IsValid subscribed
subscribed-IsValid = new_predicate-IsValid 7 (or_and busy_cpu little_ram busy_disk)

abbrev empty_store : Store ℕ
empty_store i = none

abbrev one_store : Store ℕ
one_store = put 0 subscribed empty_store

one_store-AllValid : AllValid one_store
one_store-AllValid = AllValid-put 0 subscribed empty_store subscribed-IsValid (λ i p e. cc)

abbrev one_registry : Registry
one_registry = register 0 (busy_cpu ∷ little_ram ∷ busy_disk ∷ []) []

activate_lem_example :
    (activate busy_cpu subscribed
      ≡ some (activated busy_cpu subscribed, called busy_cpu subscribed))
    × IsValid (activated busy_cpu subscribed)
activate_lem_example = activate_lem busy_cpu subscribed subscribed-IsValid

run_ops-eq-firings_example :
    (q : Predicate ℕ) × (run_ops
        (switch_on busy_cpu ∷ switch_on busy_disk ∷ switch_off busy_cpu ∷ [])
        subscribed
      ≡ some (
        q,
        firings subscribed.callback subscribed.kind subscribed.last_satisfied
            (value_of subscribed.trigger_state)
            (switch_on busy_cpu ∷ switch_on busy_disk ∷ switch_off busy_cpu ∷ []),
      ))
run_ops-eq-firings_example =
    run_ops-eq-firings (switch_on busy_cpu ∷ switch_on busy_disk ∷ switch_off busy_cpu ∷ [])
      subscribed subscribed-IsValid

-- All three triggers are active, and the callback was called.
abbrev satisfied : Predicate ℕ
satisfied = record {
  kind = or_and busy_cpu little_ram busy_disk;
  last_satisfied = true;
  trigger_state = (busy_cpu, true) ∷ (little_ram, true) ∷ (busy_disk, true) ∷ [];
  callback = 7;
}

run_ops_muted_example :
    (q : Predicate ℕ) × (run_ops (switch_on busy_disk ∷ switch_on busy_cpu ∷ []) satisfied
      ≡ some (q, []))
unfolding trigger_eq zpr_res_monitor.Predicate.operands
run_ops_muted_example =
    run_ops_muted satisfied busy_cpu little_ram busy_disk
      (switch_on busy_disk ∷ switch_on busy_cpu ∷ [])
      ((true, refl), ((true, refl), ((true, refl), tt))) refl refl refl refl refl (tt, (tt, tt))

trigger_activation_lem_example :
    (s' : Store ℕ) × (calls : List ℕ) × (trigger_activation busy_cpu one_registry one_store
      ≡ some (enter busy_cpu one_registry, s', calls))
    × AllValid s'
    × ((i : ℕ)
        → s' i
          ≡ map_option
              (iterate (count i (registered busy_cpu one_registry)) (activated busy_cpu))
              (one_store i))
    × ((u : TriggerType) → registered u (enter busy_cpu one_registry) ≡ registered u one_registry)
trigger_activation_lem_example =
    trigger_activation_lem busy_cpu one_registry one_store one_store-AllValid

pub table-measurable : all_measurable (initialize_triggers all_triggers) ≡ true
unfolding initialize_triggers
table-measurable = refl

-- A predicate of one trigger, with the callback 7.
abbrev single : Predicate ℕ
single = new_predicate 7 (element busy_cpu)

abbrev single_store : Store ℕ
single_store = put 0 single empty_store

abbrev single_registry : Registry
single_registry = add_predicate 0 single []

deliver-IsSubscribed_example :
    (m' : Registry) × (s' : Store ℕ) × (deliver
        (Triggers.activate busy_disk ∷ Triggers.activate busy_cpu ∷ [])
        single_registry
        single_store
      ≡ some (
        m',
        s',
        notices 7 busy_cpu 0
            (calls_of busy_cpu (Triggers.activate busy_disk ∷ Triggers.activate busy_cpu ∷ [])),
      ))
    × IsSubscribed 7 busy_cpu 0 m' s'
deliver-IsSubscribed_example =
    deliver-IsSubscribed 7 busy_cpu 0
      (Triggers.activate busy_disk ∷ Triggers.activate busy_cpu ∷ []) single_registry single_store
      (new_predicate-IsSubscribed 7 busy_cpu 0 empty_store)

run_rounds-alarms_example :
    (s' : Monitor list_buffer ℕ ℕ) × (bs : List Bool) × (run_rounds list_buffer
        (hot_reading ∷ hot_reading ∷ cool_reading ∷ [])
        (record {
          manager = new_manager list_buffer ℕ all_logs all_triggers;
          registry = single_registry;
          store = single_store;
        })
      ≡ some (s', notices 7 busy_cpu 0 (alarms busy_cpu 0 bs)))
    × (history
          (map (sample_of list_buffer) (hot_reading ∷ hot_reading ∷ cool_reading ∷ []))
          busy_cpu
        ≡ some bs)
unfolding trigger_eq
run_rounds-alarms_example =
    run_rounds-alarms list_buffer list_buffer-IsCircular 7 busy_cpu 0 all_logs all_triggers
      single_registry single_store (hot_reading ∷ hot_reading ∷ cool_reading ∷ []) table-measurable
      refl (omega arith) (new_predicate-IsSubscribed 7 busy_cpu 0 empty_store)

-- Four readings over the limit are two periods of two polls.
run_rounds-exceeded_example :
    (s' : Monitor list_buffer ℕ ℕ) × (run_rounds list_buffer
        (hot_reading ∷ hot_reading ∷ hot_reading ∷ hot_reading ∷ [])
        (record {
          manager = new_manager list_buffer ℕ all_logs all_triggers;
          registry = single_registry;
          store = single_store;
        })
      ≡ some (s', 7 ∷ 7 ∷ []))
unfolding trigger_eq zpr_res_monitor.Sampling.Triggers.exceeds
run_rounds-exceeded_example =
    run_rounds-exceeded list_buffer list_buffer-IsCircular 7 busy_cpu 0 all_logs all_triggers
      single_registry single_store (hot_reading ∷ hot_reading ∷ hot_reading ∷ hot_reading ∷ [])
      table-measurable refl (omega arith) (new_predicate-IsSubscribed 7 busy_cpu 0 empty_store)
      (refl, (refl, (refl, (refl, tt))))
