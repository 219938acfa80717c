-- ===== src/Monitor/Liveness.antt =====
-- A resource that stays over its limit: how often the subscriber is told.
use mathlib.Core.Option.{some-injective}
use native.Mathlib.Nat.{add-div_left, zero-mod, zero-add, div-eq_of_lt, mod-lt}
use zpr_res_monitor.Prelude.{
  length-map, All-map, ℕ, zero, suc, ◌+◌, ◌/◌, ◌%◌, ◌<◌, ◌==◌, ◌≡◌, refl, sym, ◌∙◌, ap, true, false,
  some, List, ◌∷◌, All, map, length, replicate, arith, inl, inr,
}
use zpr_res_monitor.Double.{Double}
use zpr_res_monitor.Config.Types.{TriggerType, LogType}
use zpr_res_monitor.Sampling.Buffer.{CircularBuffer, IsCircular}
use zpr_res_monitor.Sampling.Triggers.{Sample, exceeds, initialize_triggers}
use zpr_res_monitor.Sampling.Triggers.Streak.{alarms, mod_suc}
use zpr_res_monitor.Sampling.Triggers.Table.{all_measurable}
use zpr_res_monitor.Sampling.Triggers.History.{contains, history-replicate}
use zpr_res_monitor.Sampling.Manager.{Reading, new_manager}
use zpr_res_monitor.Sampling.Manager.Safety.{sample_of}
use zpr_res_monitor.Engine.{Registry, Store}
use zpr_res_monitor.Engine.Subscriber.{notices, IsSubscribed}
use zpr_res_monitor.Monitor.{Monitor, run_rounds}
use zpr_res_monitor.Monitor.Alerts.{run_rounds-alarms}

-- A streak of `n` polls behind one of `k` comes to a multiple of the duration this often.
notices-replicate :
    {C : Type 0} (c : C) (t : TriggerType) (i k n : ℕ)
    → 0 < t.duration
    → notices c t i (alarms t k (replicate n true))
      ≡ replicate ((k % t.duration + n) / t.duration) c
unfolding alarms
notices-replicate c t i k zero pos =
    let none_due : (k % t.duration + 0) / t.duration ≡ 0 =
      div-eq_of_lt (omega (arith, mod-lt k pos)) in
    rw none_due refl
notices-replicate c t i k (suc n) pos =
    let rest = notices-replicate c t i (k + 1) n pos in
    elim (mod_suc k t.duration pos) [
      | inl (full, wrapped) ↦
          let due : (k % t.duration + suc n) / t.duration ≡ suc (n / t.duration) =
            ap (λ m. m / t.duration) (omega (arith, full)) ∙ add-div_left n pos ∙ omega arith in
          let next = rw (wrapped, zero-add) at rest in rw (wrapped, due) (ap (◌∷◌ c) next)
      | inr (below, counted) ↦
          let due : k % t.duration + suc n ≡ (k + 1) % t.duration + n = omega (arith, counted) in
          let no_alarm : ((k + 1) % t.duration == 0) ≡ false = ground (arith, counted) in
          rw (no_alarm, due) rest
    ]

module _ (b : CircularBuffer) {W C : Type 0} ⦃d : Double W⦄ (laws : IsCircular b) (c : C)
    (t : TriggerType) (i : ℕ) where
  -- Let the engine hold the predicate of one configured trigger with a positive duration and no
  -- other, and let all units fit their resources. If every reading exceeds the trigger, then no round
  -- fails, and in any number of rounds the callback is called once for every `duration` of them.
  pub run_rounds-exceeded :
      (logs : List LogType) (triggers : List TriggerType) (registry : Registry) (store : Store C)
      (rs : List (Reading W))
      → all_measurable (initialize_triggers triggers) ≡ true
      → contains t triggers ≡ true
      → 0 < t.duration
      → IsSubscribed c t i registry store
      → All (λ r. exceeds (sample_of b r) t ≡ some true) rs
      → (s' : Monitor b W C) × (run_rounds b rs
            (record { manager = new_manager b W logs triggers; registry = registry; store = store })
          ≡ some (s', replicate (length rs / t.duration) c))
  run_rounds-exceeded logs triggers registry store rs u h pos sub all =
      let samples : List (Sample W) = map (sample_of b) rs in
      let (s', bs, e, seen) =
        run_rounds-alarms b laws c t i logs triggers registry store rs u h pos sub in
      let over =
        history-replicate samples t (All-map (sample_of b) (λ s. exceeds s t ≡ some true) rs all) in
      let same : bs ≡ replicate (length samples) true = some-injective _ _ (sym seen ∙ over) in
      let count : notices c t i (alarms t 0 bs) ≡ replicate (length rs / t.duration) c =
        ap (λ x. notices c t i (alarms t 0 x)) same
        ∙ notices-replicate c t i 0 (length samples) pos
        ∙ rw (zero-mod t.duration, zero-add, length-map (sample_of b) rs) refl in
      (s', e ∙ ap (λ x. some (s', x)) count)
