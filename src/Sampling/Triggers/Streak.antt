-- ===== src/Sampling/Triggers/Streak.antt =====
-- One trigger's counter of `processTriggers` against its history.
use native.Mathlib.Nat.{mod-lt, mod-eq_of_lt, mod-add-mod, zero-mod, mod_self}
use native.Mathlib.Decide.{ℕ_discrete}
use zpr_res_monitor.Prelude.{
  ℕ, ◌+◌, ◌%◌, ◌<◌, ◌≡◌, refl, sym, ◌∙◌, ◌⊎◌, inl, inr, ◌==◌, Bool, true, false, List, [], ◌∷◌,
  ◌++◌, arith, if◌then◌else◌,
}
use zpr_res_monitor.Config.Types.{TriggerType}
use zpr_res_monitor.Sampling.Triggers.{Call, activate, deactivate, step_counter}

-- The loop's effect on one trigger over the polls' outcomes, oldest first.
unfoldable pub run_counter : TriggerType → ℕ → List Bool → ℕ × List Call
run_counter t n [] = (n, [])
run_counter t n (b ∷ bs) =
    let (m, calls) = step_counter b t n in
    let (k, later) = run_counter t m bs in (k, calls ++ later)

-- How many polls in a row exceeded the trigger, up to now, if `k` did before.
unfoldable pub streak : ℕ → List Bool → ℕ
streak k [] = k
streak k (true ∷ bs) = streak (k + 1) bs
streak k (false ∷ bs) = streak 0 bs

-- What the configuration promises: a call whenever the streak is a positive multiple of the duration.
unfoldable pub alarms : TriggerType → ℕ → List Bool → List Call
alarms t k [] = []
alarms t k (true ∷ bs) =
    (if (k + 1) % t.duration == 0 then activate t ∷ [] else []) ++ alarms t (k + 1) bs
alarms t k (false ∷ bs) = alarms t 0 bs

-- A counter below the duration goes up by one, or reaches it and starts again.
pub mod_suc :
    (k d : ℕ)
    → 0 < d
    → ((k % d + 1 ≡ d) × ((k + 1) % d ≡ 0)) ⊎ ((k % d + 1 < d) × ((k + 1) % d ≡ k % d + 1))
mod_suc k d h = elim (ℕ_discrete (k % d + 1) d) [
  | yes e ↦ inl (e, sym (mod-add-mod k d 1) ∙ rw e (mod_self d))
  | no ne ↦
      let below : k % d + 1 < d = omega (arith, mod-lt k h) in
      inr (below, sym (mod-add-mod k d 1) ∙ mod-eq_of_lt below)
]

step_counter-true :
    (t : TriggerType) (k : ℕ)
    → 0 < t.duration
    → step_counter true t (k % t.duration)
      ≡ ((k + 1) % t.duration, if (k + 1) % t.duration == 0 then activate t ∷ [] else [])
unfolding step_counter
step_counter-true t k h = ground (arith, mod_suc k t.duration h)

step_counter-false : (t : TriggerType) (n : ℕ) → n < t.duration → step_counter false t n ≡ (0, [])
unfolding step_counter
step_counter-false t n h = ground arith

-- For a positive duration the counter is the length of the current streak modulo the duration, and
-- the callbacks are called exactly as `alarms` says, whatever the polls found.
pub run_counter-eq-alarms :
    (t : TriggerType) (k : ℕ) (bs : List Bool)
    → 0 < t.duration
    → run_counter t (k % t.duration) bs ≡ (streak k bs % t.duration, alarms t k bs)
unfolding run_counter streak alarms
run_counter-eq-alarms t k [] h = refl
run_counter-eq-alarms t k (true ∷ bs) h =
    rw (step_counter-true t k h, run_counter-eq-alarms t (k + 1) bs h)
run_counter-eq-alarms t k (false ∷ bs) h =
    let later : run_counter t 0 bs ≡ (streak 0 bs % t.duration, alarms t 0 bs) =
      rw (zero-mod t.duration) at (run_counter-eq-alarms t 0 bs h) in
    rw (step_counter-false t (k % t.duration) (mod-lt k h), later)

-- A trigger configured with the duration 0 fires at each poll that does not exceed it, just after it
-- is deactivated, and at no poll that does exceed it.
pub step_counter-zero_duration :
    (t : TriggerType) (n : ℕ)
    → t.duration ≡ 0
    → (step_counter false t n ≡ (0, deactivate t ∷ activate t ∷ []))
      × (step_counter true t n ≡ (n + 1, []))
unfolding step_counter
step_counter-zero_duration t n h = ground arith
