-- ===== src/Sampling/Triggers/History.antt =====
-- The triggers over a whole run: the polls one after another from the configured table.
use zpr_res_monitor.Prelude.{
  ℕ, ◌%◌, ◌<◌, ◌≡◌, refl, ◌∙◌, Bool, true, false, Option, none, some, List, [], ◌∷◌, ◌++◌, All,
  All-append, arith, replicate, length, lookup, insert, Option-cases, inl, inr, if◌then◌else◌,
}
use native.Mathlib.Nat.{zero-mod}
use zpr_res_monitor.Double.{Double}
use zpr_res_monitor.Config.Types.{TriggerType, trigger_eq, trigger_eq_iff}
use zpr_res_monitor.Sampling.Triggers.{
  Call, TriggerStates, Sample, exceeds, process_triggers, step_counter, initialize_triggers,
  initialize_triggers_from,
}
use zpr_res_monitor.Sampling.Triggers.Streak.{run_counter, streak, alarms, run_counter-eq-alarms}
use zpr_res_monitor.Sampling.Triggers.Table.{
  IsCounting, IsActivation, HasDistinctKeys, calls_of, calls_of-append, all_measurable, some_of,
  process_triggers-total, all_measurable-process_triggers, process_triggers-IsCounting,
  process_triggers-HasDistinctKeys, process_triggers_at,
}

abbrev pub HasDuration : List TriggerType → Type 0
HasDuration = All λ t. 0 < t.duration

initialize_triggers_from-IsCounting :
    (m : TriggerStates) (ts : List TriggerType)
    → HasDuration ts
    → IsCounting m
    → IsCounting (initialize_triggers_from m ts)
unfolding initialize_triggers_from
initialize_triggers_from-IsCounting m [] h c = c
initialize_triggers_from-IsCounting m (t ∷ ts) h c =
    initialize_triggers_from-IsCounting (insert trigger_eq t 0 m) ts h.1 (go m c)
  where
    go : (m : TriggerStates) → IsCounting m → IsCounting (insert trigger_eq t 0 m)
    go [] c = (h.0, tt)
    go ((u, n) ∷ m) c = ground (arith, go m c.1, trigger_eq_iff u t)

lookup-insert :
    (k t : TriggerType) (m : TriggerStates)
    → lookup trigger_eq k (insert trigger_eq t 0 m)
      ≡ (if trigger_eq t k then some 0 else lookup trigger_eq k m)
lookup-insert k t [] = ground (arith, trigger_eq_iff t k)
lookup-insert k t ((u, n) ∷ m) =
    ground (arith, lookup-insert k t m, trigger_eq_iff u t, trigger_eq_iff u k, trigger_eq_iff t k)

insert-HasDistinctKeys :
    (t : TriggerType) (m : TriggerStates)
    → HasDistinctKeys m
    → HasDistinctKeys (insert trigger_eq t 0 m)
insert-HasDistinctKeys t [] k = ground arith
insert-HasDistinctKeys t ((u, n) ∷ m) k = ground (
  arith,
  insert-HasDistinctKeys t m k.1,
  lookup-insert u t m,
  trigger_eq_iff u t,
  trigger_eq_iff t u,
)

initialize_triggers_from-HasDistinctKeys :
    (m : TriggerStates) (ts : List TriggerType)
    → HasDistinctKeys m
    → HasDistinctKeys (initialize_triggers_from m ts)
unfolding initialize_triggers_from
initialize_triggers_from-HasDistinctKeys m [] k = k
initialize_triggers_from-HasDistinctKeys m (t ∷ ts) k =
    initialize_triggers_from-HasDistinctKeys (insert trigger_eq t 0 m) ts
      (insert-HasDistinctKeys t m k)

abbrev pub contains : TriggerType → List TriggerType → Bool
contains t [] = false
contains t (u ∷ us) = if trigger_eq u t then true else contains t us

-- The table holds the counter 0 for just the configured triggers.
pub lookup-initialize_triggers_from :
    (t : TriggerType) (m : TriggerStates) (ts : List TriggerType)
    → lookup trigger_eq t (initialize_triggers_from m ts)
      ≡ (if contains t ts then some 0 else lookup trigger_eq t m)
unfolding initialize_triggers_from
lookup-initialize_triggers_from t m [] = refl
lookup-initialize_triggers_from t m (u ∷ us) =
    ground
      (arith, lookup-initialize_triggers_from t (insert trigger_eq u 0 m) us, lookup-insert t u m)

module _ {W : Type 0} ⦃d : Double W⦄ where
  -- `processTriggers` after each poll, with the calls of all the polls.
  unfoldable pub run_polls : List (Sample W) → TriggerStates → Option (TriggerStates × List Call)
  run_polls [] m = some (m, [])
  run_polls (s ∷ ss) m = elim (process_triggers s m) [
    | none ↦ none
    | some (m', calls) ↦ elim (run_polls ss m') [
      | none ↦ none
      | some (m'', later) ↦ some (m'', calls ++ later)
    ]
  ]

  -- What the polls found of one trigger; `none` if one of them aborts at it.
  pub history : List (Sample W) → TriggerType → Option (List Bool)
  history [] t = some []
  history (s ∷ ss) t = elim (exceeds s t) [
    | none ↦ none
    | some b ↦ elim (history ss t) [ none ↦ none | some bs ↦ some (b ∷ bs) ]
  ]

  run_polls-cons :
      (s : Sample W) (ss : List (Sample W)) (m : TriggerStates) {r : TriggerStates × List Call}
      → run_polls (s ∷ ss) m ≡ some r
      → (p : TriggerStates × List Call) × (q : TriggerStates × List Call) × (process_triggers s m
          ≡ some p)
        × (run_polls ss p.0 ≡ some q)
        × (r ≡ (q.0, p.1 ++ q.1))
  unfolding run_polls
  run_polls-cons s ss m e = elim (Option-cases (process_triggers s m)) [
    | inl a ↦ ground arith
    | inr (p, a) ↦ elim (Option-cases (run_polls ss p.0)) [
      | inl b ↦ ground arith
      | inr (q, b) ↦ (p, q, a, b, ground arith)
    ]
  ]

  run_polls-IsActivation :
      (ss : List (Sample W)) (m : TriggerStates) {r : TriggerStates × List Call}
      → IsCounting m
      → run_polls ss m ≡ some r
      → All IsActivation r.1
  unfolding run_polls
  run_polls-IsActivation [] m c e = ground arith
  run_polls-IsActivation (s ∷ ss) m c e =
      let (p, q, a, b, eq) = run_polls-cons s ss m e in
      let (c', now) = process_triggers-IsCounting s m c a in
      rw eq (All-append IsActivation p.1 q.1 now (run_polls-IsActivation ss p.0 c' b))

  history-cons :
      (s : Sample W) (ss : List (Sample W)) (t : TriggerType) {b : Bool} {bs : List Bool}
      → exceeds s t ≡ some b
      → history ss t ≡ some bs
      → history (s ∷ ss) t ≡ some (b ∷ bs)
  unfolding history
  history-cons s ss t x h = ground arith

  -- Polls that all exceed a trigger.
  pub history-replicate :
      (ss : List (Sample W)) (t : TriggerType)
      → All (λ s. exceeds s t ≡ some true) ss
      → history ss t ≡ some (replicate (length ss) true)
  unfolding history
  history-replicate [] t all = refl
  history-replicate (s ∷ ss) t all = history-cons s ss t all.0 (history-replicate ss t all.1)

  run_polls_at :
      (ss : List (Sample W)) (t : TriggerType) (n : ℕ) (m : TriggerStates)
      {r : TriggerStates × List Call}
      → HasDistinctKeys m
      → lookup trigger_eq t m ≡ some n
      → run_polls ss m ≡ some r
      → (bs : List Bool) × (history ss t ≡ some bs)
        × (lookup trigger_eq t r.0 ≡ some (run_counter t n bs).0)
        × (calls_of t r.1 ≡ (run_counter t n bs).1)
  unfolding run_polls history run_counter
  run_polls_at [] t n m k l e = ([], refl, ground arith, ground arith)
  run_polls_at (s ∷ ss) t n m k l e =
      let (p, q, a, b, eq) = run_polls-cons s ss m e in
      let (o, x, y, z) = process_triggers_at s t n m k l a in
      let (bs, hx, hy, hz) =
        run_polls_at ss t (step_counter o t n).0 p.0 (process_triggers-HasDistinctKeys s m k a) y
          b in
      rw eq (o ∷ bs, history-cons s ss t x hx, hy, rw (calls_of-append t p.1 q.1, z, hz) refl)

  -- If the units fit the resources, no poll aborts.
  run_polls-total :
      (ss : List (Sample W)) (m : TriggerStates)
      → all_measurable m ≡ true
      → (r : TriggerStates × List Call) × (run_polls ss m ≡ some r)
  unfolding run_polls
  run_polls-total [] m h = ((m, []), refl)
  run_polls-total (s ∷ ss) m h =
      let (p, e) = some_of (process_triggers s m) (process_triggers-total s m ∙ h) in
      let (q, f) = run_polls-total ss p.0 (all_measurable-process_triggers s m e ∙ h) in
      ((q.0, p.1 ++ q.1), rw (e, run_polls) (rw f refl))

  -- From configured triggers whose units their resources take and whose durations are positive, no
  -- run of polls aborts, and none ever calls `triggerDeactivate`: each call is an activation.
  pub never_deactivates :
      (ts : List TriggerType) (ss : List (Sample W))
      → HasDuration ts
      → all_measurable (initialize_triggers ts) ≡ true
      → (r : TriggerStates × List Call) × (run_polls ss (initialize_triggers ts) ≡ some r)
        × All IsActivation r.1
  unfolding initialize_triggers
  never_deactivates ts ss h u =
      let (r, e) = run_polls-total ss (initialize_triggers ts) u in
      (r, e, run_polls-IsActivation ss _ (initialize_triggers_from-IsCounting [] ts h tt) e)

  -- Over any run of polls from configured triggers whose units their resources take, nothing aborts,
  -- and a configured trigger with a positive duration is activated exactly when the number of polls
  -- in a row that exceeded it is a positive multiple of its duration; its counter is then that number
  -- modulo the duration.
  pub run_polls-alarms :
      (ts : List TriggerType) (t : TriggerType) (ss : List (Sample W))
      → all_measurable (initialize_triggers ts) ≡ true
      → contains t ts ≡ true
      → 0 < t.duration
      → (r : TriggerStates × List Call) × (bs : List Bool) × (run_polls ss (initialize_triggers ts)
          ≡ some r)
        × (history ss t ≡ some bs)
        × (lookup trigger_eq t r.0 ≡ some (streak 0 bs % t.duration))
        × (calls_of t r.1 ≡ alarms t 0 bs)
  unfolding initialize_triggers
  run_polls-alarms ts t ss u h pos =
      let (r, e) = run_polls-total ss (initialize_triggers ts) u in
      let found : lookup trigger_eq t (initialize_triggers_from [] ts) ≡ some 0 =
        rw (lookup-initialize_triggers_from t [] ts, h) in
      let (bs, a, b, c) =
        run_polls_at ss t 0 _ (initialize_triggers_from-HasDistinctKeys [] ts tt) found e in
      let spec : run_counter t 0 bs ≡ (streak 0 bs % t.duration, alarms t 0 bs) =
        rw (zero-mod t.duration) at (run_counter-eq-alarms t 0 bs pos) in
      (r, bs, e, a, rw spec at b, rw spec at c)
