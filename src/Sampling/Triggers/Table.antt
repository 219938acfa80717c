-- ===== src/Sampling/Triggers/Table.antt =====
-- The loop of `processTriggers` over the whole table, and the polls one after another.
use zpr_res_monitor.Prelude.{
  ℕ, ◌<◌, ◌≡◌, refl, Bool, true, false, ◌&&◌, Option, none, some, List, [], ◌∷◌, ◌++◌, All,
  All-append, arith, if◌then◌else◌, lookup, Option-cases, Bool-cases, inl, inr,
}
use mathlib.Core.List.{append-nil}
use zpr_res_monitor.Prelude.{ap}
use zpr_res_monitor.Double.{Double}
use zpr_res_monitor.Config.Types.{
  TriggerType, cpu, memory, disk, percent, trigger_eq, trigger_eq_iff,
}
use zpr_res_monitor.Sampling.Triggers.{
  Call, activate, deactivate, TriggerStates, step_counter, Sample, exceeds, process_triggers,
}

-- The units that the `operator>` of the trigger's resource accepts.
abbrev pub is_measurable : TriggerType → Bool
is_measurable t = elim t.resource [
  | cpu ↦ elim t.trigger_value.unit_type [ percent ↦ true | _ ↦ false ]
  | memory ↦ true
  | disk ↦ elim t.trigger_value.unit_type [ percent ↦ false | _ ↦ true ]
]

abbrev pub all_measurable : TriggerStates → Bool
all_measurable [] = true
all_measurable ((t, n) ∷ m) = is_measurable t && all_measurable m

abbrev pub is_some {ℓ} : {A : Type ℓ} → Option A → Bool
is_some none = false
is_some (some _) = true

pub some_of {ℓ} : {A : Type ℓ} (o : Option A) → is_some o ≡ true → (a : A) × (o ≡ some a)
some_of none h = cc
some_of (some a) h = (a, refl)

-- The counters are below the durations, which are positive.
abbrev pub IsCounting : TriggerStates → Type 0
IsCounting = All λ e. e.1 < e.0.duration

abbrev pub IsActivation : Call → Type 0
IsActivation (activate t) = Unit
IsActivation (deactivate t) = ⊥

-- Each trigger has one entry.
abbrev pub HasDistinctKeys : TriggerStates → Type 0
HasDistinctKeys [] = Unit
HasDistinctKeys ((t, n) ∷ m) = (lookup trigger_eq t m ≡ none) × HasDistinctKeys m

-- The calls that one trigger causes.
abbrev pub calls_of : TriggerType → List Call → List Call
calls_of t [] = []
calls_of t (activate u ∷ cs) =
    let rest = calls_of t cs in if trigger_eq u t then activate u ∷ rest else rest
calls_of t (deactivate u ∷ cs) =
    let rest = calls_of t cs in if trigger_eq u t then deactivate u ∷ rest else rest

pub calls_of-append :
    (t : TriggerType) (xs ys : List Call) → calls_of t (xs ++ ys) ≡ calls_of t xs ++ calls_of t ys
calls_of-append t [] ys = refl
calls_of-append t (activate u ∷ xs) ys = ground (arith, calls_of-append t xs ys)
calls_of-append t (deactivate u ∷ xs) ys = ground (arith, calls_of-append t xs ys)

step_counter-IsActivation :
    (b : Bool) (t : TriggerType) (n : ℕ)
    → n < t.duration
    → ((step_counter b t n).0 < t.duration) × All IsActivation (step_counter b t n).1
unfolding step_counter
step_counter-IsActivation b t n h = ground arith

-- A step on one entry calls back for its own trigger only.
calls_of-step_counter_self :
    (b : Bool) (t : TriggerType) (n : ℕ)
    → calls_of t (step_counter b t n).1 ≡ (step_counter b t n).1
unfolding step_counter
calls_of-step_counter_self b t n = ground (arith, trigger_eq_iff t t)

calls_of-step_counter_ne :
    (b : Bool) (t u : TriggerType) (n : ℕ)
    → trigger_eq u t ≡ false
    → calls_of t (step_counter b u n).1 ≡ []
unfolding step_counter
calls_of-step_counter_ne b t u n h = ground arith

module _ {W : Type 0} ⦃d : Double W⦄ where
  exceeds_measurable : (s : Sample W) (t : TriggerType) → is_some (exceeds s t) ≡ is_measurable t
  unfolding exceeds
  exceeds_measurable s t = ground arith

  -- A poll aborts exactly when some configured trigger has a unit that its resource does not take,
  -- whatever is measured.
  pub process_triggers-total :
      (s : Sample W) (m : TriggerStates) → is_some (process_triggers s m) ≡ all_measurable m
  unfolding process_triggers
  process_triggers-total s [] = refl
  process_triggers-total s ((t, n) ∷ m) =
      ground (arith, exceeds_measurable s t, process_triggers-total s m)

  -- Inversion of a poll that does not abort, for an entry and the rest.
  pub process_triggers-cons :
      (s : Sample W) (t : TriggerType) (n : ℕ) (m : TriggerStates) {r : TriggerStates × List Call}
      → process_triggers s ((t, n) ∷ m) ≡ some r
      → (b : Bool) × (rest : TriggerStates × List Call) × (exceeds s t ≡ some b)
        × (process_triggers s m ≡ some rest)
        × (r ≡ ((t, (step_counter b t n).0) ∷ rest.0, (step_counter b t n).1 ++ rest.1))
  unfolding process_triggers
  process_triggers-cons s t n m e = elim (Option-cases (exceeds s t)) [
    | inl a ↦ ground arith
    | inr (b, a) ↦ elim (Option-cases (process_triggers s m)) [
      | inl p ↦ ground arith
      | inr (rest, p) ↦ (b, rest, a, p, ground arith)
    ]
  ]

  -- A poll changes no trigger.
  pub all_measurable-process_triggers :
      (s : Sample W) (m : TriggerStates) {r : TriggerStates × List Call}
      → process_triggers s m ≡ some r
      → all_measurable r.0 ≡ all_measurable m
  unfolding process_triggers
  all_measurable-process_triggers s [] e = ground arith
  all_measurable-process_triggers s ((t, n) ∷ m) e =
      let (o, rest, a, p, q) = process_triggers-cons s t n m e in
      rw q (ap (λ r. is_measurable t && r) (all_measurable-process_triggers s m p))

  pub process_triggers-IsCounting :
      (s : Sample W) (m : TriggerStates) {r : TriggerStates × List Call}
      → IsCounting m
      → process_triggers s m ≡ some r
      → IsCounting r.0 × All IsActivation r.1
  unfolding process_triggers
  process_triggers-IsCounting s [] c e = ground arith
  process_triggers-IsCounting s ((t, n) ∷ m) c e =
      let (b, rest, a, p, q) = process_triggers-cons s t n m e in
      let ih = process_triggers-IsCounting s m c.1 p in
      let own = step_counter-IsActivation b t n c.0 in
      rw q ((own.0, ih.0), All-append IsActivation (step_counter b t n).1 rest.1 own.1 ih.1)

  -- A trigger with no entry is not called back, and gets none.
  process_triggers_absent :
      (s : Sample W) (t : TriggerType) (m : TriggerStates) {r : TriggerStates × List Call}
      → lookup trigger_eq t m ≡ none
      → process_triggers s m ≡ some r
      → (lookup trigger_eq t r.0 ≡ none) × (calls_of t r.1 ≡ [])
  unfolding process_triggers
  process_triggers_absent s t [] l e = ground arith
  process_triggers_absent s t ((u, k) ∷ m) l e =
      let (b, rest, a, p, q) = process_triggers-cons s u k m e in
      let other : trigger_eq u t ≡ false = ground arith in
      let (l', c') = process_triggers_absent s t m (ground arith) p in
      rw q (
        ground arith,
        rw (calls_of-append t (step_counter b u k).1 rest.1, calls_of-step_counter_ne b t u k other)
            c',
      )

  pub process_triggers-HasDistinctKeys :
      (s : Sample W) (m : TriggerStates) {r : TriggerStates × List Call}
      → HasDistinctKeys m
      → process_triggers s m ≡ some r
      → HasDistinctKeys r.0
  unfolding process_triggers
  process_triggers-HasDistinctKeys s [] k e = ground arith
  process_triggers-HasDistinctKeys s ((t, n) ∷ m) k e =
      let (b, rest, a, p, q) = process_triggers-cons s t n m e in
      rw q ((process_triggers_absent s t m k.0 p).0, process_triggers-HasDistinctKeys s m k.1 p)

  -- A poll does to each entry, and calls back for it, what `step_counter` says of it alone.
  pub process_triggers_at :
      (s : Sample W) (t : TriggerType) (n : ℕ) (m : TriggerStates) {r : TriggerStates × List Call}
      → HasDistinctKeys m
      → lookup trigger_eq t m ≡ some n
      → process_triggers s m ≡ some r
      → (b : Bool) × (exceeds s t ≡ some b)
        × (lookup trigger_eq t r.0 ≡ some (step_counter b t n).0)
        × (calls_of t r.1 ≡ (step_counter b t n).1)
  process_triggers_at s t n [] k l e = cc
  process_triggers_at s t n ((u, i) ∷ m) k l e =
      let (b, rest, a, p, q) = process_triggers-cons s u i m e in
      elim (Bool-cases (trigger_eq u t)) [
        | inl same ↦
            let eq : u ≡ t = (trigger_eq_iff u t).0 same in
            let absent : lookup trigger_eq t m ≡ none = rw eq at k.0 in
            let (_, quiet) = process_triggers_absent s t m absent p in
            let counted : i ≡ n = ground arith in
            rw q (
              b,
              rw eq at a,
              ground arith,
              rw (calls_of-append t (step_counter b u i).1 rest.1, quiet, append-nil, eq, counted)
                  (calls_of-step_counter_self b t n),
            )
        | inr other ↦
            let (c, x, y, z) = process_triggers_at s t n m k.1 (ground arith) p in
            rw q (
              c,
              x,
              ground arith,
              rw
                  (
                    calls_of-append t (step_counter b u i).1 rest.1,
                    calls_of-step_counter_ne b t u i other,
                  )
                  z,
            )
      ]
