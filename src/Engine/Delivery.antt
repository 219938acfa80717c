-- ===== src/Engine/Delivery.antt =====
-- Whom a fired trigger reaches, and how often.
use mathlib.Core.List.{append-nil, append_assoc}
use zpr_res_monitor.Prelude.{
  ℕ, zero, suc, ◌==◌, ==_iff, ◌≡◌, refl, true, false, Option, none, some, List, [], ◌∷◌, ◌++◌,
  arith, if◌then◌else◌, replicate, Option-cases, Bool-cases, inl, inr, ◌∙◌, sym, ap,
}
use mathlib.Core.Option.{some-injective}
use mathlib.Core.Path.{subst}
use native.Mathlib.Decide.{ℕ_discrete}
use zpr_res_monitor.Config.Types.{TriggerType, trigger_eq, trigger_eq_iff}
use zpr_res_monitor.Predicate.{Predicate, activate, deactivate}
use zpr_res_monitor.Predicate.Invariant.{
  IsValid, activated, called, activate_lem, deactivate-IsValid,
}
use zpr_res_monitor.Engine.{
  Registry, Store, push_back, register, registered, enter, put, activate_all, deactivate_all,
  trigger_activation, deliver,
}
use zpr_res_monitor.Sampling.Triggers.{Call}
use zpr_res_monitor.Sampling.Triggers

-- How often a trigger stands among the operands, and an identity among the registered.
abbrev pub occurrences : TriggerType → List TriggerType → ℕ
occurrences t [] = 0
occurrences t (u ∷ us) = let rest = occurrences t us in if trigger_eq u t then suc rest else rest

abbrev pub count : ℕ → List ℕ → ℕ
count i [] = 0
count i (j ∷ js) = let rest = count i js in if j == i then suc rest else rest

pub registered-push_back :
    (t u : TriggerType) (i : ℕ) (m : Registry)
    → registered t (push_back u i m)
      ≡ (if trigger_eq u t then registered t m ++ (i ∷ []) else registered t m)
unfolding registered push_back
registered-push_back t u i [] = ground arith
registered-push_back t u i ((v, is) ∷ m) = elim (Bool-cases (trigger_eq v u)) [
  | inl vu ↦
      let same : trigger_eq v t ≡ trigger_eq u t =
        ap (λ w. trigger_eq w t) ((trigger_eq_iff v u).0 vu) in
      ground arith
  | inr vu ↦ elim (Bool-cases (trigger_eq u t)) [
    | inl ut ↦
        let vt : trigger_eq v t ≡ false =
          ap (trigger_eq v) (sym ((trigger_eq_iff u t).0 ut)) ∙ vu in
        ground (arith, registered-push_back t u i m)
    | inr ut ↦ ground (arith, registered-push_back t u i m)
  ]
]

-- Adding a predicate registers it under each trigger as often as the trigger is one of its operands,
-- behind those that are there.
pub registered-register :
    (t : TriggerType) (i : ℕ) (ts : List TriggerType) (m : Registry)
    → registered t (register i ts m) ≡ registered t m ++ replicate (occurrences t ts) i
unfolding register
registered-register t i [] m = sym (append-nil _)
registered-register t i (u ∷ us) m = elim (Bool-cases (trigger_eq u t)) [
  | inl same ↦
      rw (registered-register t i us (push_back u i m), registered-push_back t u i m, same)
        (append_assoc (registered t m) (i ∷ []) (replicate (occurrences t us) i))
  | inr other ↦
      rw (registered-register t i us (push_back u i m), registered-push_back t u i m, other)
]

pub registered-enter :
    (t u : TriggerType) (m : Registry) → registered t (enter u m) ≡ registered t m
unfolding registered enter
registered-enter t u [] = ground arith
registered-enter t u ((v, is) ∷ m) = elim (Bool-cases (trigger_eq v u)) [
  | inl vu ↦ ground arith
  | inr vu ↦ ground (arith, registered-enter t u m)
]

abbrev pub iterate {ℓ} : {A : Type ℓ} → ℕ → (A → A) → A → A
iterate zero f a = a
iterate (suc n) f a = iterate n f (f a)

abbrev pub map_option {ℓ κ} : {A : Type ℓ} {B : Type κ} → (A → B) → Option A → Option B
map_option f none = none
map_option f (some a) = some (f a)

map_option_id {ℓ} : {A : Type ℓ} (o : Option A) → o ≡ map_option (λ a. a) o
map_option_id none = refl
map_option_id (some a) = refl

module _ {C : Type 0} where
  -- Every object in the store is valid.
  abbrev pub AllValid : Store C → Type 0
  AllValid s = (i : ℕ) (p : Predicate C) → s i ≡ some p → IsValid p

  pub AllValid-put :
      (i : ℕ) (q : Predicate C) (s : Store C) → IsValid q → AllValid s → AllValid (put i q s)
  unfolding put
  AllValid-put i q s v all j p e = elim (Bool-cases (i == j)) [
    | inl same ↦ subst IsValid (some-injective _ _ (rw same at e)) v
    | inr other ↦ ground (arith, all j p)
  ]

  activate_all-cons :
      (t : TriggerType) (i : ℕ) (is : List ℕ) (s : Store C) {p q : Predicate C} {calls : List C}
      {r : Store C × List C}
      → s i ≡ some p
      → activate t p ≡ some (q, calls)
      → activate_all t is (put i q s) ≡ some r
      → activate_all t (i ∷ is) s ≡ some (r.0, calls ++ r.1)
  unfolding activate_all
  activate_all-cons t i is s here now later = rw (here, activate_all) (rw (now, later) refl)

  activated_at :
      (t : TriggerType) (i : ℕ) (is : List ℕ) (s : Store C) (p : Predicate C)
      → s i ≡ some p
      → (j : ℕ)
      → map_option (iterate (count j is) (activated t)) (put i (activated t p) s j)
        ≡ map_option (iterate (count j (i ∷ is)) (activated t)) (s j)
  unfolding put
  activated_at t i is s p here j = elim (ℕ_discrete i j) [
    | yes same ↦
        let hit : (i == j) ≡ true = (==_iff i j).1 same in
        let there : s j ≡ some p = ap s (sym same) ∙ here in rw (hit, there) refl
    | no other ↦ let miss : (i == j) ≡ false = ground arith in rw miss refl
  ]

  -- Signalling the registered predicates never throws: each object is activated as often as it is
  -- registered, objects that are gone are passed over, and all others stay as they are.
  pub activate_all_lem :
      (t : TriggerType) (is : List ℕ) (s : Store C)
      → AllValid s
      → (s' : Store C) × (calls : List C) × (activate_all t is s ≡ some (s', calls))
        × AllValid s'
        × ((i : ℕ) → s' i ≡ map_option (iterate (count i is) (activated t)) (s i))
  unfolding activate_all
  activate_all_lem t [] s all = (s, [], refl, all, λ i. map_option_id (s i))
  activate_all_lem t (i ∷ is) s all = elim (Option-cases (s i)) [
    | inl gone ↦
        let (s', calls, e, all', at') = activate_all_lem t is s all in
        (s', calls, rw (gone, activate_all) e, all', λ j. ground (arith, at' j, ==_iff i j))
    | inr (p, here) ↦
        let (a, v) = activate_lem t p (all i p here) in
        let (s', calls, e, all', at') =
          activate_all_lem t is (put i (activated t p) s)
            (AllValid-put i (activated t p) s v all) in
        (
          s',
          called t p ++ calls,
          activate_all-cons t i is s here a e,
          all',
          λ j. at' j ∙ activated_at t i is s p here j,
        )
  ]

  -- A fired trigger activates each live predicate as often as it is registered under the trigger, and
  -- leaves every other predicate and all registrations as they are.
  pub trigger_activation_lem :
      (t : TriggerType) (m : Registry) (s : Store C)
      → AllValid s
      → (s' : Store C) × (calls : List C) × (trigger_activation t m s ≡ some (enter t m, s', calls))
        × AllValid s'
        × ((i : ℕ) → s' i ≡ map_option (iterate (count i (registered t m)) (activated t)) (s i))
        × ((u : TriggerType) → registered u (enter t m) ≡ registered u m)
  unfolding trigger_activation
  trigger_activation_lem t m s all =
      let (s', calls, e, all', at') = activate_all_lem t (registered t m) s all in
      (s', calls, rw (e, trigger_activation) refl, all', at', λ u. registered-enter u t m)

  pub deactivate_all-AllValid :
      (t : TriggerType) (is : List ℕ) (s : Store C) → AllValid s → AllValid (deactivate_all t is s)
  unfolding deactivate_all
  deactivate_all-AllValid t [] s all = all
  deactivate_all-AllValid t (i ∷ is) s all = elim (Option-cases (s i)) [
    | inl gone ↦ rw (gone, deactivate_all) (deactivate_all-AllValid t is s all)
    | inr (p, here) ↦
        rw (here, deactivate_all)
          (deactivate_all-AllValid t is _
            (AllValid-put i (deactivate t p) s (deactivate-IsValid t p (all i p here)) all))
  ]

  -- The engine takes any sequence of the manager's calls without an exception.
  pub deliver_total :
      (cs : List Call) (m : Registry) (s : Store C)
      → AllValid s
      → (r : Registry × Store C × List C) × (deliver cs m s ≡ some r) × AllValid r.1
  unfolding deliver
  deliver_total [] m s all = ((m, s, []), refl, all)
  deliver_total (Triggers.activate t ∷ cs) m s all =
      let (s', calls, e, all', _, _) = trigger_activation_lem t m s all in
      let (r, f, all'') = deliver_total cs (enter t m) s' all' in
      ((r.0, r.1, calls ++ r.2), rw (e, deliver) (rw f refl), all'')
  deliver_total (Triggers.deactivate t ∷ cs) m s all =
      deliver_total cs _ _ (deactivate_all-AllValid t (registered t m) s all)
