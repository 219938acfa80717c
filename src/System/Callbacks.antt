-- ===== src/System/Callbacks.antt =====
-- Which callbacks a round calls: those that the predicates hold.
use mathlib.Core.Option.{some-injective}
use zpr_res_monitor.Prelude.{
  ℕ, ◌==◌, ◌≡◌, sym, subst, Option, none, some, List, [], ◌∷◌, ◌++◌, All, All-append, Option-cases,
  Bool-cases, inl, inr, arith,
}
use zpr_res_monitor.Config.Types.{TriggerType}
use zpr_res_monitor.Predicate.{Predicate, activate}
use zpr_res_monitor.Engine.{
  Registry, Store, registered, enter, put, activate_all, trigger_activation, trigger_deactivation,
  deactivate_all, deliver,
}
use zpr_res_monitor.Engine.Lasting.{Lasts, deactivate_all-Lasts}
use zpr_res_monitor.Sampling.Triggers.{Call}
use zpr_res_monitor.Sampling.Triggers

module _ {C : Type 0} (P : C → Type 0) where
  abbrev pub AllCallbacks : Store C → Type 0
  AllCallbacks s = (i : ℕ) (p : Predicate C) → s i ≡ some p → P p.callback

  pub AllCallbacks-Lasts :
      (s s' : Store C) → ((i : ℕ) → Lasts (s i) (s' i)) → AllCallbacks s → AllCallbacks s'
  AllCallbacks-Lasts s s' lasts all i q there = elim (Option-cases (s i)) [
    | inl gone ↦ absurd (let l = lasts i in (rw (gone, there) at l))
    | inr (p, here) ↦
        let same : Lasts (some p) (some q) = let l = lasts i in (rw (here, there) at l) in
        subst P (sym same.1) (all i p here)
  ]

  pub AllCallbacks-put :
      (i : ℕ) (q : Predicate C) (s : Store C)
      → P q.callback
      → AllCallbacks s
      → AllCallbacks (put i q s)
  unfolding put
  AllCallbacks-put i q s one all j p e = elim (Bool-cases (i == j)) [
    | inl same ↦
        let it : q ≡ p = some-injective _ _ (rw same at e) in subst (λ x. P x.callback) it one
    | inr other ↦ ground (arith, all j p)
  ]

  activate-All :
      (t : TriggerType) (p q : Predicate C) (calls : List C)
      → activate t p ≡ some (q, calls)
      → P p.callback
      → P q.callback × All P calls
  unfolding activate
  activate-All t p q calls e one = ground arith

  -- A loop that came to an end called such callbacks only, and kept them in the store.
  abbrev Called : Option (Store C × List C) → Type 0
  Called none = Unit
  Called (some (s, calls)) = AllCallbacks s × All P calls

  Called-then :
      (calls : List C) (o : Option (Store C × List C))
      → All P calls
      → Called o
      → Called (elim o [ none ↦ none | some (s', later) ↦ some (s', calls ++ later) ])
  Called-then calls none one rest = tt
  Called-then calls (some (s', later)) one rest = (rest.0, All-append P calls later one rest.1)

  activate_all-Called :
      (t : TriggerType) (is : List ℕ) (s : Store C) → AllCallbacks s → Called (activate_all t is s)
  unfolding activate_all
  activate_all-Called t [] s all = (all, tt)
  activate_all-Called t (i ∷ is) s all = elim (Option-cases (s i)) [
    | inl gone ↦ rw (gone, activate_all) (activate_all-Called t is s all)
    | inr (p, here) ↦ elim (Option-cases (activate t p)) [
      | inl stop ↦ rw (here, activate_all) (rw stop tt)
      | inr ((q, calls), now) ↦
          let one = activate-All t p q calls now (all i p here) in
          rw (here, activate_all)
            (rw now (
              Called-then calls (activate_all t is (put i q s)) one.1
                (activate_all-Called t is (put i q s) (AllCallbacks-put i q s one.0 all))))
    ]
  ]

  -- The callbacks that the engine calls for the manager's calls.
  abbrev Fired : Option (Registry × Store C × List C) → Type 0
  Fired none = Unit
  Fired (some (m, s, calls)) = All P calls

  Fired-then :
      (calls : List C) (o : Option (Registry × Store C × List C))
      → All P calls
      → Fired o
      → Fired (elim o [ none ↦ none | some (m, s, later) ↦ some (m, s, calls ++ later) ])
  Fired-then calls none one rest = tt
  Fired-then calls (some (m, s, later)) one rest = All-append P calls later one rest

  deliver-Fired :
      (cs : List Call) (m : Registry) (s : Store C) → AllCallbacks s → Fired (deliver cs m s)
  unfolding deliver trigger_activation trigger_deactivation
  deliver-Fired [] m s all = tt
  deliver-Fired (Triggers.activate t ∷ cs) m s all =
      let called = activate_all-Called t (registered t m) s all in
      elim (Option-cases (activate_all t (registered t m) s)) [
        | inl stop ↦ rw (stop, deliver, trigger_activation) tt
        | inr ((s1, calls), e) ↦
            let one : AllCallbacks s1 × All P calls = (rw e at called) in
            rw (e, deliver, trigger_activation)
              (Fired-then calls (deliver cs (enter t m) s1) one.1
                (deliver-Fired cs (enter t m) s1 one.0))
      ]
  deliver-Fired (Triggers.deactivate t ∷ cs) m s all =
      let s1 = deactivate_all t (registered t m) s in
      deliver-Fired cs (enter t m) s1
        (AllCallbacks-Lasts s s1 (deactivate_all-Lasts t (registered t m) s) all)

  -- They have what all callbacks in the store have.
  pub deliver-All :
      (cs : List Call) (m : Registry) (s : Store C) {m' : Registry} {s' : Store C} {calls : List C}
      → deliver cs m s ≡ some (m', s', calls)
      → AllCallbacks s
      → All P calls
  deliver-All cs m s e all = subst Fired e (deliver-Fired cs m s all)
