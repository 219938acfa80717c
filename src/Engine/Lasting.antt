-- ===== src/Engine/Lasting.antt =====
-- What the engine leaves alone: which objects there are, their kinds and callbacks, and the registrations.
use zpr_res_monitor.Prelude.{
  ℕ, zero, suc, ◌==◌, ==_iff, ◌≡◌, refl, sym, ◌∙◌, ap, subst, Option, none, some, List, [], ◌∷◌,
  ◌++◌, Option-cases, Bool-cases, inl, inr,
}
use zpr_res_monitor.Config.Types.{TriggerType}
use zpr_res_monitor.Predicate.{Predicate, deactivate}
use zpr_res_monitor.Predicate.Invariant.{activated}
use zpr_res_monitor.Engine.{
  Registry, Store, registered, enter, put, deactivate_all, trigger_deactivation, deliver,
}
use zpr_res_monitor.Engine.Delivery.{
  AllValid, iterate, map_option, count, registered-enter, trigger_activation_lem,
  deactivate_all-AllValid,
}
use zpr_res_monitor.Sampling.Triggers.{Call}
use zpr_res_monitor.Sampling.Triggers

module _ {C : Type 0} where
  -- The same object, or none in both places.
  abbrev pub Lasts : Option (Predicate C) → Option (Predicate C) → Type 0
  Lasts none none = Unit
  Lasts none (some q) = ⊥
  Lasts (some p) none = ⊥
  Lasts (some p) (some q) = (q.kind ≡ p.kind) × (q.callback ≡ p.callback)

  pub Lasts-same : (o : Option (Predicate C)) → Lasts o o
  Lasts-same none = tt
  Lasts-same (some p) = (refl, refl)

  pub Lasts-then : (o1 o2 o3 : Option (Predicate C)) → Lasts o1 o2 → Lasts o2 o3 → Lasts o1 o3
  Lasts-then none none o3 a b = b
  Lasts-then none (some q) o3 a b = absurd a
  Lasts-then (some p) none o3 a b = absurd a
  Lasts-then (some p) (some q) none a b = b
  Lasts-then (some p) (some q) (some r) a b = (b.0 ∙ a.0, b.1 ∙ a.1)

  iterate-Lasts :
      (t : TriggerType) (n : ℕ) (p : Predicate C)
      → Lasts (some p) (some (iterate n (activated t) p))
  iterate-Lasts t zero p = (refl, refl)
  iterate-Lasts t (suc n) p = let later = iterate-Lasts t n (activated t p) in (later.0, later.1)

  map_option-Lasts :
      (t : TriggerType) (n : ℕ) (o : Option (Predicate C))
      → Lasts o (map_option (iterate n (activated t)) o)
  map_option-Lasts t n none = tt
  map_option-Lasts t n (some p) = iterate-Lasts t n p

  put-Lasts :
      (i j : ℕ) (p q : Predicate C) (s : Store C)
      → s i ≡ some p
      → Lasts (some p) (some q)
      → Lasts (s j) (put i q s j)
  unfolding put
  put-Lasts i j p q s here same = elim (Bool-cases (i == j)) [
    | inl hit ↦
        let there : s j ≡ some p = ap s (sym ((==_iff i j).0 hit)) ∙ here in rw (hit, there) same
    | inr miss ↦ rw miss (Lasts-same (s j))
  ]

  pub deactivate_all-Lasts :
      (t : TriggerType) (is : List ℕ) (s : Store C) (j : ℕ) → Lasts (s j) (deactivate_all t is s j)
  unfolding deactivate_all deactivate
  deactivate_all-Lasts t [] s j = Lasts-same (s j)
  deactivate_all-Lasts t (i ∷ is) s j = elim (Option-cases (s i)) [
    | inl gone ↦ rw (gone, deactivate_all) (deactivate_all-Lasts t is s j)
    | inr (p, here) ↦
        let next : Store C = put i (deactivate t p) s in
        rw (here, deactivate_all)
          (Lasts-then (s j) (next j) (deactivate_all t is next j)
            (put-Lasts i j p (deactivate t p) s here (refl, refl))
            (deactivate_all-Lasts t is next j))
  ]

  -- Taking the manager's calls, the engine keeps each object that it knows with its kind and its
  -- callback, makes none, and keeps all registrations.
  pub deliver-Lasts :
      (cs : List Call) (m : Registry) (s : Store C)
      → AllValid s
      → (m' : Registry) × (s' : Store C) × (fired : List C) × (deliver cs m s
          ≡ some (m', s', fired))
        × AllValid s'
        × ((i : ℕ) → Lasts (s i) (s' i))
        × ((t : TriggerType) → registered t m' ≡ registered t m)
  unfolding deliver trigger_deactivation
  deliver-Lasts [] m s all = (m, s, [], refl, all, λ i. Lasts-same (s i), λ t. refl)
  deliver-Lasts (Triggers.activate t ∷ cs) m s all =
      let (s1, calls, e, all1, at1, reg1) = trigger_activation_lem t m s all in
      let (m2, s2, later, f, all2, lasts, reg2) = deliver-Lasts cs (enter t m) s1 all1 in
      let first : (i : ℕ) → Lasts (s i) (s1 i) = λ i.
        subst (Lasts (s i)) (sym (at1 i)) (map_option-Lasts t (count i (registered t m)) (s i)) in
      (
        m2,
        s2,
        calls ++ later,
        rw (e, deliver) (rw f refl),
        all2,
        λ i. Lasts-then (s i) (s1 i) (s2 i) (first i) (lasts i),
        λ u. reg2 u ∙ reg1 u,
      )
  deliver-Lasts (Triggers.deactivate t ∷ cs) m s all =
      let s1 = deactivate_all t (registered t m) s in
      let (m2, s2, later, f, all2, lasts, reg2) =
        deliver-Lasts cs (enter t m) s1 (deactivate_all-AllValid t (registered t m) s all) in
      (
        m2,
        s2,
        later,
        f,
        all2,
        λ i. Lasts-then (s i) (s1 i) (s2 i) (deactivate_all-Lasts t (registered t m) s i) (lasts i),
        λ u. reg2 u ∙ registered-enter u t m,
      )
