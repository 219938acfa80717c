-- ===== src/Engine/Subscriber.antt =====
-- A predicate of one trigger that the engine holds: what reaches its callback.
use zpr_res_monitor.Prelude.{
  ℕ, ==_iff, ◌≡◌, refl, ◌∙◌, true, false, some, List, [], ◌∷◌, arith, insert, if◌then◌else◌,
  Bool-cases, inl, inr,
}
use zpr_res_monitor.Config.Types.{TriggerType, trigger_eq, trigger_eq_iff}
use zpr_res_monitor.Predicate.{
  Predicate, element, activate, deactivate, is_satisfied, new_predicate, get_predicate_operands,
  operands,
}
use zpr_res_monitor.Predicate.Invariant.{lookup-insert}
use zpr_res_monitor.Engine.{
  Registry, Store, registered, enter, put, add_predicate, register, push_back, activate_all,
  deactivate_all, trigger_activation, trigger_deactivation, deliver,
}
use zpr_res_monitor.Engine.Delivery.{registered-enter, registered-push_back}
use zpr_res_monitor.Sampling.Triggers.{Call}
use zpr_res_monitor.Sampling.Triggers
use zpr_res_monitor.Sampling.Triggers.Table.{calls_of}

module _ {C : Type 0} (c : C) (t : TriggerType) (i : ℕ) where
  -- One callback for each activation.
  abbrev pub notices : List Call → List C
  notices [] = []
  notices (Triggers.activate u ∷ cs) = c ∷ notices cs
  notices (Triggers.deactivate u ∷ cs) = notices cs

  -- The predicate of `t` with the callback `c` is stored under `i`, the only one registered.
  pub record IsSubscribed (m : Registry) (s : Store C) : Type 0 where
    pub only : (v : TriggerType) → registered v m ≡ (if trigger_eq t v then i ∷ [] else [])
    pub held : Predicate C
    pub stored : s i ≡ some held
    pub kind_held : held.kind ≡ element t
    pub callback_held : held.callback ≡ c

  -- A new predicate of `t`, added to an engine that holds none.
  pub new_predicate-IsSubscribed :
      (s : Store C)
      → IsSubscribed
          (add_predicate i (new_predicate c (element t)) [])
          (put i (new_predicate c (element t)) s)
  unfolding add_predicate put new_predicate get_predicate_operands operands register push_back
      registered
  new_predicate-IsSubscribed s = record {
    only = λ v. registered-push_back v t i [];
    held = new_predicate c (element t);
    stored = rw ((==_iff i i).1 refl) refl;
    kind_held = refl;
    callback_held = refl;
  }

  activate-element :
      (p : Predicate C)
      → p.kind ≡ element t
      → (q : Predicate C) × (activate t p ≡ some (q, p.callback ∷ []))
        × (q.kind ≡ element t)
        × (q.callback ≡ p.callback)
  unfolding activate is_satisfied
  activate-element p k =
      let same : trigger_eq t t ≡ true = (trigger_eq_iff t t).1 refl in
      let satisfied : is_satisfied p.kind p.last_satisfied
            (insert trigger_eq t true p.trigger_state)
          ≡ some (true, p.last_satisfied) =
        rw (k, is_satisfied) (rw (lookup-insert t t true p.trigger_state, same) refl) in
      (
        record p { trigger_state = insert trigger_eq t true p.trigger_state },
        rw (satisfied, activate) refl,
        k,
        refl,
      )

  trigger_activation-IsSubscribed :
      (m : Registry) (s : Store C)
      → IsSubscribed m s
      → (s' : Store C) × (trigger_activation t m s ≡ some (enter t m, s', c ∷ []))
        × IsSubscribed (enter t m) s'
  unfolding trigger_activation activate_all put
  trigger_activation-IsSubscribed m s v =
      let same : trigger_eq t t ≡ true = (trigger_eq_iff t t).1 refl in
      let one : registered t m ≡ i ∷ [] = rw same at (v.only t) in
      let (q, e, k, cb) = activate-element v.held v.kind_held in
      let all : activate_all t (i ∷ []) s ≡ some (put i q s, v.held.callback ∷ []) =
        rw (v.stored, activate_all) (rw e refl) in
      (
        put i q s,
        rw (one, trigger_activation) (rw (all, v.callback_held) refl),
        record {
          only = λ w. registered-enter w t m ∙ v.only w;
          held = q;
          stored = rw ((==_iff i i).1 refl) refl;
          kind_held = k;
          callback_held = cb ∙ v.callback_held;
        },
      )

  trigger_activation_other :
      (u : TriggerType) (m : Registry) (s : Store C)
      → trigger_eq t u ≡ false
      → IsSubscribed m s
      → (trigger_activation u m s ≡ some (enter u m, s, [])) × IsSubscribed (enter u m) s
  unfolding trigger_activation activate_all
  trigger_activation_other u m s h v =
      let none_there : registered u m ≡ [] = rw h at (v.only u) in
      (
        rw (none_there, trigger_activation) refl,
        record {
          only = λ w. registered-enter w u m ∙ v.only w;
          held = v.held;
          stored = v.stored;
          kind_held = v.kind_held;
          callback_held = v.callback_held;
        },
      )

  trigger_deactivation-IsSubscribed :
      (u : TriggerType) (m : Registry) (s : Store C)
      → IsSubscribed m s
      → IsSubscribed (trigger_deactivation u m s).0 (trigger_deactivation u m s).1
  unfolding trigger_deactivation deactivate_all put deactivate
  trigger_deactivation-IsSubscribed u m s v = elim (Bool-cases (trigger_eq t u)) [
    | inl hit ↦
        let one : registered u m ≡ i ∷ [] = rw hit at (v.only u) in
        let all : deactivate_all u (i ∷ []) s ≡ put i (deactivate u v.held) s =
          rw (v.stored, deactivate_all) refl in
        record {
          only = λ w. registered-enter w u m ∙ v.only w;
          held = deactivate u v.held;
          stored = rw (one, all, (==_iff i i).1 refl) refl;
          kind_held = v.kind_held;
          callback_held = v.callback_held;
        }
    | inr miss ↦
        let none_there : registered u m ≡ [] = rw miss at (v.only u) in
        record {
          only = λ w. registered-enter w u m ∙ v.only w;
          held = v.held;
          stored = rw none_there v.stored;
          kind_held = v.kind_held;
          callback_held = v.callback_held;
        }
  ]

  -- The engine gives the callback of a predicate of one trigger, the only one that it holds, just the
  -- activations of that trigger, whatever the calls are, and keeps holding it.
  pub deliver-IsSubscribed :
      (cs : List Call) (m : Registry) (s : Store C)
      → IsSubscribed m s
      → (m' : Registry) × (s' : Store C) × (deliver cs m s ≡ some (m', s', notices (calls_of t cs)))
        × IsSubscribed m' s'
  unfolding deliver
  deliver-IsSubscribed [] m s v = (m, s, refl, v)
  deliver-IsSubscribed (Triggers.activate u ∷ cs) m s v = elim (Bool-cases (trigger_eq u t)) [
    | inl hit ↦
        let eq : u ≡ t = (trigger_eq_iff u t).0 hit in
        let (s1, e, v1) = trigger_activation-IsSubscribed m s v in
        let (m', s', f, v') = deliver-IsSubscribed cs (enter t m) s1 v1 in
        let here : trigger_activation u m s ≡ some (enter t m, s1, c ∷ []) = rw eq e in
        (m', s', rw (here, deliver) (rw (f, hit) refl), v')
    | inr miss ↦
        let apart : trigger_eq t u ≡ false =
          ground (arith, trigger_eq_iff t u, trigger_eq_iff u t) in
        let (e, v1) = trigger_activation_other u m s apart v in
        let (m', s', f, v') = deliver-IsSubscribed cs (enter u m) s v1 in
        (m', s', rw (e, deliver) (rw (f, miss) refl), v')
  ]
  deliver-IsSubscribed (Triggers.deactivate u ∷ cs) m s v =
      let (m', s', f, v') =
        deliver-IsSubscribed cs (trigger_deactivation u m s).0 (trigger_deactivation u m s).1
          (trigger_deactivation-IsSubscribed u m s v) in
      let quiet : notices (calls_of t (Triggers.deactivate u ∷ cs)) ≡ notices (calls_of t cs) =
        ground arith in
      (m', s', rw quiet f, v')
