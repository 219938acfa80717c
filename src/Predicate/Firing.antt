-- ===== src/Predicate/Firing.antt =====
-- A predicate over a run of activations and deactivations, against a specification that sees only
-- which triggers are active.
use mathlib.Core.Path.{fun_ext}
use zpr_res_monitor.Prelude.{
  ◌≡◌, refl, Bool, true, false, Option, none, some, List, [], ◌∷◌, ◌++◌, All, arith, insert,
  if◌then◌else◌, ◌∙◌, ap,
}
use zpr_res_monitor.Config.Types.{TriggerType, trigger_eq}
use zpr_res_monitor.Predicate.{Predicate, Kind, or_and, TriggerState, activate, deactivate}
use zpr_res_monitor.Predicate.Invariant.{
  IsValid, verdict, next_last, value_of, lookup-insert, activated, activate_lem, deactivate-IsValid,
}

-- A call of `activate` or `deactivate`.
pub data Op : Type 0 where
  switch_on switch_off : TriggerType → Op

abbrev pub IsOn : Op → Type 0
IsOn (switch_on t) = Unit
IsOn (switch_off t) = ⊥

-- The active triggers after one of them changed.
abbrev pub update : (TriggerType → Bool) → TriggerType → Bool → TriggerType → Bool
update v t b u = if trigger_eq t u then b else v u

-- The callbacks that the documented rule calls for, over the active triggers `v`.
pub firings : {C : Type 0} → C → Kind → Bool → (TriggerType → Bool) → List Op → List C
firings c k last v [] = []
firings c k last v (switch_on t ∷ ops) =
    (if verdict k last (update v t true) then c ∷ [] else [])
    ++ firings c k (next_last k last (update v t true)) (update v t true) ops
firings c k last v (switch_off t ∷ ops) = firings c k last (update v t false) ops

value_of-insert :
    (t : TriggerType) (b : Bool) (m : TriggerState)
    → value_of (insert trigger_eq t b m) ≡ update (value_of m) t b
value_of-insert t b m = fun_ext λ u. ground (arith, lookup-insert u t b m)

module _ {C : Type 0} where
  pub run_ops : List Op → Predicate C → Option (Predicate C × List C)
  run_ops [] p = some (p, [])
  run_ops (switch_on t ∷ ops) p = elim (activate t p) [
    | none ↦ none
    | some (q, calls) ↦ elim (run_ops ops q) [
      | none ↦ none
      | some (r, later) ↦ some (r, calls ++ later)
    ]
  ]
  run_ops (switch_off t ∷ ops) p = run_ops ops (deactivate t p)

  -- A valid predicate never throws, and over any run of activations and deactivations it calls its
  -- callback as the rule of its kind says from the active triggers alone.
  pub run_ops-eq-firings :
      (ops : List Op) (p : Predicate C)
      → IsValid p
      → (q : Predicate C) × (run_ops ops p
          ≡ some (q, firings p.callback p.kind p.last_satisfied (value_of p.trigger_state) ops))
  unfolding run_ops firings deactivate
  run_ops-eq-firings [] p v = (p, refl)
  run_ops-eq-firings (switch_on t ∷ ops) p v =
      let (e, v') = activate_lem t p v in
      let (q, h) = run_ops-eq-firings ops (activated t p) v' in
      (q, rw (e, run_ops) (rw h (rw (value_of-insert t true p.trigger_state) refl)))
  run_ops-eq-firings (switch_off t ∷ ops) p v =
      let (q, h) = run_ops-eq-firings ops (deactivate t p) (deactivate-IsValid t p v) in
      (q, rw (value_of-insert t false p.trigger_state) at h)

  firings_muted :
      (x : C) (a b c : TriggerType) (v : TriggerType → Bool) (ops : List Op)
      → v a ≡ true
      → v b ≡ true
      → v c ≡ true
      → All IsOn ops
      → firings x (or_and a b c) true v ops ≡ []
  unfolding firings
  firings_muted x a b c v [] ha hb hc on = refl
  firings_muted x a b c v (switch_on t ∷ ops) ha hb hc on =
      let ha' : update v t true a ≡ true = ground arith in
      let hb' : update v t true b ≡ true = ground arith in
      let hc' : update v t true c ≡ true = ground arith in
      let later = firings_muted x a b c (update v t true) ops ha' hb' hc' on.1 in
      rw (ha', hb', hc') later
  firings_muted x a b c v (switch_off t ∷ ops) ha hb hc on = absurd on.0

  -- Once a valid predicate `(a OR b) AND c` has all three triggers active and was last satisfied, no
  -- number of further activations, of whatever triggers, ever calls its callback again.
  pub run_ops_muted :
      (p : Predicate C) (a b c : TriggerType) (ops : List Op)
      → IsValid p
      → p.kind ≡ or_and a b c
      → p.last_satisfied ≡ true
      → value_of p.trigger_state a ≡ true
      → value_of p.trigger_state b ≡ true
      → value_of p.trigger_state c ≡ true
      → All IsOn ops
      → (q : Predicate C) × (run_ops ops p ≡ some (q, []))
  run_ops_muted p a b c ops v k l ha hb hc on =
      let (q, e) = run_ops-eq-firings ops p v in
      let silent : firings p.callback p.kind p.last_satisfied (value_of p.trigger_state) ops ≡ [] =
        rw (k, l) (firings_muted p.callback a b c (value_of p.trigger_state) ops ha hb hc on) in
      (q, e ∙ ap (λ calls. some (q, calls)) silent)
