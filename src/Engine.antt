-- ===== src/Engine.antt =====
-- include/PredicateEngine.hpp. The shared predicates live in a store from identities to objects; a
-- `weak_ptr` is an identity, and `lock` reads the store, where `none` is an object that is gone.
pub mod Delivery
pub mod Subscriber
pub mod Lasting
use zpr_res_monitor.Prelude.{
  ℕ, ◌==◌, Bool, Option, none, some, List, [], ◌∷◌, ◌++◌, lookup, if◌then◌else◌,
}
use zpr_res_monitor.Config.Types.{TriggerType, trigger_eq}
use zpr_res_monitor.Predicate.{Predicate, activate, deactivate, get_predicate_operands}
use zpr_res_monitor.Sampling.Triggers.{Call}
use zpr_res_monitor.Sampling.Triggers

-- `predicates`.
abbrev pub Registry : Type 0
Registry = List (TriggerType × List ℕ)

-- `predicates[triggerType].push_back(predicate)`.
unfoldable pub push_back : TriggerType → ℕ → Registry → Registry
unfolding trigger_eq
push_back t i [] = (t, i ∷ []) ∷ []
push_back t i ((u, is) ∷ m) =
    if trigger_eq u t then (u, is ++ (i ∷ [])) ∷ m else (u, is) ∷ push_back t i m

-- The loop over the operands. The `std::move` in it copies into a `weak_ptr`, and so moves nothing.
unfoldable pub register : ℕ → List TriggerType → Registry → Registry
unfolding push_back
register i [] m = m
register i (t ∷ ts) m = register i ts (push_back t i m)

-- `predicates[triggerType]`: a missing vector is an empty one, and is entered.
unfoldable pub registered : TriggerType → Registry → List ℕ
unfolding trigger_eq
registered t m = elim (lookup trigger_eq t m) [ none ↦ [] | some is ↦ is ]

unfoldable pub enter : TriggerType → Registry → Registry
unfolding trigger_eq
enter t [] = (t, []) ∷ []
enter t ((u, is) ∷ m) = if trigger_eq u t then (u, is) ∷ m else (u, is) ∷ enter t m

abbrev pub Store : Type 0 → Type 0
Store C = ℕ → Option (Predicate C)

module _ {C : Type 0} where
  unfoldable pub put : ℕ → Predicate C → Store C → Store C
  put i p s j = if i == j then some p else s j

  unfoldable pub add_predicate : ℕ → Predicate C → Registry → Registry
  unfolding register get_predicate_operands
  add_predicate i p m = register i (get_predicate_operands p) m

  unfoldable pub add_predicates : List (ℕ × Predicate C) → Registry → Registry
  unfolding add_predicate
  add_predicates [] m = m
  add_predicates ((i, p) ∷ ps) m = add_predicates ps (add_predicate i p m)

  -- The loop of `triggerActivation`; `none` is an exception out of a predicate.
  unfoldable pub activate_all : TriggerType → List ℕ → Store C → Option (Store C × List C)
  unfolding activate put
  activate_all t [] s = some (s, [])
  activate_all t (i ∷ is) s = elim (s i) [
    | none ↦ activate_all t is s
    | some p ↦ elim (activate t p) [
      | none ↦ none
      | some (q, calls) ↦ elim (activate_all t is (put i q s)) [
        | none ↦ none
        | some (s', later) ↦ some (s', calls ++ later)
      ]
    ]
  ]

  unfoldable pub deactivate_all : TriggerType → List ℕ → Store C → Store C
  unfolding deactivate put
  deactivate_all t [] s = s
  deactivate_all t (i ∷ is) s = elim (s i) [
    | none ↦ deactivate_all t is s
    | some p ↦ deactivate_all t is (put i (deactivate t p) s)
  ]

  -- `triggerActivation` and `triggerDeactivation`, with the registry that `operator[]` leaves.
  unfoldable pub trigger_activation :
      TriggerType → Registry → Store C → Option (Registry × Store C × List C)
  unfolding activate_all registered enter
  trigger_activation t m s = elim (activate_all t (registered t m) s) [
    | none ↦ none
    | some (s', calls) ↦ some (enter t m, s', calls)
  ]

  unfoldable pub trigger_deactivation : TriggerType → Registry → Store C → Registry × Store C
  unfolding deactivate_all registered enter
  trigger_deactivation t m s = (enter t m, deactivate_all t (registered t m) s)

  -- `connectPredicateEngine` makes these two the callbacks of the sampling manager: its calls, in
  -- order.
  unfoldable pub deliver : List Call → Registry → Store C → Option (Registry × Store C × List C)
  unfolding trigger_activation trigger_deactivation
  deliver [] m s = some (m, s, [])
  deliver (Triggers.activate t ∷ cs) m s = elim (trigger_activation t m s) [
    | none ↦ none
    | some (m', s', calls) ↦ elim (deliver cs m' s') [
      | none ↦ none
      | some (m'', s'', later) ↦ some (m'', s'', calls ++ later)
    ]
  ]
  deliver (Triggers.deactivate t ∷ cs) m s =
      let (m', s') = trigger_deactivation t m s in deliver cs m' s'
