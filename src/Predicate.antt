-- ===== src/Predicate.antt =====
-- include/Predicate.hpp, include/PredicateTypes.hpp, src/library_src/Predicate.cpp and
-- src/library_src/PredicateTypes.cpp. The three subclasses are the constructors of `Kind`; a callback
-- is an opaque value, and an operation returns the callbacks that it calls.
pub mod Invariant
pub mod Firing
pub mod Print
use zpr_res_monitor.Prelude.{
  ℕ, Bool, true, false, ◌||◌, Option, none, some, List, [], ◌∷◌, ◌++◌, lookup, insert,
  if◌then◌else◌, Text, codes,
}
use zpr_res_monitor.Config.Types.{TriggerType, trigger_eq}

-- `triggerState`.
abbrev pub TriggerState : Type 0
TriggerState = List (TriggerType × Bool)

pub data Kind : Type 0 where
  -- Predicate_1or2and3: or1Operand, or2Operand, andOperand.
  or_and : TriggerType → TriggerType → TriggerType → Kind
  -- Predicate_1and2: and1Operand, and2Operand.
  both : TriggerType → TriggerType → Kind
  -- Predicate_1element: operand.
  element : TriggerType → Kind

-- `lastSatisfied` is a member of Predicate_1or2and3 only; the other kinds do not touch it.
pub record Predicate (C : Type 0) : Type 0 where
  pub kind : Kind
  pub last_satisfied : Bool
  pub trigger_state : TriggerState
  pub callback : C

unfoldable pub operands : Kind → List TriggerType
operands (or_and a b c) = a ∷ b ∷ c ∷ []
operands (both a b) = a ∷ b ∷ []
operands (element a) = a ∷ []

-- The loop of the constructors.
unfoldable pub clear_all : List TriggerType → TriggerState → TriggerState
unfolding trigger_eq
clear_all [] m = m
clear_all (t ∷ ts) m = clear_all ts (insert trigger_eq t false m)

-- `at`: a trigger with no entry is `std::out_of_range`, which is `none`.
abbrev pub at : TriggerState → TriggerType → Option Bool
at m t = lookup trigger_eq t m

-- `&&` and `||` between values that may throw: the right one is not read if the left one decides.
infixr 35 ◌&&?◌
abbrev pub ◌&&?◌ : Option Bool → Option Bool → Option Bool
none &&? y = none
some false &&? y = some false
some true &&? y = y

infixr 30 ◌||?◌
abbrev pub ◌||?◌ : Option Bool → Option Bool → Option Bool
none ||? y = none
some true ||? y = some true
some false ||? y = y

-- `isPredicateSatisfied`: the answer, and the new `lastSatisfied`.
unfoldable pub is_satisfied : Kind → Bool → TriggerState → Option (Bool × Bool)
is_satisfied (or_and a b c) last m = elim (at m a &&? at m b &&? some last &&? at m c) [
  | none ↦ none
  | some true ↦ some (false, last)
  | some false ↦ elim ((at m a ||? at m b) &&? at m c) [ none ↦ none | some r ↦ some (r, r) ]
]
is_satisfied (both a b) last m = elim (at m a &&? at m b) [ none ↦ none | some r ↦ some (r, last) ]
is_satisfied (element a) last m = elim (at m a) [ none ↦ none | some r ↦ some (r, last) ]

module _ {C : Type 0} where
  unfoldable pub get_predicate_operands : Predicate C → List TriggerType
  unfolding operands
  get_predicate_operands p = operands p.kind

  unfoldable pub new_predicate : C → Kind → Predicate C
  unfolding operands clear_all
  new_predicate callback k = record {
    kind = k;
    last_satisfied = false;
    trigger_state = clear_all (operands k) [];
    callback = callback;
  }

  unfoldable pub set_callback : C → Predicate C → Predicate C
  set_callback c p = record p { callback = c }

  unfoldable pub activate : TriggerType → Predicate C → Option (Predicate C × List C)
  unfolding is_satisfied trigger_eq
  activate t p =
      let m = insert trigger_eq t true p.trigger_state in
      elim (is_satisfied p.kind p.last_satisfied m) [
        | none ↦ none
        | some (satisfied, last) ↦ some (
          record p { trigger_state = m; last_satisfied = last },
          if satisfied then p.callback ∷ [] else [],
        )
      ]

  unfoldable pub deactivate : TriggerType → Predicate C → Predicate C
  unfolding trigger_eq
  deactivate t p = record p { trigger_state = insert trigger_eq t false p.trigger_state }
