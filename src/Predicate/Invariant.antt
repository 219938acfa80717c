-- ===== src/Predicate/Invariant.antt =====
-- The invariant of the predicates of include/Predicate.hpp: the entries of the operands.
use zpr_res_monitor.Prelude.{
  ◌≡◌, refl, Bool, true, false, none, some, List, [], ◌∷◌, All, arith, insert, if◌then◌else◌, inl,
  inr, Bool-cases, not, ◌&&◌, ◌||◌,
}
use zpr_res_monitor.Config.Types.{TriggerType, trigger_eq, trigger_eq_iff}
use zpr_res_monitor.Predicate.{
  Predicate, Kind, or_and, both, element, TriggerState, at, clear_all, operands, new_predicate,
  is_satisfied, activate, deactivate,
}

pub lookup-insert :
    (k t : TriggerType) (v : Bool) (m : TriggerState)
    → at (insert trigger_eq t v m) k ≡ (if trigger_eq t k then some v else at m k)
lookup-insert k t v [] = ground (arith, trigger_eq_iff t k)
lookup-insert k t v ((u, w) ∷ m) =
    ground
      (arith, lookup-insert k t v m, trigger_eq_iff u t, trigger_eq_iff u k, trigger_eq_iff t k)

-- The operand has an entry.
abbrev pub HasEntry : TriggerState → TriggerType → Type 0
HasEntry m t = (b : Bool) × (at m t ≡ some b)

abbrev pub HasEntries : TriggerState → List TriggerType → Type 0
HasEntries m = All (HasEntry m)

abbrev pub IsValid : {C : Type 0} → Predicate C → Type 0
IsValid p = HasEntries p.trigger_state (operands p.kind)

HasEntry-insert :
    (t : TriggerType) (v : Bool) (m : TriggerState) (k : TriggerType)
    → HasEntry m k
    → HasEntry (insert trigger_eq t v m) k
HasEntry-insert t v m k (b, e) = elim (Bool-cases (trigger_eq t k)) [
  | inl same ↦ (v, rw (lookup-insert k t v m, same) refl)
  | inr other ↦ (b, rw (lookup-insert k t v m, other) e)
]

HasEntry-insert_self :
    (t : TriggerType) (v : Bool) (m : TriggerState) → HasEntry (insert trigger_eq t v m) t
HasEntry-insert_self t v m = (v, rw (lookup-insert t t v m, (trigger_eq_iff t t).1 refl) refl)

HasEntries-insert :
    (t : TriggerType) (v : Bool) (m : TriggerState) (ks : List TriggerType)
    → HasEntries m ks
    → HasEntries (insert trigger_eq t v m) ks
HasEntries-insert t v m [] h = tt
HasEntries-insert t v m (k ∷ ks) h = (HasEntry-insert t v m k h.0, HasEntries-insert t v m ks h.1)

HasEntry-clear_all :
    (ts : List TriggerType) (m : TriggerState) (k : TriggerType)
    → HasEntry m k
    → HasEntry (clear_all ts m) k
unfolding clear_all
HasEntry-clear_all [] m k h = h
HasEntry-clear_all (t ∷ ts) m k h =
    HasEntry-clear_all ts (insert trigger_eq t false m) k (HasEntry-insert t false m k h)

HasEntries-clear_all : (ts : List TriggerType) (m : TriggerState) → HasEntries (clear_all ts m) ts
unfolding clear_all
HasEntries-clear_all [] m = tt
HasEntries-clear_all (t ∷ ts) m = (
  HasEntry-clear_all ts (insert trigger_eq t false m) t (HasEntry-insert_self t false m),
  HasEntries-clear_all ts (insert trigger_eq t false m),
)

-- What `isPredicateSatisfied` answers, as a formula over the operands' values.
abbrev pub verdict : Kind → Bool → (TriggerType → Bool) → Bool
verdict (or_and a b c) last v = (v a || v b) && v c && not (v a && v b && last)
verdict (both a b) last v = v a && v b
verdict (element a) last v = v a

-- The new `lastSatisfied`: it stays while the repeated firing is held back.
abbrev pub next_last : Kind → Bool → (TriggerType → Bool) → Bool
next_last (or_and a b c) last v = (v a || v b) && v c
next_last (both a b) last v = last
next_last (element a) last v = last

-- The value of an entry, if it has one.
abbrev pub value_of : TriggerState → TriggerType → Bool
value_of m t = elim (at m t) [ none ↦ false | some b ↦ b ]

is_satisfied_lem :
    (k : Kind) (last : Bool) (m : TriggerState)
    → HasEntries m (operands k)
    → is_satisfied k last m ≡ some (verdict k last (value_of m), next_last k last (value_of m))
unfolding is_satisfied operands
is_satisfied_lem (or_and a b c) last m h = ground arith
is_satisfied_lem (both a b) last m h = ground arith
is_satisfied_lem (element a) last m h = ground arith

module _ {C : Type 0} where
  pub new_predicate-IsValid : (c : C) (k : Kind) → IsValid (new_predicate c k)
  unfolding new_predicate
  new_predicate-IsValid c k = HasEntries-clear_all (operands k) []

  pub deactivate-IsValid :
      (t : TriggerType) (p : Predicate C) → IsValid p → IsValid (deactivate t p)
  unfolding deactivate
  deactivate-IsValid t p v = HasEntries-insert t false p.trigger_state (operands p.kind) v

  -- The predicate after `activate`.
  abbrev pub activated : TriggerType → Predicate C → Predicate C
  activated t p =
      let m = insert trigger_eq t true p.trigger_state in
      record p {
        trigger_state = m;
        last_satisfied = next_last p.kind p.last_satisfied (value_of m);
      }

  -- The callbacks that `activate` calls.
  abbrev pub called : TriggerType → Predicate C → List C
  called t p =
      if verdict p.kind p.last_satisfied (value_of (insert trigger_eq t true p.trigger_state))
      then p.callback ∷ []
      else []

  -- Activating a trigger of a valid predicate never throws: it sets the trigger's entry, keeps the
  -- predicate valid, and calls the callback exactly on the verdict of the new values.
  pub activate_lem :
      (t : TriggerType) (p : Predicate C)
      → IsValid p
      → (activate t p ≡ some (activated t p, called t p)) × IsValid (activated t p)
  unfolding activate
  activate_lem t p v =
      let entries = HasEntries-insert t true p.trigger_state (operands p.kind) v in
      (
        rw
            (
              is_satisfied_lem p.kind p.last_satisfied (insert trigger_eq t true p.trigger_state)
                  entries,
              activate,
            )
            refl,
        entries,
      )
