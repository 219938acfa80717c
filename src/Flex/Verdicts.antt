-- ===== src/Flex/Verdicts.antt =====
-- What the loop notes and finds in a state, as what the rules in the running accept there.
use zpr_res_monitor.Prelude.{
  ℕ, zero, suc, ◌+◌, ◌≡◌, refl, sym, ◌∙◌, ap, true, Option, none, some, inl, inr, ◌⊎◌, arith,
  Option-cases,
}
use mathlib.Core.Option.{some-injective}
use zpr_res_monitor.Lexer.Rules.{Action}
use zpr_res_monitor.Flex.Numbers.{entry}
use zpr_res_monitor.Flex.Accepting.{yy_accept}
use zpr_res_monitor.Flex.Cases.{case_of}
use zpr_res_monitor.Flex.Machine.{Stop, note_accepting, yy_find_action}
use zpr_res_monitor.Flex.Residual.{ending}
use zpr_res_monitor.Flex.Reached.{running_at, is_state}
use zpr_res_monitor.Flex.Views.{verdict}
use zpr_res_monitor.Flex.Greedy.{or_else}
use zpr_res_monitor.Flex.Choice.{Found, at_zero}
use zpr_res_monitor.Flex.Rows.{verdict-ending}

abbrev pub body : Option Action → ℕ → Found
body none n = none
body (some a) n = some (a, n)

abbrev accepted : Option ℕ → ℕ → Found
accepted none n = none
accepted (some act) n = body (case_of act) n

-- What a noted state stands for.
abbrev pub noted : Option (ℕ × ℕ) → Found
noted none = none
noted (some (s, n)) = accepted (entry yy_accept s) n

abbrev pub of_case : Option (ℕ × ℕ) → Found
of_case none = none
of_case (some (act, n)) = body (case_of act) n

abbrev pub resolve : Option Stop → Found
resolve none = none
resolve (some stop) = of_case (yy_find_action stop)

abbrev pub moved : ℕ → Found → Found
moved n none = none
moved n (some (a, m)) = some (a, n + m)

-- What a state accepts at a position.
abbrev pub accepts_at : ℕ → ℕ → Found
accepts_at s n = moved n (at_zero (ending (running_at s)))

abbrev first_step : Option ℕ → Option (Option Action)
first_step o = elim o [
  | none ↦ none
  | some zero ↦ some none
  | some (suc a) ↦ elim (case_of (suc a)) [ none ↦ none | some x ↦ some (some x) ]
]

-- A state that accepts names a case; one that does not has 0 in the table.
accepting-cases :
    (o : Option ℕ) (v : Option Action)
    → first_step o ≡ some v
    → ((o ≡ some 0) × (v ≡ none))
      ⊎ ((a : ℕ) × (x : Action) × (o ≡ some (suc a)) × (case_of (suc a) ≡ some x) × (v ≡ some x))
accepting-cases none v h = cc
accepting-cases (some zero) v h = inl (refl, sym (some-injective _ _ h))
accepting-cases (some (suc a)) v h = elim (Option-cases (case_of (suc a))) [
  | inl e ↦ let no : first_step (some (suc a)) ≡ none = rw (e, first_step) refl in cc
  | inr (x, e) ↦
      let yes : first_step (some (suc a)) ≡ some (some x) = rw (e, first_step) refl in
      inr (a, x, refl, e, sym (some-injective _ _ (sym yes ∙ h)))
]

state-accepting :
    (s : ℕ)
    → is_state s ≡ true
    → ((entry yy_accept s ≡ some 0) × (ending (running_at s) ≡ none))
      ⊎ ((a : ℕ) × (x : Action) × (entry yy_accept s ≡ some (suc a))
          × (case_of (suc a) ≡ some x)
          × (ending (running_at s) ≡ some x))
unfolding verdict
state-accepting s h =
    accepting-cases (entry yy_accept s) (ending (running_at s)) (verdict-ending s h)

pub note-lem :
    (s n : ℕ) (last : Option (ℕ × ℕ))
    → is_state s ≡ true
    → (last' : Option (ℕ × ℕ)) × (note_accepting s n last ≡ some last')
      × (noted last' ≡ or_else (accepts_at s n) (noted last))
unfolding note_accepting
note-lem s n last h = elim (state-accepting s h) [
  | inl (e, none_ends) ↦ (last, rw (e, note_accepting) refl, rw none_ends refl)
  | inr (a, x, e, named, ends) ↦ (
    some (s, n),
    rw (e, note_accepting) refl,
    rw (e, ends) (rw named (ap (λ m. some (x, m)) (omega arith))),
  )
]

-- Backing up.
abbrev pub back_up : Option (ℕ × ℕ) → Option (ℕ × ℕ)
back_up last = elim last [
  | none ↦ none
  | some (s, n) ↦ elim (entry yy_accept s) [ none ↦ none | some a ↦ some (a, n) ]
]

noted-of_case : (last : Option (ℕ × ℕ)) → of_case (back_up last) ≡ noted last
noted-of_case none = refl
noted-of_case (some (s, n)) = elim (Option-cases (entry yy_accept s)) [
  | inl e ↦ rw (e, back_up) refl
  | inr (a, e) ↦ rw (e, back_up) refl
]

pub find-lem :
    (s n : ℕ) (last : Option (ℕ × ℕ))
    → is_state s ≡ true
    → resolve (some (record { current = s; last = last; position = n }))
      ≡ or_else (accepts_at s n) (noted last)
unfolding yy_find_action
find-lem s n last h = elim (state-accepting s h) [
  | inl (e, none_ends) ↦ rw none_ends (rw (e, yy_find_action) (noted-of_case last))
  | inr (a, x, e, named, ends) ↦
      rw ends (rw (e, yy_find_action) (rw named (ap (λ m. some (x, m)) (omega arith))))
]
