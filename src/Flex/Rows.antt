-- ===== src/Flex/Rows.antt =====
-- What each state of the tables does, in terms of the rules in the running.
use zpr_res_monitor.Prelude.{
  every, and_true, ℕ, zero, suc, ◌+◌, ◌-◌, ◌<◌, ◌≤◌, ◌≢◌, ◌==◌, ◌≡◌, refl, sym, ◌∙◌, ap, true,
  false, ◌&&◌, ◌||◌, not, some, inl, inr, List, [], ◌∷◌, map, drop, ltb, arith, get_elem?,
  Option-cases, Bool-cases,
}
use mathlib.Core.Option.{some-injective}
use zpr_res_monitor.Flex.Numbers.{entry}
use zpr_res_monitor.Flex.Accepting.{yy_ec}
use zpr_res_monitor.Flex.States.{yy_base}
use zpr_res_monitor.Flex.Machine.{next_of}
use zpr_res_monitor.Flex.Residual.{advance, ending}
use zpr_res_monitor.Flex.Reached.{running_at, classes, is_state}
use zpr_res_monitor.Flex.Views.{
  known_running, verdict, table_step, is_closed, table_view, rule_view,
}
use zpr_res_monitor.Flex.Agreement.{range, views_1_22, views_24_99, views_100_199, views_200_315}
use zpr_res_monitor.Flex.Classes.{every-at, get_elem?-range, IsByte, class_of, advance-agree}

map-at :
    {A : Type 0} {B : Type 0} (f g : A → B) (xs : List A) (i : ℕ) {x : A}
    → map f xs ≡ map g xs
    → get_elem? xs i ≡ some x
    → f x ≡ g x
map-at f g [] i h e = cc
map-at f g (y ∷ xs) zero {x} h e =
    let first : f y ≡ g y = some-injective _ _ (ap (λ l. get_elem? l 0) h) in
    let same : y ≡ x = some-injective _ _ e in ap f (sym same) ∙ first ∙ ap g same
map-at f g (y ∷ xs) (suc i) h e = map-at f g xs i (ap (drop 1) h) e

pub range-at :
    {B : Type 0} (f g : ℕ → B) (s n t : ℕ)
    → map f (range s n) ≡ map g (range s n)
    → s ≤ t
    → t < s + n
    → f t ≡ g t
range-at f g s n t h low high =
    let back : s + (t - s) ≡ t = omega (arith, low) in
    map-at f g (range s n) (t - s) h
      (get_elem?-range s n (t - s) (omega (arith, low, high)) ∙ ap some back)

pub is_state-bounds : (s : ℕ) → is_state s ≡ true → (1 ≤ s) × (s ≤ 315) × (s ≢ 23)
unfolding is_state
is_state-bounds s h = ground (arith, h)

-- The tables and the rules say the same of each state that a text can lead to.
view-eq : (s : ℕ) → is_state s ≡ true → table_view s ≡ rule_view s
view-eq s h =
    let (low, high, other) = is_state-bounds s h in
    elim (Bool-cases (ltb s 23)) [
      | inl first ↦ range-at table_view rule_view 1 22 s views_1_22 low (ground (arith, first))
      | inr later ↦ elim (Bool-cases (ltb s 100)) [
        | inl second ↦
            range-at table_view rule_view 24 76 s views_24_99 (ground (arith, later, other))
              (ground (arith, second))
        | inr later2 ↦ elim (Bool-cases (ltb s 200)) [
          | inl third ↦
              range-at table_view rule_view 100 100 s views_100_199 (ground (arith, later2))
                (ground (arith, third))
          | inr fourth ↦
              range-at table_view rule_view 200 116 s views_200_315 (ground (arith, fourth))
                (omega (arith, high))
        ]
      ]
    ]

-- What the state accepts is the first of the rules in the running that may end.
pub verdict-ending : (s : ℕ) → is_state s ≡ true → verdict s ≡ some (ending (running_at s))
unfolding table_view rule_view
verdict-ending s h = ap (λ v. v.accepts) (view-eq s h)

step-at :
    (s i k d : ℕ)
    → is_state s ≡ true
    → get_elem? classes i ≡ some (k, d)
    → table_step s k ≡ some (advance (running_at s) d)
unfolding table_view rule_view
step-at s i k d h e =
    map-at (λ p. table_step s p.0) (λ p. some (advance (running_at s) p.1)) classes i
      (ap (λ v. v.steps) (view-eq s h)) e

closed-known :
    (s : ℕ)
    → is_state s ≡ true
    → (every (λ p. is_closed s p.0) classes ≡ true) × (known_running (running_at s) ≡ true)
unfolding table_view rule_view
closed-known s h = and_true _ _ (ap (λ v. v.closed) (view-eq s h))

is_closed-true :
    (s k : ℕ)
    → is_closed s k ≡ true
    → (s' : ℕ) × (base : ℕ) × (next_of s k ≡ some s')
      × (entry yy_base s ≡ some base)
      × (is_state s' ≡ true)
      × ((base == 1150) ≡ true → s' ≡ 315)
unfolding is_closed
is_closed-true s k h = elim (Option-cases (next_of s k)) [
  | inl e ↦ let no : is_closed s k ≡ false = rw (e, is_closed) refl in cc
  | inr (s', e) ↦ elim (Option-cases (entry yy_base s)) [
    | inl f ↦ let no : is_closed s k ≡ false = rw (e, is_closed) (rw (f, is_closed) refl) in cc
    | inr (base, f) ↦
        let yes : is_closed s k ≡ (is_state s' && (not (base == 1150) || s' == 315)) =
          rw (e, is_closed) (rw (f, is_closed) refl) in
        let (state, leaves) = and_true _ _ (sym yes ∙ h) in
        (s', base, e, f, state, λ last. ground (arith, leaves, last))
  ]
]

-- A step of the loop from a state that a text can lead to.
pub record Stepped (s c : ℕ) : Type 0 where
  pub class : ℕ
  pub target : ℕ
  pub base : ℕ
  pub class-at : entry yy_ec c ≡ some class
  pub target-at : next_of s class ≡ some target
  pub base-at : entry yy_base s ≡ some base
  pub target-IsState : is_state target ≡ true
  pub target-running : running_at target ≡ advance (running_at s) c
  pub leaves : (base == 1150) ≡ true → target ≡ 315

pub stepped : (s c : ℕ) → is_state s ≡ true → IsByte c → Stepped s c
unfolding table_step
stepped s c h byte =
    let (k, d, read, at, alike) = class_of c byte in
    let (all_closed, known) = closed-known s h in
    let closed : is_closed s k ≡ true =
      every-at (λ p. is_closed s p.0) classes (k - 1) all_closed at in
    let (s', base, next, row, state, last) = is_closed-true s k closed in
    let both : some (running_at s') ≡ some (advance (running_at s) d) =
      sym (rw (next, table_step) refl) ∙ step-at s (k - 1) k d h at in
    record {
      class = k;
      target = s';
      base = base;
      class-at = read;
      target-at = next;
      base-at = row;
      target-IsState = state;
      target-running = some-injective _ _ both ∙ sym (advance-agree (running_at s) c d alike known);
      leaves = last;
    }
