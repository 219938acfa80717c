-- ===== src/Flex/Simulation.antt =====
-- The matching loop on the tables finds what the rules of the start condition choose.
use zpr_res_monitor.Prelude.{
  ℕ, suc, ◌==◌, ◌≡◌, refl, sym, ◌∙◌, ap, true, Option, none, some, inl, inr, [], ◌∷◌, Text, All,
  arith, Option-cases, Bool-cases,
}
use mathlib.Core.Option.{some-injective}
use zpr_res_monitor.Lexer.State.{
  Condition, initial, log_env, trigger_env, resource_set_env, resource_single_no_env,
  trigger_duration_set_env, trigger_duration_single_no_env, log_duration_set_env,
  log_duration_single_no_env, log_resolution_set_env, log_resolution_single_no_env,
}
use zpr_res_monitor.Lexer.Table.{rules_of}
use zpr_res_monitor.Lexer.Scan.{next_match}
use zpr_res_monitor.Flex.Numbers.{entry}
use zpr_res_monitor.Flex.States.{yy_base}
use zpr_res_monitor.Flex.Cases.{case_of}
use zpr_res_monitor.Flex.Machine.{yy_start, yy_match, yy_find_action, flex_match}
use zpr_res_monitor.Flex.Residual.{running, advance, ending}
use zpr_res_monitor.Flex.Reached.{running_at, is_state}
use zpr_res_monitor.Flex.Greedy.{or_else}
use zpr_res_monitor.Flex.Choice.{Found, at_zero, shifted, longest, longest-next_match}
use zpr_res_monitor.Flex.Classes.{IsByte}
use zpr_res_monitor.Flex.Rows.{Stepped, stepped}
use zpr_res_monitor.Flex.Verdicts.{noted, resolve, moved, accepts_at, note-lem, find-lem}

or_else-twice : {A : Type 0} (x y : Option A) → or_else x (or_else x y) ≡ or_else x y
or_else-twice none y = refl
or_else-twice (some a) y = refl

or_else-moved :
    (n : ℕ) (x e last : Found)
    → or_else (moved (suc n) x) (or_else (moved n e) last)
      ≡ or_else (moved n (or_else (shifted x) e)) last
or_else-moved n none e last = refl
or_else-moved n (some (a, m)) e last = ap (λ k. some (a, k)) (omega arith)

longest-nothing : (cs : Text) → longest [] cs ≡ none
unfolding longest advance ending
longest-nothing [] = refl
longest-nothing (c ∷ cs) = rw (longest-nothing cs) refl

last_row : running_at 315 ≡ []
unfolding running_at advance
last_row = refl

-- Where the loop leaves, no rule goes on.
longest-left :
    (s base : ℕ) (cs : Text)
    → is_state s ≡ true
    → entry yy_base s ≡ some base
    → (base == 1150) ≡ true
    → All IsByte cs
    → longest (running_at s) cs ≡ at_zero (ending (running_at s))
unfolding longest
longest-left s base [] h e last all = refl
longest-left s base (c ∷ cs) h e last (byte, all) =
    let t : Stepped s c = stepped s c h byte in
    let same : t.base ≡ base = some-injective _ _ (sym t.base-at ∙ e) in
    let end : t.target ≡ 315 = t.leaves (ap (λ b. b == 1150) same ∙ last) in
    let dead : advance (running_at s) c ≡ [] =
      sym t.target-running ∙ ap running_at end ∙ last_row in
    rw dead (rw (longest-nothing cs) refl)

-- The loop from a state finds the longest match of the rules in the running there, and otherwise what
-- it has noted before.
pub yy_match-longest :
    (s n : ℕ) (last : Option (ℕ × ℕ)) (cs : Text)
    → is_state s ≡ true
    → All IsByte cs
    → resolve (yy_match s last n cs) ≡ or_else (moved n (longest (running_at s) cs)) (noted last)
unfolding yy_match longest
yy_match-longest s n last [] h all =
    let (last', e, same) = note-lem s n last h in
    rw (e, yy_match)
      (find-lem s n last' h
        ∙ ap (or_else (accepts_at s n)) same
        ∙ or_else-twice (accepts_at s n) (noted last))
yy_match-longest s n last (c ∷ cs) h (byte, all) =
    let (last', e, same) = note-lem s n last h in
    let t : Stepped s c = stepped s c h byte in
    let next : Stepped t.target c = stepped t.target c t.target-IsState byte in
    let here = ending (running_at s) in
    let finish : or_else (moved (suc n) (longest (running_at t.target) cs)) (noted last')
        ≡ or_else (moved n (longest (running_at s) (c ∷ cs))) (noted last) =
      ap (or_else (moved (suc n) (longest (running_at t.target) cs))) same
      ∙ or_else-moved n (longest (running_at t.target) cs) (at_zero here) (noted last)
      ∙ ap (λ rs. or_else (moved n (or_else (shifted (longest rs cs)) (at_zero here))) (noted last))
          t.target-running in
    rw (e, yy_match)
      (rw (t.class-at, yy_match)
        (rw (t.target-at, yy_match)
          (rw (next.base-at, yy_match)
            (elim (Bool-cases (next.base == 1150)) [
              | inl leave ↦
                  rw (leave, yy_match)
                    (find-lem t.target (suc n) last' t.target-IsState
                      ∙ ap (λ f. or_else (moved (suc n) f) (noted last'))
                          (sym (
                            longest-left t.target next.base cs t.target-IsState next.base-at leave
                              all))
                      ∙ finish)
              | inr stay ↦
                  rw (stay, yy_match)
                    (yy_match-longest t.target (suc n) last' cs t.target-IsState all ∙ finish)
            ]))))

pub start-IsState : (k : Condition) → is_state (yy_start k) ≡ true
unfolding is_state yy_start
start-IsState initial = refl
start-IsState log_env = refl
start-IsState trigger_env = refl
start-IsState resource_set_env = refl
start-IsState resource_single_no_env = refl
start-IsState trigger_duration_set_env = refl
start-IsState trigger_duration_single_no_env = refl
start-IsState log_duration_set_env = refl
start-IsState log_duration_single_no_env = refl
start-IsState log_resolution_set_env = refl
start-IsState log_resolution_single_no_env = refl

start-running : (k : Condition) → running_at (yy_start k) ≡ running (rules_of k)
unfolding yy_start running_at
start-running initial = refl
start-running log_env = refl
start-running trigger_env = refl
start-running resource_set_env = refl
start-running resource_single_no_env = refl
start-running trigger_duration_set_env = refl
start-running trigger_duration_single_no_env = refl
start-running log_duration_set_env = refl
start-running log_duration_single_no_env = refl
start-running log_resolution_set_env = refl
start-running log_resolution_single_no_env = refl

pub resolve-flex_match :
    (k : Condition) (cs : Text) → flex_match k cs ≡ resolve (yy_match (yy_start k) none 0 cs)
unfolding flex_match
resolve-flex_match k cs = elim (Option-cases (yy_match (yy_start k) none 0 cs)) [
  | inl e ↦ rw (e, flex_match) refl
  | inr (stop, e) ↦ elim (Option-cases (yy_find_action stop)) [
    | inl f ↦ rw (e, flex_match) (rw (f, flex_match) refl)
    | inr ((act, n), f) ↦ elim (Option-cases (case_of act)) [
      | inl g ↦ rw (e, flex_match) (rw (f, flex_match) (rw (g, flex_match) refl))
      | inr (a, g) ↦ rw (e, flex_match) (rw (f, flex_match) (rw (g, flex_match) refl))
    ]
  ]
]

moved-zero : (f : Found) → or_else (moved 0 f) none ≡ f
moved-zero none = refl
moved-zero (some (a, n)) = ap (λ m. some (a, m)) (omega arith)

-- On a text with no NUL that is not empty, the generated loop on the generated tables, from the start
-- state of any condition, reads inside of the tables, never backs up to nothing, and takes the case
-- and the length that the rules choose: the longest match, of two equally long ones the earlier rule,
-- and the default rule where nothing matches.
pub flex_match-next_match :
    (k : Condition) (c : ℕ) (cs : Text)
    → All IsByte (c ∷ cs)
    → flex_match k (c ∷ cs) ≡ some (next_match k (c ∷ cs))
flex_match-next_match k c cs all =
    resolve-flex_match k (c ∷ cs)
    ∙ yy_match-longest (yy_start k) 0 none (c ∷ cs) (start-IsState k) all
    ∙ moved-zero (longest (running_at (yy_start k)) (c ∷ cs))
    ∙ ap (λ rs. longest rs (c ∷ cs)) (start-running k)
    ∙ longest-next_match k c cs
