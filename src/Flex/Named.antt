-- ===== src/Flex/Named.antt =====
-- The case and the length that a match finds, and the text that it takes.
use zpr_res_monitor.Prelude.{
  ℕ, zero, suc, ◌≤◌, ◌==◌, ◌≡◌, refl, sym, ◌∙◌, ap, false, Option, none, some, inl, inr, [], ◌∷◌,
  ◌++◌, Text, length, take, drop, arith, Option-cases, Bool-cases, ==_iff,
}
use mathlib.Core.Option.{some-injective}
use zpr_res_monitor.Lexer.Rules.{Action}
use zpr_res_monitor.Flex.Numbers.{entry}
use zpr_res_monitor.Flex.Accepting.{yy_accept}
use zpr_res_monitor.Flex.Cases.{case_of}
use zpr_res_monitor.Flex.Machine.{Stop, yy_find_action}
use zpr_res_monitor.Flex.Verdicts.{body, of_case, back_up}
use zpr_res_monitor.Flex.Filling.{Within}

-- The case behind a body, and its number, which is not the one of the end of the buffer.
pub record Named (found : Option (ℕ × ℕ)) (a : Action) (n : ℕ) : Type 0 where
  pub act : ℕ
  pub is_found : found ≡ some (act, n)
  pub named : case_of act ≡ some a
  pub not_end : (act == 71) ≡ false

no_case_71 : case_of 71 ≡ none
unfolding case_of
no_case_71 = refl

pub Named-from :
    (found : Option (ℕ × ℕ)) (a : Action) (n : ℕ) → of_case found ≡ some (a, n) → Named found a n
Named-from none a n e = cc
Named-from (some (act, m)) a n e = elim (Option-cases (case_of act)) [
  | inl f ↦ let no : body (case_of act) m ≡ none = rw f refl in cc
  | inr (x, f) ↦
      let yes : some (x, m) ≡ some (a, n) = sym (ap (λ o. body o m) f) ∙ e in
      let both : (x, m) ≡ (a, n) = some-injective _ _ yes in
      record {
        act = act;
        is_found = ap (λ p. some (act, p.1)) both;
        named = f ∙ ap (λ p. some p.0) both;
        not_end = elim (Bool-cases (act == 71)) [
          | inl hit ↦
              let end : case_of act ≡ none = ap case_of ((==_iff act 71).0 hit) ∙ no_case_71 in cc
          | inr miss ↦ miss
        ];
      }
]

abbrev after_accept : Option ℕ → Stop → Option (ℕ × ℕ)
after_accept o stop = elim o [
  | none ↦ none
  | some (suc a) ↦ some (suc a, stop.position)
  | some zero ↦ back_up stop.last
]

back_up-le :
    (last : Option (ℕ × ℕ)) (bound act n : ℕ)
    → Within bound last
    → back_up last ≡ some (act, n)
    → n ≤ bound
back_up-le none bound act n w e = cc
back_up-le (some (s, position)) bound act n w e = elim (Option-cases (entry yy_accept s)) [
  | inl f ↦ let no : back_up (some (s, position)) ≡ none = rw (f, back_up) refl in cc
  | inr (a, f) ↦
      let yes : back_up (some (s, position)) ≡ some (a, position) = rw (f, back_up) refl in
      let same : position ≡ n = ap (λ p. p.1) (some-injective _ _ (sym yes ∙ e)) in
      omega (arith, w, same)
]

-- The length of a match is within the bound of the positions.
after_accept-le :
    (o : Option ℕ) (stop : Stop) (bound act n : ℕ)
    → stop.position ≤ bound
    → Within bound stop.last
    → after_accept o stop ≡ some (act, n)
    → n ≤ bound
after_accept-le none stop bound act n h w e = cc
after_accept-le (some (suc a)) stop bound act n h w e =
    let same : stop.position ≡ n = ap (λ p. p.1) (some-injective _ _ e) in omega (arith, h, same)
after_accept-le (some zero) stop bound act n h w e = back_up-le stop.last bound act n w e

pub find_action-le :
    (stop : Stop) (bound act n : ℕ)
    → stop.position ≤ bound
    → Within bound stop.last
    → yy_find_action stop ≡ some (act, n)
    → n ≤ bound
unfolding yy_find_action
find_action-le stop bound act n h w e =
    after_accept-le (entry yy_accept stop.current) stop bound act n h w e

pub take-append : (n : ℕ) (xs ys : Text) → n ≤ length xs → take n (xs ++ ys) ≡ take n xs
take-append zero xs ys h = refl
take-append (suc n) [] ys h = absurd (omega (arith, h))
take-append (suc n) (x ∷ xs) ys h = ap (◌∷◌ x) (take-append n xs ys (omega (arith, h)))

pub drop-append : (n : ℕ) (xs ys : Text) → n ≤ length xs → drop n (xs ++ ys) ≡ drop n xs ++ ys
drop-append zero xs ys h = refl
drop-append (suc n) [] ys h = absurd (omega (arith, h))
drop-append (suc n) (x ∷ xs) ys h = drop-append n xs ys (omega (arith, h))
