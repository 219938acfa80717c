-- ===== src/Flex/Greedy.antt =====
-- Taking a pattern one character at a time finds the match that takes as much as possible part by part.
use zpr_res_monitor.Prelude.{
  ℕ, suc, ◌+◌, ◌==◌, ◌≡◌, refl, sym, ◌∙◌, ap, Bool, true, false, Option, none, some, inl, inr, List,
  [], ◌∷◌, ◌++◌, Text, map, drop, arith, Bool-cases, Option-cases,
}
use zpr_res_monitor.Lexer.Pattern.{
  Part, spaces, some_spaces, number, newlines, some_newlines, any_case, literal, span, match_word,
  at_least_one, to_lower, match_part, match_parts,
}
use zpr_res_monitor.Flex.Residual.{
  Atom, space, digit, newline, letter, character, test, many, some_of, once, Residual, pieces_of,
  residual, after, may_end,
}

abbrev pub or_else {ℓ} : {A : Type ℓ} → Option A → Option A → Option A
or_else none y = y
or_else (some x) y = some x

abbrev pub here_if : Bool → Option ℕ
here_if true = some 0
here_if false = none

abbrev pub one_more : Option ℕ → Option ℕ
one_more none = none
one_more (some n) = some (suc n)

-- The last place where a match may end.
unfoldable pub last_end : Option Residual → Text → Option ℕ
last_end none cs = none
last_end (some r) [] = here_if (may_end r)
last_end (some r) (c ∷ cs) = or_else (one_more (last_end (after r c) cs)) (here_if (may_end r))

abbrev plus : ℕ → Option ℕ → Option ℕ
plus n none = none
plus n (some m) = some (n + m)

abbrev behind : Option ℕ → Residual → Text → Option ℕ
behind none r cs = none
behind (some n) r cs = plus n (last_end (some r) (drop n cs))

last_end-some :
    (r : Residual) (cs : Text) → may_end r ≡ true → (n : ℕ) × (last_end (some r) cs ≡ some n)
unfolding last_end
last_end-some r [] h = (0, rw h refl)
last_end-some r (c ∷ cs) h = elim (Option-cases (last_end (after r c) cs)) [
  | inl f ↦ (0, rw (f, h) refl)
  | inr (n, f) ↦ (suc n, rw f refl)
]

absorb :
    (r : Residual) (n : ℕ) (cs : Text)
    → or_else (one_more (plus n (last_end (some r) cs))) (here_if (may_end r))
      ≡ plus (suc n) (last_end (some r) cs)
absorb r n cs = elim (Option-cases (last_end (some r) cs)) [
  | inr (m, e) ↦ rw e (ap some (omega arith))
  | inl e ↦ elim (Bool-cases (may_end r)) [
    | inl h ↦ let (m, f) = last_end-some r cs h in cc
    | inr h ↦ rw (e, h) refl
  ]
]

plus-zero : (o : Option ℕ) → plus 0 o ≡ o
plus-zero none = refl
plus-zero (some n) = ap some (omega arith)

last_end-many :
    (a : Atom) (r : Residual) (cs : Text)
    → last_end (some (many a ∷ r)) cs
      ≡ plus (span (test a) cs) (last_end (some r) (drop (span (test a) cs) cs))
unfolding last_end after may_end
last_end-many a r [] = sym (plus-zero (here_if (may_end r)))
last_end-many a r (c ∷ cs) = elim (Bool-cases (test a c)) [
  | inl h ↦ rw h (
      ap (λ o. or_else (one_more o) (here_if (may_end r))) (last_end-many a r cs)
      ∙ absorb r (span (test a) cs) (drop (span (test a) cs) cs))
  | inr h ↦ rw h (sym (plus-zero _))
]

or_none : (o : Option ℕ) → or_else o none ≡ o
or_none none = refl
or_none (some n) = refl

one_more-plus : (n : ℕ) (o : Option ℕ) → one_more (plus n o) ≡ plus (suc n) o
one_more-plus n none = refl
one_more-plus n (some m) = ap some (omega arith)

last_end-some_of :
    (a : Atom) (r : Residual) (cs : Text)
    → last_end (some (some_of a ∷ r)) cs ≡ behind (at_least_one (span (test a) cs)) r cs
unfolding last_end after may_end
last_end-some_of a r [] = refl
last_end-some_of a r (c ∷ cs) = elim (Bool-cases (test a c)) [
  | inl h ↦ rw h (
      or_none _
      ∙ ap one_more (last_end-many a r cs)
      ∙ one_more-plus (span (test a) cs) (last_end (some r) (drop (span (test a) cs) cs)))
  | inr h ↦ rw h refl
]

abbrev grown : Option ℕ → Option ℕ
grown o = elim o [ none ↦ none | some n ↦ some (suc n) ]

one_more-behind :
    (o : Option ℕ) (r : Residual) (c : ℕ) (cs : Text)
    → one_more (behind o r cs) ≡ behind (grown o) r (c ∷ cs)
one_more-behind none r c cs = refl
one_more-behind (some n) r c cs = one_more-plus n (last_end (some r) (drop n cs))

last_end-word :
    (atom : ℕ → Atom) (f : ℕ → ℕ) (ws : Text) (r : Residual) (cs : Text)
    → ((w c : ℕ) → test (atom w) c ≡ (f c == w))
    → last_end (some (map (λ w. once (atom w)) ws ++ r)) cs ≡ behind (match_word f ws cs) r cs
unfolding last_end after may_end
last_end-word atom f [] r cs h = sym (plus-zero (last_end (some r) cs))
last_end-word atom f (w ∷ ws) r [] h = refl
last_end-word atom f (w ∷ ws) r (c ∷ cs) h = rw (h w c) (elim (Bool-cases (f c == w)) [
  | inl e ↦ rw e (
      or_none _
      ∙ ap one_more (last_end-word atom f ws r cs h)
      ∙ one_more-behind (match_word f ws cs) r c cs)
  | inr e ↦ rw e refl
])

last_end-part :
    (p : Part) (r : Residual) (cs : Text)
    → last_end (some (pieces_of p ++ r)) cs ≡ behind (match_part p cs) r cs
unfolding match_part test
last_end-part spaces r cs = last_end-many space r cs
last_end-part some_spaces r cs = last_end-some_of space r cs
last_end-part number r cs = last_end-some_of digit r cs
last_end-part newlines r cs = last_end-many newline r cs
last_end-part some_newlines r cs = last_end-some_of newline r cs
last_end-part (any_case w) r cs = last_end-word letter to_lower w r cs (λ w c. refl)
last_end-part (literal w) r cs = last_end-word character (λ c. c) w r cs (λ w c. refl)

last_end-nothing : (cs : Text) → last_end (some []) cs ≡ some 0
unfolding last_end after may_end
last_end-nothing [] = refl
last_end-nothing (c ∷ cs) = refl

behind-nothing : (o : Option ℕ) (cs : Text) → behind o [] cs ≡ o
behind-nothing none cs = refl
behind-nothing (some n) cs = ap (plus n) (last_end-nothing (drop n cs)) ∙ ap some (omega arith)

abbrev elim_plus : ℕ → Option ℕ → Option ℕ
elim_plus n o = elim o [ none ↦ none | some m ↦ some (n + m) ]

elim_plus-plus : (n : ℕ) (o : Option ℕ) → elim_plus n o ≡ plus n o
elim_plus-plus n none = refl
elim_plus-plus n (some m) = refl

-- The match of a sequence of parts, each of which takes as much as it can, ends at the last place where
-- the residual may end.
pub match_parts-last_end :
    (ps : List Part) (cs : Text) → match_parts ps cs ≡ last_end (some (residual ps)) cs
unfolding match_parts
match_parts-last_end [] cs = sym (last_end-nothing cs)
match_parts-last_end (p ∷ []) cs = sym (last_end-part p [] cs ∙ behind-nothing (match_part p cs) cs)
match_parts-last_end (p ∷ q ∷ ps) cs =
    let r : Residual = residual (q ∷ ps) in
    let whole : last_end (some (residual (p ∷ q ∷ ps))) cs ≡ behind (match_part p cs) r cs =
      last_end-part p r cs in
    elim (Option-cases (match_part p cs)) [
      | inl e ↦ rw (e, match_parts) (sym (whole ∙ ap (λ o. behind o r cs) e))
      | inr (n, e) ↦
          let rest : match_parts (q ∷ ps) (drop n cs) ≡ last_end (some r) (drop n cs) =
            match_parts-last_end (q ∷ ps) (drop n cs) in
          let goal : plus n (last_end (some r) (drop n cs))
              ≡ last_end (some (residual (p ∷ q ∷ ps))) cs =
            sym (whole ∙ ap (λ o. behind o r cs) e) in
          rw (e, match_parts) (ap (elim_plus n) rest ∙ elim_plus-plus n _ ∙ goal)
    ]
