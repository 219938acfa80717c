-- ===== src/Flex/Classes.antt =====
-- Characters of one class are alike to the rules.
use zpr_res_monitor.Prelude.{
  and_true, every, ℕ, zero, suc, ◌+◌, ◌-◌, ◌<◌, ◌==◌, ◌≡◌, refl, sym, ◌∙◌, ap, Bool, true, Option,
  none, some, inl, inr, List, [], ◌∷◌, Text, arith, get_elem?, Bool-cases, ==_iff,
}
use mathlib.Core.Option.{some-injective}
use zpr_res_monitor.Flex.Numbers.{entry}
use zpr_res_monitor.Flex.Accepting.{yy_ec}
use zpr_res_monitor.Flex.Residual.{
  Atom, space, digit, newline, anything, letter, character, test, many, some_of, once, Residual,
  after, Running, advance,
}
use zpr_res_monitor.Flex.Reached.{classes}
use zpr_res_monitor.Flex.Views.{
  contains, letters, characters, is_known, known_piece, known_running, same, agree, fits_entry,
  fits, class_fits,
}
use zpr_res_monitor.Flex.Agreement.{range, all_classes_fit}

pub every-at :
    {A : Type 0} (p : A → Bool) (xs : List A) (i : ℕ) {x : A}
    → every p xs ≡ true
    → get_elem? xs i ≡ some x
    → p x ≡ true
every-at p [] i h e = cc
every-at p (y ∷ xs) zero {x} h e =
    ap p (some-injective _ _ (sym e)) ∙ (and_true (p y) (every p xs) h).0
every-at p (y ∷ xs) (suc i) h e = every-at p xs i (and_true (p y) (every p xs) h).1 e

pub get_elem?-range : (s n i : ℕ) → i < n → get_elem? (range s n) i ≡ some (s + i)
get_elem?-range s zero i h = absurd (omega arith)
get_elem?-range s (suc n) zero h = ap some (omega arith)
get_elem?-range s (suc n) (suc i) h =
    get_elem?-range (suc s) n i (omega arith) ∙ ap some (omega arith)

every-contains :
    (p : ℕ → Bool) (w : ℕ) (xs : Text) → every p xs ≡ true → contains w xs ≡ true → p w ≡ true
every-contains p w [] h e = cc
every-contains p w (x ∷ xs) h e =
    let (first, others) = and_true (p x) (every p xs) h in
    elim (Bool-cases (x == w)) [
      | inl hit ↦ ap p (sym ((==_iff x w).0 hit)) ∙ first
      | inr miss ↦ every-contains p w xs others (ground (arith, miss, e))
    ]

same-eq : (a : Atom) (c d : ℕ) → same a c d ≡ true → test a c ≡ test a d
same-eq a c d h = ground (arith, h)

any_test : (c d : ℕ) → test anything c ≡ test anything d
unfolding test
any_test c d = refl

test-agree : (a : Atom) (c d : ℕ) → agree c d ≡ true → is_known a ≡ true → test a c ≡ test a d
test-agree a c d h k =
    let (h1, exact) = and_true _ _ h in
    let (h2, lower) = and_true _ _ h1 in
    let (h3, newlines) = and_true _ _ h2 in
    let (spaces, digits) = and_true _ _ h3 in
    elim a as (λ a. is_known a ≡ true → test a c ≡ test a d) [
      | space ↦ λ k. same-eq space c d spaces
      | digit ↦ λ k. same-eq digit c d digits
      | newline ↦ λ k. same-eq newline c d newlines
      | anything ↦ λ k. any_test c d
      | letter w ↦
          λ k. same-eq (letter w) c d (every-contains (λ w. same (letter w) c d) w letters lower k)
      | character w ↦ λ k.
          same-eq (character w) c d
            (every-contains (λ w. same (character w) c d) w characters exact k)
    ]
      k

after-agree :
    (r : Residual) (c d : ℕ) → agree c d ≡ true → every known_piece r ≡ true → after r c ≡ after r d
unfolding after
after-agree [] c d h k = refl
after-agree (many a ∷ r) c d h k =
    let (first, others) = and_true (is_known a) (every known_piece r) k in
    rw (test-agree a c d h first, after-agree r c d h others) refl
after-agree (some_of a ∷ r) c d h k =
    rw (test-agree a c d h (and_true (is_known a) (every known_piece r) k).0) refl
after-agree (once a ∷ r) c d h k =
    rw (test-agree a c d h (and_true (is_known a) (every known_piece r) k).0) refl

-- Characters that agree take known rules on alike.
pub advance-agree :
    (rs : Running) (c d : ℕ)
    → agree c d ≡ true
    → known_running rs ≡ true
    → advance rs c ≡ advance rs d
unfolding advance
advance-agree [] c d h k = refl
advance-agree ((a, r) ∷ rs) c d h k =
    let (first, others) = and_true (every known_piece r) (known_running rs) k in
    rw (after-agree r c d h first, advance-agree rs c d h others) refl

fits_entry-some :
    (c k : ℕ) (o : Option (ℕ × ℕ))
    → fits_entry c k o ≡ true
    → (d : ℕ) × (o ≡ some (k, d)) × (agree c d ≡ true)
fits_entry-some c k none h = cc
fits_entry-some c k (some (k', d)) h =
    let (same_class, alike) = and_true (k' == k) (agree c d) h in
    (d, ap (λ n. some (n, d)) ((==_iff k' k).0 same_class), alike)

fits-some :
    (c : ℕ) (o : Option ℕ)
    → fits c o ≡ true
    → (k : ℕ) × (d : ℕ) × (o ≡ some k)
      × (get_elem? classes (k - 1) ≡ some (k, d))
      × (agree c d ≡ true)
unfolding fits
fits-some c none h = cc
fits-some c (some k) h =
    let (d, e, alike) = fits_entry-some c k (get_elem? classes (k - 1)) h in (k, d, refl, e, alike)

-- A character of a text: none of them is the NUL that ends the buffer.
abbrev pub IsByte : ℕ → Type 0
IsByte c = (0 < c) × (c < 256)

-- Its class, and the character that stands for the class.
pub class_of :
    (c : ℕ)
    → IsByte c
    → (k : ℕ) × (d : ℕ) × (entry yy_ec c ≡ some k)
      × (get_elem? classes (k - 1) ≡ some (k, d))
      × (agree c d ≡ true)
unfolding class_fits
class_of c h =
    let at : get_elem? (range 1 255) (c - 1) ≡ some c =
      get_elem?-range 1 255 (c - 1) (omega (arith, h.0, h.1)) ∙ ap some (omega (arith, h.0)) in
    fits-some c (entry yy_ec c) (every-at class_fits (range 1 255) (c - 1) all_classes_fit at)
