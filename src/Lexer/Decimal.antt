-- ===== src/Lexer/Decimal.antt =====
-- What `decimal` prints: digits, whose value is the number.
use zpr_res_monitor.Prelude.{
  ℕ, zero, suc, ◌+◌, ◌*◌, ◌-◌, ◌/◌, ◌%◌, ◌<◌, ◌≡◌, refl, ◌∙◌, true, false, inl, inr, [], ◌∷◌, ◌++◌,
  All, All-append, Text, decimal, decimal_from, ltb, arith, Bool-cases, length, length-append,
  subst,
}
use zpr_res_monitor.Lexer.Pattern.{is_digit, span}
use zpr_res_monitor.Lexer.State.{digits_value}

abbrev pub IsDigit : ℕ → Type 0
IsDigit c = is_digit c ≡ true

digits_value-append :
    (acc : ℕ) (xs ys : Text) → digits_value acc (xs ++ ys) ≡ digits_value (digits_value acc xs) ys
unfolding digits_value
digits_value-append acc [] ys = refl
digits_value-append acc (x ∷ xs) ys = digits_value-append (acc * 10 + (x - 48)) xs ys

decimal_from-AllDigits : (fuel n : ℕ) → All IsDigit (decimal_from fuel n)
unfolding decimal_from
decimal_from-AllDigits zero n = tt
decimal_from-AllDigits (suc fuel) n = elim (Bool-cases (ltb n 10)) [
  | inl small ↦ rw small (ground arith, tt)
  | inr large ↦ rw large (
      All-append IsDigit (decimal_from fuel (n / 10)) ((n % 10 + 48) ∷ [])
        (decimal_from-AllDigits fuel (n / 10)) (ground arith, tt))
]

digits_value-decimal_from : (fuel n : ℕ) → n < fuel → digits_value 0 (decimal_from fuel n) ≡ n
unfolding decimal_from digits_value
digits_value-decimal_from zero n h = absurd (omega arith)
digits_value-decimal_from (suc fuel) n h = elim (Bool-cases (ltb n 10)) [
  | inl small ↦ rw small (omega arith)
  | inr large ↦
      let big : 10 < suc n = ground arith in
      rw large (
        digits_value-append 0 (decimal_from fuel (n / 10)) ((n % 10 + 48) ∷ [])
        ∙ rw (digits_value-decimal_from fuel (n / 10) (omega arith)) (omega arith))
]

length-decimal_from : (fuel n : ℕ) → 0 < length (decimal_from (suc fuel) n)
unfolding decimal_from
length-decimal_from fuel n = elim (Bool-cases (ltb n 10)) [
  | inl small ↦ rw small (omega arith)
  | inr large ↦
      rw large (omega (arith, length-append (decimal_from fuel (n / 10)) ((n % 10 + 48) ∷ [])))
]

-- Of a text that is not empty, the first character and the others.
split_first : (cs : Text) → 0 < length cs → (c : ℕ) × (ds : Text) × (cs ≡ c ∷ ds)
split_first [] h = absurd (omega arith)
split_first (c ∷ ds) h = (c, ds, refl)

-- The digits of a number: the first one and the others.
pub record Digits (n : ℕ) : Type 0 where
  pub leading : ℕ
  pub others : Text
  pub printed : decimal n ≡ leading ∷ others
  pub leading-IsDigit : IsDigit leading
  pub others-AllDigits : All IsDigit others
  pub value : digits_value 0 (leading ∷ others) ≡ n

pub decimal-Digits : (n : ℕ) → Digits n
unfolding decimal
decimal-Digits n =
    let (c, ds, e) = split_first (decimal n) (length-decimal_from n n) in
    let all : All IsDigit (c ∷ ds) = rw e at (decimal_from-AllDigits (suc n) n) in
    record {
      leading = c;
      others = ds;
      printed = e;
      leading-IsDigit = all.0;
      others-AllDigits = all.1;
      value = rw e at (digits_value-decimal_from (suc n) n (omega arith));
    }

module _ (P : ℕ → Type 0) where
  -- One value, or a larger one.
  from_value : (k c : ℕ) → ltb c k ≡ false → P k → (ltb c (suc k) ≡ false → P c) → P c
  from_value k c low p larger = elim (Bool-cases (ltb c (suc k))) [
    | inl small ↦ let same : k ≡ c = ground arith in subst P same p
    | inr large ↦ larger large
  ]

  -- A property of the ten digits holds of every digit.
  pub for_digits :
      P 48
      → P 49
      → P 50
      → P 51
      → P 52
      → P 53
      → P 54
      → P 55
      → P 56
      → P 57
      → (c : ℕ) → IsDigit c
      → P c
  for_digits p0 p1 p2 p3 p4 p5 p6 p7 p8 p9 c h = from_value 48 c (ground arith) p0 λ h0.
      from_value 49 c h0 p1 λ h1. from_value 50 c h1 p2 λ h2. from_value 51 c h2 p3 λ h3.
        from_value 52 c h3 p4 λ h4. from_value 53 c h4 p5 λ h5. from_value 54 c h5 p6 λ h6.
          from_value 55 c h6 p7
            λ h7. from_value 56 c h7 p8 λ h8. from_value 57 c h8 p9 λ h9. absurd (ground arith)

-- Digits are taken up to what is no digit.
pub span-AllDigits :
    (ds rest : Text)
    → All IsDigit ds
    → span is_digit rest ≡ 0
    → span is_digit (ds ++ rest) ≡ length ds
span-AllDigits [] rest all h = h
span-AllDigits (d ∷ ds) rest all h = rw (all.0, span-AllDigits ds rest all.1 h) refl
