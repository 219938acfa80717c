-- ===== src/Web/Options.antt =====
-- The options that the page offers, read back by the handler of /trigger_choose.
use zpr_res_monitor.Prelude.{
  ℕ, zero, suc, Bool, ◌<◌, ◌==◌, ◌^◌, ◌≡◌, refl, ◌∙◌, ap, sym, subst, true, false, Option, none,
  some, List, [], ◌∷◌, Text, All, decimal, length, get_elem?, take, drop, arith, ltb, if◌then◌else◌,
}
use zpr_res_monitor.Config.Types.{TriggerType}
use zpr_res_monitor.Predicate.{or_and, both, element}
use zpr_res_monitor.Lexer.Pattern.{span, is_digit}
use zpr_res_monitor.Lexer.State.{digits_value}
use zpr_res_monitor.Lexer.Decimal.{IsDigit, decimal-Digits}
use zpr_res_monitor.Provider.Scanning.{is_white, scan_sign, scan_digits, scan_integer}
use zpr_res_monitor.Web.{Field, seglist, stoi, chosen, chosen_kind}
use zpr_res_monitor.Web.Fields.{HasNoColon, HasNoColons, seglist-eq-parts_of}
use zpr_res_monitor.Web.Subscription.{chosen-some, chosen_kind-three}

take-length : (cs : Text) → take (length cs) cs ≡ cs
take-length [] = refl
take-length (c ∷ cs) = ap (◌∷◌ c) (take-length cs)

drop-length : (cs : Text) → drop (length cs) cs ≡ []
drop-length [] = refl
drop-length (c ∷ cs) = drop-length cs

span-length : (ds : Text) → All IsDigit ds → span is_digit ds ≡ length ds
span-length [] all = refl
span-length (d ∷ ds) all = rw (all.0, span-length ds all.1) refl

span-none : (p : ℕ → Bool) (c : ℕ) (cs : Text) → p c ≡ false → span p (c ∷ cs) ≡ 0
span-none p c cs fails = rw fails refl

-- What a scanned size does to a text.
abbrev cut : Text → ℕ → Option (ℕ × Text)
cut cs zero = none
cut cs (suc n) = some (digits_value 0 (take (suc n) cs), drop (suc n) cs)

scan_digits-some :
    (d : ℕ) (ds : Text)
    → IsDigit d
    → All IsDigit ds
    → scan_digits (d ∷ ds) ≡ some (digits_value 0 (d ∷ ds), [])
scan_digits-some d ds digit all =
    ap (cut (d ∷ ds)) (span-length (d ∷ ds) (digit, all)) ∙ rw (take-length ds, drop-length ds) refl

-- What is scanned behind a sign.
abbrev with_sign : Bool → Option (ℕ × Text) → Option (Bool × ℕ × Text)
with_sign negative none = none
with_sign negative (some (n, rest)) = some (negative, n, rest)

abbrev signed : Bool × Text → Option (Bool × ℕ × Text)
signed p = with_sign p.0 (scan_digits p.1)

-- The index that a scanned integer is.
abbrev index_of : Option (Bool × ℕ × Text) → Option ℕ
index_of none = none
index_of (some (negative, n, rest)) =
    if negative then (if n == 0 then some 0 else none) else if ltb n (2 ^ 31) then some n else none

scan_integer-some :
    (d : ℕ) (ds : Text)
    → IsDigit d
    → All IsDigit ds
    → scan_integer (32 ∷ d ∷ ds) ≡ some (false, digits_value 0 (d ∷ ds), [])
scan_integer-some d ds digit all =
    let not_white : is_white d ≡ false = ground arith in
    let not_minus : (d == 45) ≡ false = ground arith in
    let not_plus : (d == 43) ≡ false = ground arith in
    let body : drop (span is_white (d ∷ ds)) (d ∷ ds) ≡ d ∷ ds =
      ap (λ n. drop n (d ∷ ds)) (span-none is_white d ds not_white) in
    let sign : scan_sign (d ∷ ds) ≡ (false, d ∷ ds) = rw (not_minus, not_plus) refl in
    ap signed (ap scan_sign body ∙ sign) ∙ ap (with_sign false) (scan_digits-some d ds digit all)

-- The number of an option is read back behind the space that the handler puts in front of it.
stoi-decimal : (n : ℕ) → n < 2 ^ 31 → stoi (32 ∷ decimal n) ≡ some n
unfolding stoi
stoi-decimal n h =
    let d = decimal-Digits n in
    let fits : ltb n (2 ^ 31) ≡ true = ground arith in
    let scanned = scan_integer-some d.leading d.others d.leading-IsDigit d.others-AllDigits in
    ap (λ cs. index_of (scan_integer (32 ∷ cs))) d.printed
    ∙ ap index_of scanned
    ∙ rw (d.value, fits) refl

digits-HasNoColon : (ds : Text) → All IsDigit ds → HasNoColon ds
digits-HasNoColon [] all = tt
digits-HasNoColon (d ∷ ds) all = (ground (arith, all.0), digits-HasNoColon ds all.1)

decimal-HasNoColon : (n : ℕ) → HasNoColon (decimal n)
decimal-HasNoColon n =
    let d = decimal-Digits n in
    subst HasNoColon (sym d.printed)
      (digits-HasNoColon (d.leading ∷ d.others) (d.leading-IsDigit, d.others-AllDigits))

get_elem?-lt : {A : Type 0} (xs : List A) (i : ℕ) {x : A} → get_elem? xs i ≡ some x → i < length xs
get_elem?-lt [] i e = ground arith
get_elem?-lt (x ∷ xs) zero e = omega arith
get_elem?-lt (x ∷ xs) (suc i) e = omega (arith, get_elem?-lt xs i e)

-- What the handler chooses by a segment that holds the number of an option.
chosen-decimal :
    (types : List TriggerType) (segs : List Text) (place i : ℕ) {t : TriggerType}
    → length types < 2 ^ 31
    → get_elem? types i ≡ some t
    → get_elem? segs place ≡ some (32 ∷ decimal i)
    → chosen types segs place ≡ some t
chosen-decimal types segs place i few e at =
    let small : i < 2 ^ 31 = omega (arith, get_elem?-lt types i e) in
    chosen-some types segs place at (stoi-decimal i small) e

-- Let the keys of a query hold no colon and its values be the numbers of options that the page offers
-- for the configured triggers, fewer than 2^31. Then the handler reads back just the triggers that
-- these options show: from one field `a`, from two `b AND a`, from three `(c OR b) AND a`, where `a`
-- is the trigger of the field that comes first.
pub chosen_kind-decimal :
    (types : List TriggerType) (k0 k1 k2 : Text) (i0 i1 i2 : ℕ) (a b c : TriggerType)
    → HasNoColon k0
    → HasNoColon k1
    → HasNoColon k2
    → length types < 2 ^ 31
    → get_elem? types i0 ≡ some a
    → get_elem? types i1 ≡ some b
    → get_elem? types i2 ≡ some c
    → (chosen_kind types ((k0, decimal i0) ∷ []) ≡ some (some (element a)))
      × (chosen_kind types ((k0, decimal i0) ∷ (k1, decimal i1) ∷ []) ≡ some (some (both b a)))
      × (chosen_kind types ((k0, decimal i0) ∷ (k1, decimal i1) ∷ (k2, decimal i2) ∷ [])
          ≡ some (some (or_and c b a)))
unfolding chosen_kind
chosen_kind-decimal types k0 k1 k2 i0 i1 i2 a b c h0 h1 h2 few e0 e1 e2 =
    let f0 : Field = (k0, decimal i0) in
    let f1 : Field = (k1, decimal i1) in
    let f2 : Field = (k2, decimal i2) in
    let c0 : HasNoColons f0 = (h0, decimal-HasNoColon i0) in
    let c1 : HasNoColons f1 = (h1, decimal-HasNoColon i1) in
    let c2 : HasNoColons f2 = (h2, decimal-HasNoColon i2) in
    let s1 = seglist-eq-parts_of (f0 ∷ []) (c0, tt) in
    let s2 = seglist-eq-parts_of (f0 ∷ f1 ∷ []) (c0, (c1, tt)) in
    let s3 = seglist-eq-parts_of (f0 ∷ f1 ∷ f2 ∷ []) (c0, (c1, (c2, tt))) in
    (
      rw (chosen-decimal types (seglist (f0 ∷ [])) 1 i0 few e0 (ap (λ s. get_elem? s 1) s1)) refl,
      rw
          (
            chosen-decimal types (seglist (f0 ∷ f1 ∷ [])) 3 i1 few e1 (ap (λ s. get_elem? s 3) s2),
            chosen-decimal types (seglist (f0 ∷ f1 ∷ [])) 1 i0 few e0 (ap (λ s. get_elem? s 1) s2),
          )
          refl,
      chosen_kind-three types f0 f1 f2
          (chosen-decimal types (seglist (f0 ∷ f1 ∷ f2 ∷ [])) 1 i0 few e0
            (ap (λ s. get_elem? s 1) s3))
          (chosen-decimal types (seglist (f0 ∷ f1 ∷ f2 ∷ [])) 3 i1 few e1
            (ap (λ s. get_elem? s 3) s3))
          (chosen-decimal types (seglist (f0 ∷ f1 ∷ f2 ∷ [])) 5 i2 few e2
            (ap (λ s. get_elem? s 5) s3)),
    )
