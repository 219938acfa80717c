-- ===== src/Web/Browser.antt =====
-- The options of the page, as a browser reads them.
use zpr_res_monitor.Prelude.{
  ℕ, zero, suc, ◌+◌, ◌≤◌, ◌<◌, ◌==◌, ◌≡◌, refl, sym, ◌∙◌, ap, true, false, not, Option, none, some,
  ◌⊎◌, inl, List, [], ◌∷◌, ◌++◌, Text, codes, decimal, All, length, take, drop, get_elem?,
  drop-length-append, take-length-append, subst, arith, ==_iff,
}
use mathlib.Core.Option.{some-injective}
use mathlib.Core.List.{append_assoc}
use zpr_res_monitor.Lexer.Pattern.{span}
use zpr_res_monitor.Lexer.Decimal.{IsDigit, decimal-Digits}
use zpr_res_monitor.Web.Page.{selections}
use zpr_res_monitor.Web.Response.{behind_prefix, behind_prefix-append}

-- An option: the value that is sent and the label that is shown.
pub record Choice : Type 0 where
  pub value : Text
  pub label : Text

abbrev before : ℕ → Text → Text
before c cs = take (span (λ d. not (d == c)) cs) cs

abbrev from_first : ℕ → Text → Text
from_first c cs = drop (span (λ d. not (d == c)) cs) cs

abbrev choice_of : Text → Text → Option Text → Option (Choice × Text)
choice_of value label none = none
choice_of value label (some rest) = some (record { value = value; label = label }, rest)

-- One option: the value up to the quotation mark (34), the label up to the next tag (60).
abbrev option_label : Text → Option Text → Option (Choice × Text)
option_label value none = none
option_label value (some cs) =
    choice_of value (before 60 cs) (behind_prefix (codes "</option>\n") (from_first 60 cs))

abbrev option_value : Option Text → Option (Choice × Text)
option_value none = none
option_value (some cs) =
    option_label (before 34 cs) (behind_prefix (codes "\">") (from_first 34 cs))

abbrev pub read_option : Text → Option (Choice × Text)
read_option cs = option_value (behind_prefix (codes "<option value=\"") cs)

-- The options at the front of a text, at most as many as the fuel.
unfoldable pub read_options : ℕ → Text → List Choice
read_options zero cs = []
read_options (suc fuel) cs = elim (read_option cs) [
  | none ↦ []
  | some (c, rest) ↦ c ∷ read_options fuel rest
]

abbrev pub Lacks : ℕ → Text → Type 0
Lacks c = All λ d. (d == c) ≡ false

regroup :
    (o d m l c ss rest : Text)
    → (o ++ d ++ m ++ l ++ c ++ ss) ++ rest ≡ o ++ (d ++ (m ++ (l ++ (c ++ (ss ++ rest)))))
regroup o d m l c ss rest =
    append_assoc (o ++ d ++ m ++ l ++ c) ss rest
    ∙ append_assoc (o ++ d ++ m ++ l) c (ss ++ rest)
    ∙ append_assoc (o ++ d ++ m) l (c ++ (ss ++ rest))
    ∙ append_assoc (o ++ d) m (l ++ (c ++ (ss ++ rest)))
    ∙ append_assoc o d (m ++ (l ++ (c ++ (ss ++ rest))))

span-Lacks :
    (c : ℕ) (cs rest : Text) (d : ℕ)
    → Lacks c cs
    → (d == c) ≡ true
    → span (λ e. not (e == c)) (cs ++ (d ∷ rest)) ≡ length cs
span-Lacks c [] rest d h e = rw e refl
span-Lacks c (x ∷ cs) rest d h e = rw (h.0, span-Lacks c cs rest d h.1 e) refl

before-Lacks : (c : ℕ) (cs rest : Text) → Lacks c cs → before c (cs ++ (c ∷ rest)) ≡ cs
before-Lacks c cs rest h =
    ap (λ n. take n (cs ++ (c ∷ rest))) (span-Lacks c cs rest c h ((==_iff c c).1 refl))
    ∙ take-length-append cs (c ∷ rest)

from_first-Lacks :
    (c : ℕ) (cs rest : Text) → Lacks c cs → from_first c (cs ++ (c ∷ rest)) ≡ c ∷ rest
from_first-Lacks c cs rest h =
    ap (λ n. drop n (cs ++ (c ∷ rest))) (span-Lacks c cs rest c h ((==_iff c c).1 refl))
    ∙ drop-length-append cs (c ∷ rest)

option_label-some :
    (v l rest : Text)
    → Lacks 60 l
    → option_label v (some (l ++ (codes "</option>\n" ++ rest)))
      ≡ some (record { value = v; label = l }, rest)
option_label-some v l rest h =
    let tail : Text = codes "/option>\n" ++ rest in
    let shown : before 60 (l ++ (60 ∷ tail)) ≡ l = before-Lacks 60 l tail h in
    let left : from_first 60 (l ++ (60 ∷ tail)) ≡ 60 ∷ tail = from_first-Lacks 60 l tail h in
    ap (λ t. choice_of v (before 60 (l ++ (60 ∷ tail))) (behind_prefix (codes "</option>\n") t))
      left
    ∙ ap (λ t. choice_of v t (behind_prefix (codes "</option>\n") (60 ∷ tail))) shown
    ∙ ap (choice_of v l) (behind_prefix-append (codes "</option>\n") rest)

read_option-some :
    (v l rest : Text)
    → Lacks 34 v
    → Lacks 60 l
    → read_option
        (codes "<option value=\"" ++ (v ++ (codes "\">" ++ (l ++ (codes "</option>\n" ++ rest)))))
      ≡ some (record { value = v; label = l }, rest)
read_option-some v l rest hv hl =
    let close : Text = l ++ (codes "</option>\n" ++ rest) in
    let sent : before 34 (v ++ (34 ∷ 62 ∷ close)) ≡ v = before-Lacks 34 v (62 ∷ close) hv in
    let left : from_first 34 (v ++ (34 ∷ 62 ∷ close)) ≡ 34 ∷ 62 ∷ close =
      from_first-Lacks 34 v (62 ∷ close) hv in
    ap option_value (behind_prefix-append (codes "<option value=\"") (v ++ (codes "\">" ++ close)))
    ∙ ap (λ t. option_label (before 34 (v ++ (34 ∷ 62 ∷ close))) (behind_prefix (codes "\">") t))
        left
    ∙ ap (λ t. option_label t (some close)) sent
    ∙ option_label-some v l rest hl

-- What the page shows: each item with its number.
abbrev pub choices : {A : Type 0} → (A → Text) → ℕ → List A → List Choice
choices show i [] = []
choices show i (x ∷ xs) = record { value = decimal i; label = show x } ∷ choices show (suc i) xs

digits-Lacks : (c : ℕ) (ds : Text) → c < 48 ⊎ 57 < c → All IsDigit ds → Lacks c ds
digits-Lacks c [] h all = tt
digits-Lacks c (d ∷ ds) h all = (ground (arith, h, all.0), digits-Lacks c ds h all.1)

pub decimal-Lacks : (c n : ℕ) → c < 48 ⊎ 57 < c → Lacks c (decimal n)
decimal-Lacks c n h =
    let d = decimal-Digits n in
    subst (Lacks c) (sym d.printed)
      (digits-Lacks c (d.leading ∷ d.others) h (d.leading-IsDigit, d.others-AllDigits))

pub read_options-selections :
    {A : Type 0} (show : A → Text) (fuel i : ℕ) (xs : List A) (rest : Text)
    → ((x : A) → Lacks 60 (show x))
    → length xs ≤ fuel
    → read_option rest ≡ none
    → read_options fuel (selections show i xs ++ rest) ≡ choices show i xs
unfolding read_options selections
read_options-selections show zero i [] rest clean h stop = refl
read_options-selections show (suc fuel) i [] rest clean h stop = rw (stop, read_options) refl
read_options-selections show zero i (x ∷ xs) rest clean h stop = absurd (omega (arith, h))
read_options-selections show (suc fuel) i (x ∷ xs) rest clean h stop =
    let others : Text = selections show (suc i) xs in
    let one : read_option (selections show i (x ∷ xs) ++ rest)
        ≡ some (record { value = decimal i; label = show x }, others ++ rest) =
      ap read_option (
        regroup (codes "<option value=\"") (decimal i) (codes "\">") (show x) (codes "</option>\n")
          others rest)
      ∙ read_option-some (decimal i) (show x) (others ++ rest)
          (decimal-Lacks 34 i (inl (omega arith))) (clean x) in
    rw (one, read_options)
      (ap (◌∷◌ (record { value = decimal i; label = show x }))
        (read_options-selections show fuel (suc i) xs rest clean (omega (arith, h)) stop))

pub choices-at :
    {A : Type 0} (show : A → Text) (i : ℕ) (xs : List A) (j : ℕ) {c : Choice}
    → get_elem? (choices show i xs) j ≡ some c
    → (x : A) × (get_elem? xs j ≡ some x) × (c.value ≡ decimal (i + j)) × (c.label ≡ show x)
choices-at show i [] j e = cc
choices-at show i (x ∷ xs) zero {c} e =
    let same : record { value = decimal i; label = show x } ≡ c = some-injective _ _ e in
    let here : i ≡ i + 0 = omega arith in
    (x, refl, ap (λ d. d.value) (sym same) ∙ ap decimal here, ap (λ d. d.label) (sym same))
choices-at show i (x ∷ xs) (suc j) e =
    let (y, at, value, label) = choices-at show (suc i) xs j e in
    (y, at, value ∙ ap decimal (omega arith), label)
