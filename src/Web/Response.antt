-- ===== src/Web/Response.antt =====
-- The head of a response, as a client reads it.
use zpr_res_monitor.Prelude.{
  ℕ, ◌==◌, ◌≡◌, refl, ◌∙◌, ap, true, Option, none, some, [], ◌∷◌, ◌++◌, Text, codes, decimal, All,
  length, take, drop, if◌then◌else◌, ==_iff,
}
use mathlib.Core.List.{append_assoc}
use zpr_res_monitor.Prelude.{drop-length-append, take-length-append}
use zpr_res_monitor.Lexer.Pattern.{span, is_digit}
use zpr_res_monitor.Lexer.State.{digits_value}
use zpr_res_monitor.Lexer.Decimal.{IsDigit, decimal-Digits}
use zpr_res_monitor.Web.Page.{respond}

-- A text behind a prefix.
abbrev pub behind_prefix : Text → Text → Option Text
behind_prefix [] cs = some cs
behind_prefix (p ∷ ps) [] = none
behind_prefix (p ∷ ps) (c ∷ cs) = if c == p then behind_prefix ps cs else none

-- As many characters as the length says, where they are all that is left.
abbrev exactly : ℕ → Text → Option Text
exactly n cs = if length cs == n then some cs else none

abbrev behind_length : ℕ → Option Text → Option Text
behind_length n none = none
behind_length n (some cs) = exactly n cs

abbrev content_from : Option Text → Option Text
content_from none = none
content_from (some cs) =
    behind_length (digits_value 0 (take (span is_digit cs) cs))
      (behind_prefix (codes "\r\n\r\n") (drop (span is_digit cs) cs))

-- The content of a response: the status line and the length, an empty line, and the characters that the
-- length announces.
abbrev pub read_response : Text → Option Text
read_response cs = content_from (behind_prefix (codes "HTTP/1.1 200 OK\r\nContent-Length: ") cs)

pub behind_prefix-append : (ps cs : Text) → behind_prefix ps (ps ++ cs) ≡ some cs
behind_prefix-append [] cs = refl
behind_prefix-append (p ∷ ps) cs = rw ((==_iff p p).1 refl) (behind_prefix-append ps cs)

span-append :
    (ds rest : Text)
    → All IsDigit ds
    → span is_digit rest ≡ 0
    → span is_digit (ds ++ rest) ≡ length ds
span-append [] rest all h = h
span-append (d ∷ ds) rest all h = rw (all.0, span-append ds rest all.1 h) refl

content_from-digits :
    (ds resp : Text)
    → All IsDigit ds
    → content_from (some (ds ++ (codes "\r\n\r\n" ++ resp))) ≡ exactly (digits_value 0 ds) resp
content_from-digits ds resp all =
    let tail : Text = codes "\r\n\r\n" ++ resp in
    let size : span is_digit (ds ++ tail) ≡ length ds = span-append ds tail all refl in
    ap
      (λ n.
        behind_length (digits_value 0 (take n (ds ++ tail)))
          (behind_prefix (codes "\r\n\r\n") (drop n (ds ++ tail))))
      size
    ∙ ap
        (λ t.
          behind_length (digits_value 0 t)
            (behind_prefix (codes "\r\n\r\n") (drop (length ds) (ds ++ tail))))
        (take-length-append ds tail)
    ∙ ap (λ t. behind_length (digits_value 0 ds) (behind_prefix (codes "\r\n\r\n") t))
        (drop-length-append ds tail)
    ∙ ap (behind_length (digits_value 0 ds)) (behind_prefix-append (codes "\r\n\r\n") resp)

-- A client reads the content of a response back.
pub read_response-respond : (resp : Text) → read_response (respond resp) ≡ some resp
unfolding respond
read_response-respond resp =
    let d = decimal-Digits (length resp) in
    let ds : Text = d.leading ∷ d.others in
    let tail : Text = codes "\r\n\r\n" ++ resp in
    let head : Text = codes "HTTP/1.1 200 OK\r\nContent-Length: " in
    let whole : (length resp == length resp) ≡ true = (==_iff (length resp) (length resp)).1 refl in
    ap read_response (
      append_assoc (head ++ decimal (length resp)) (codes "\r\n\r\n") resp
      ∙ append_assoc head (decimal (length resp)) tail)
    ∙ ap content_from (behind_prefix-append head (decimal (length resp) ++ tail))
    ∙ ap (λ t. content_from (some (t ++ tail))) d.printed
    ∙ content_from-digits ds resp (d.leading-IsDigit, d.others-AllDigits)
    ∙ ap (λ n. exactly n resp) d.value
    ∙ ap (λ x. if x then some resp else none) whole
