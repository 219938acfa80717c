-- ===== src/Provider/Scanning.antt =====
-- What the providers use of C's input functions: `fgets`, `strstr`, `strtok`, `strncmp` with a prefix,
-- `std::stoll`, `%llu` of `fscanf` and `atoi`.
use zpr_res_monitor.Prelude.{
  ℕ, zero, suc, ◌-◌, ◌%◌, ◌^◌, Bool, true, false, ◌&&◌, ◌||◌, Option, none, some, List, [], ◌∷◌,
  ◌++◌, ◌==◌, ltb, leb, Text, if◌then◌else◌, length, drop, take,
}
use zpr_res_monitor.Lexer.Pattern.{is_digit, span}
use zpr_res_monitor.Lexer.State.{digits_value}

abbrev pub word : ℕ
word = 2 ^ 64

-- A text that is not empty, in front of others.
abbrev pub flush : Text → List Text → List Text
flush [] ts = ts
flush (c ∷ cs) ts = (c ∷ cs) ∷ ts

-- What repeated `fgets` reads, at most `size` characters at a time: lines that keep their newline, and
-- longer ones in pieces.
abbrev fgets_lines : ℕ → Text → Text → List Text
fgets_lines size line [] = flush line []
fgets_lines size line (c ∷ cs) =
    let new = line ++ (c ∷ []) in
    let full = c == 10 || length new == size in
    let rest = fgets_lines size (if full then [] else new) cs in if full then new ∷ rest else rest

-- `fgets` with a buffer of the given length until the end of the file; the last character is the null.
abbrev pub lines_of : ℕ → Text → List Text
lines_of buffer cs = fgets_lines (buffer - 1) [] cs

abbrev pub starts_with : Text → Text → Bool
starts_with [] cs = true
starts_with (p ∷ ps) [] = false
starts_with (p ∷ ps) (c ∷ cs) = p == c && starts_with ps cs

-- `strstr`: the text from the first occurrence on.
abbrev pub strstr : Text → Text → Option Text
strstr p [] = if starts_with p [] then some [] else none
strstr p (c ∷ cs) = let rest = strstr p cs in if starts_with p (c ∷ cs) then some (c ∷ cs) else rest

-- The delimiters " \t".
abbrev is_delimiter : ℕ → Bool
is_delimiter c = c == 32 || c == 9

-- All that repeated `strtok` returns, behind the token that is open.
abbrev tokens_from : Text → Text → List Text
tokens_from token [] = flush token []
tokens_from token (c ∷ cs) =
    let rest = tokens_from (if is_delimiter c then [] else token ++ (c ∷ [])) cs in
    if is_delimiter c then flush token rest else rest

abbrev pub tokens : Text → List Text
tokens cs = tokens_from [] cs

-- `isspace`.
abbrev pub is_white : ℕ → Bool
is_white c = c == 32 || leb 9 c && leb c 13

-- The digits at the front: their value, and the text behind them.
abbrev pub scan_digits : Text → Option (ℕ × Text)
scan_digits cs = elim (span is_digit cs) [
  | zero ↦ none
  | suc n ↦ some (digits_value 0 (take (suc n) cs), drop (suc n) cs)
]

-- An integer behind white space: whether it is negative, its size, and the text behind it.
abbrev pub scan_sign : Text → Bool × Text
scan_sign [] = (false, [])
scan_sign (c ∷ cs) =
    if c == 45 then (true, cs) else if c == 43 then (false, cs) else (false, c ∷ cs)

abbrev pub scan_integer : Text → Option (Bool × ℕ × Text)
scan_integer cs =
    let (negative, body) = scan_sign (drop (span is_white cs) cs) in
    elim (scan_digits body) [ none ↦ none | some (n, rest) ↦ some (negative, n, rest) ]

-- The 64 bits of an integer that may be negative.
abbrev pub bits : Bool → ℕ → ℕ
bits negative n = if negative then (word - n % word) % word else n % word

-- `std::stoll`, as 64 bits; `none` is `std::invalid_argument` or `std::out_of_range`.
abbrev pub stoll : Text → Option ℕ
stoll cs = elim (scan_integer cs) [
  | none ↦ none
  | some (negative, n, rest) ↦
      if ltb n (2 ^ 63) || negative && n == 2 ^ 63 then some (bits negative n) else none
]

-- `%llu`, which reads what `strtoull` does: too large a number is the largest one.
abbrev pub scan_llu : Text → Option (ℕ × Text)
scan_llu cs = elim (scan_integer cs) [
  | none ↦ none
  | some (negative, n, rest) ↦ some (if ltb n word then bits negative n else word - 1, rest)
]

-- `atoi` at a digit; `none` is the undefined conversion of a number that is too large.
abbrev pub atoi_digits : Text → Option ℕ
atoi_digits cs = elim (scan_digits cs) [
  | none ↦ some 0
  | some (n, rest) ↦ if ltb n (2 ^ 31) then some n else none
]
