-- ===== src/Flex/Buffer.antt =====
-- How the generated scanner fills its buffer while it matches, src/library_src/flex.cpp. The buffer is
-- kept from `yytext_ptr` on, and two NULs end it. It grows as it has to; the memory for it is not
-- modelled.
use zpr_res_monitor.Prelude.{
  ℕ, suc, ◌==◌, true, false, Option, none, some, [], ◌∷◌, ◌++◌, Text, leb, length, take, drop,
}
use zpr_res_monitor.Lexer.State.{Condition}
use zpr_res_monitor.Flex.Numbers.{entry}
use zpr_res_monitor.Flex.Accepting.{yy_ec}
use zpr_res_monitor.Flex.Machine.{yy_start, next_of, note_accepting, yy_match, yy_find_action}

-- `yy_get_previous_state`: the state behind a text, with the last accepting state.
unfoldable pub yy_get_previous_state : ℕ → Option (ℕ × ℕ) → ℕ → Text → Option (ℕ × Option (ℕ × ℕ))
unfolding note_accepting entry yy_ec next_of
yy_get_previous_state s last position [] = some (s, last)
yy_get_previous_state s last position (c ∷ cs) = elim (note_accepting s position last) [
  | none ↦ none
  | some last' ↦ elim (entry yy_ec c) [
    | none ↦ none
    | some class ↦ elim (next_of s class) [
      | none ↦ none
      | some s' ↦ yy_get_previous_state s' last' (suc position) cs
    ]
  ]
]

-- The text of the buffer and the characters that the stream still has; the status, once a read has
-- found no more (`YY_BUFFER_EOF_PENDING`), needs no field: the stream stays empty.
pub record BufferState : Type 0 where
  pub chars : Text
  pub input : Text

-- A match: the number of its case, `yytext` and the buffer behind it; or the end of the file.
pub data Token : Type 0 where
  token : ℕ → Text → BufferState → Token
  file_end : Token

-- The action on the last match at the end of the input.
unfoldable pub match_last : Condition → Text → Option (ℕ × ℕ)
unfolding yy_get_previous_state yy_find_action yy_start
match_last k chars = elim (yy_get_previous_state (yy_start k) none 0 chars) [
  | none ↦ none
  | some (s, last) ↦ yy_find_action (record { current = s; last = last; position = length chars })
]

-- From the state behind the characters that are matched, over the fresh ones and the two NULs.
unfoldable pub match_fresh : Condition → Text → Text → Option (ℕ × ℕ)
unfolding yy_get_previous_state yy_match yy_find_action yy_start
match_fresh k matched fresh = elim (yy_get_previous_state (yy_start k) none 0 matched) [
  | none ↦ none
  | some (s, last) ↦ elim (yy_match s last (length matched) (fresh ++ (0 ∷ 0 ∷ []))) [
    | none ↦ none
    | some stop ↦ yy_find_action stop
  ]
]

-- What the case of a match leaves.
abbrev pub token_of : Text → Text → Option (ℕ × ℕ) → Option Token
token_of chars input none = none
token_of chars input (some (act, n)) =
    some (token act (take n chars) (record { chars = drop n chars; input = input }))

-- What `yy_get_next_buffer` returns, with the characters that it has read.
pub data Refill : Type 0 where
  end_of_file last_match : Refill
  continue_scan : Text → Refill

-- `yy_get_next_buffer` behind the given characters, which it keeps, with what `LexerInput` gives: a
-- character, or none at the end of the stream.
unfoldable pub yy_get_next_buffer : Text → Option ℕ → Refill
yy_get_next_buffer chars (some c) = continue_scan (c ∷ [])
yy_get_next_buffer [] none = end_of_file
yy_get_next_buffer (c ∷ cs) none = last_match

-- The case `YY_END_OF_BUFFER` at the end of the stream.
unfoldable pub at_input_end : Condition → Text → Option Token
unfolding yy_get_next_buffer match_last
at_input_end k chars = elim (yy_get_next_buffer chars none) [
  | end_of_file ↦ some file_end
  | last_match ↦ token_of chars [] (match_last k chars)
  | continue_scan more ↦ none
]

-- The next match. The case `YY_END_OF_BUFFER`, 71, calls `yy_get_next_buffer`, where `LexerInput` gives
-- one character, and `EOB_ACT_CONTINUE_SCAN` goes on from the state before the NULs. A NUL of the text
-- is not modelled: it is `none`.
unfoldable pub next_token : Condition → Text → Text → Text → Option Token
unfolding match_fresh at_input_end yy_get_next_buffer match_last
next_token k matched fresh [] = elim (match_fresh k matched fresh) [
  | none ↦ none
  | some (act, n) ↦ elim (act == 71) [
    | false ↦ token_of (matched ++ fresh) [] (some (act, n))
    | true ↦ elim (leb n (length (matched ++ fresh))) [
      | true ↦ none
      | false ↦ at_input_end k (matched ++ fresh)
    ]
  ]
]
next_token k matched fresh (c ∷ cs) = elim (match_fresh k matched fresh) [
  | none ↦ none
  | some (act, n) ↦ elim (act == 71) [
    | false ↦ token_of (matched ++ fresh) (c ∷ cs) (some (act, n))
    | true ↦ elim (leb n (length (matched ++ fresh))) [
      | true ↦ none
      | false ↦ elim (yy_get_next_buffer (matched ++ fresh) (some c)) [
        | end_of_file ↦ some file_end
        | last_match ↦ token_of (matched ++ fresh) (c ∷ cs) (match_last k (matched ++ fresh))
        | continue_scan more ↦ next_token k (matched ++ fresh) more cs
      ]
    ]
  ]
]
