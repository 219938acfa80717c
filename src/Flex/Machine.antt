-- ===== src/Flex/Machine.antt =====
-- The matching loop of `yylex` on the tables, src/library_src/flex.cpp. A position counts from `yy_bp`,
-- where a match begins.
use zpr_res_monitor.Prelude.{
  ℕ, zero, suc, ◌+◌, ◌*◌, ◌==◌, true, false, Option, none, some, [], ◌∷◌, Text, leb,
}
use zpr_res_monitor.Lexer.State.{
  Condition, initial, log_env, trigger_env, resource_set_env, resource_single_no_env,
  trigger_duration_set_env, trigger_duration_single_no_env, log_duration_set_env,
  log_duration_single_no_env, log_resolution_set_env, log_resolution_single_no_env,
}
use zpr_res_monitor.Lexer.Rules.{Action}
use zpr_res_monitor.Flex.Cases.{case_of}
use zpr_res_monitor.Flex.Numbers.{entry}
use zpr_res_monitor.Flex.Accepting.{yy_accept, yy_ec, yy_meta}
use zpr_res_monitor.Flex.States.{yy_base, yy_def}
use zpr_res_monitor.Flex.Next.{yy_nxt}
use zpr_res_monitor.Flex.Check.{yy_chk}

-- The numbers of the start conditions.
unfoldable pub condition_number : Condition → ℕ
condition_number initial = 0
condition_number log_env = 1
condition_number trigger_env = 2
condition_number resource_set_env = 3
condition_number resource_single_no_env = 4
condition_number trigger_duration_set_env = 5
condition_number trigger_duration_single_no_env = 6
condition_number log_duration_set_env = 7
condition_number log_duration_single_no_env = 8
condition_number log_resolution_set_env = 9
condition_number log_resolution_single_no_env = 10

-- `yy_start`, which `BEGIN` sets.
unfoldable pub yy_start : Condition → ℕ
unfolding condition_number
yy_start c = 1 + 2 * condition_number c

-- The loop over `yy_def` and the read of `yy_nxt` behind it, for a class `c`; `none` is a read outside
-- of a table, or no fuel.
unfoldable pub next_from : ℕ → ℕ → ℕ → Option ℕ
unfolding entry yy_chk yy_base yy_def yy_meta yy_nxt
next_from zero s c = none
next_from (suc fuel) s c = elim (entry yy_base s) [
  | none ↦ none
  | some base ↦ elim (entry yy_chk (base + c)) [
    | none ↦ none
    | some owner ↦ elim (owner == s) [
      | true ↦ entry yy_nxt (base + c)
      | false ↦ elim (entry yy_def s) [
        | none ↦ none
        | some d ↦ elim (leb 316 d) [
          | true ↦ elim (entry yy_meta c) [ none ↦ none | some c' ↦ next_from fuel d c' ]
          | false ↦ next_from fuel d c
        ]
      ]
    ]
  ]
]

-- The state behind a class; no chain over `yy_def` is as long as the fuel.
unfoldable pub next_of : ℕ → ℕ → Option ℕ
unfolding next_from
next_of s c = next_from 5 s c

-- Where the loop leaves: the state, the last accepting state with its position, and the position.
pub record Stop : Type 0 where
  pub current : ℕ
  pub last : Option (ℕ × ℕ)
  pub position : ℕ

-- The accepting state that the loop notes before it reads a character.
unfoldable pub note_accepting : ℕ → ℕ → Option (ℕ × ℕ) → Option (Option (ℕ × ℕ))
unfolding entry yy_accept
note_accepting s position last = elim (entry yy_accept s) [
  | none ↦ none
  | some zero ↦ some last
  | some (suc a) ↦ some (some (s, position))
]

-- The loop under `yy_match`. At the end of the text, the end of the buffer takes the loop back to the
-- state before it (`EOB_ACT_LAST_MATCH`, `yy_get_previous_state`).
unfoldable pub yy_match : ℕ → Option (ℕ × ℕ) → ℕ → Text → Option Stop
unfolding note_accepting next_of entry yy_ec yy_base
yy_match s last position [] = elim (note_accepting s position last) [
  | none ↦ none
  | some last' ↦ some (record { current = s; last = last'; position = position })
]
yy_match s last position (c ∷ cs) = elim (note_accepting s position last) [
  | none ↦ none
  | some last' ↦ elim (entry yy_ec c) [
    | none ↦ none
    | some class ↦ elim (next_of s class) [
      | none ↦ none
      | some s' ↦ elim (entry yy_base s') [
        | none ↦ none
        | some base ↦ elim (base == 1150) [
          | true ↦ some (record { current = s'; last = last'; position = suc position })
          | false ↦ yy_match s' last' (suc position) cs
        ]
      ]
    ]
  ]
]

-- `yy_find_action`: the case and the length, after backing up where the state does not accept.
unfoldable pub yy_find_action : Stop → Option (ℕ × ℕ)
unfolding entry yy_accept
yy_find_action stop = elim (entry yy_accept stop.current) [
  | none ↦ none
  | some (suc a) ↦ some (suc a, stop.position)
  | some zero ↦ elim stop.last [
    | none ↦ none
    | some (s, position) ↦ elim (entry yy_accept s) [ none ↦ none | some a ↦ some (a, position) ]
  ]
]

-- From the start state to the body of the case.
unfoldable pub flex_match : Condition → Text → Option (Action × ℕ)
unfolding yy_start yy_match yy_find_action case_of
flex_match k cs = elim (yy_match (yy_start k) none 0 cs) [
  | none ↦ none
  | some stop ↦ elim (yy_find_action stop) [
    | none ↦ none
    | some (act, length) ↦ elim (case_of act) [ none ↦ none | some a ↦ some (a, length) ]
  ]
]
