-- ===== src/Flex/Reached.antt =====
-- The states of the tables, with the rules that are in the running there.
pub mod Early
pub mod Late
use zpr_res_monitor.Prelude.{
  ℕ, zero, suc, ◌-◌, ◌==◌, Bool, true, false, ◌&&◌, not, Option, none, some, List, [], ◌∷◌, Text,
  codes, leb, ltb, get_elem?, map,
}
use zpr_res_monitor.Lexer.State.{Condition}
use zpr_res_monitor.Lexer.Table.{rules_of}
use zpr_res_monitor.Flex.Residual.{Running, running, advance_all}
use zpr_res_monitor.Flex.Reached.Early.{early_states}
use zpr_res_monitor.Flex.Reached.Late.{late_states}

abbrev led_to : Option (Condition × Text) → Running
led_to none = []
led_to (some (c, cs)) = advance_all (running (rules_of c)) cs

-- The rules in the running in a state, found on a way to it.
unfoldable pub running_at : ℕ → Running
unfolding advance_all rules_of early_states late_states
running_at s = elim (ltb s 158) [
  | true ↦ led_to (get_elem? early_states s)
  | false ↦ led_to (get_elem? late_states (s - 158))
]

abbrev numbered_from : ℕ → Text → List (ℕ × ℕ)
numbered_from n [] = []
numbered_from n (c ∷ cs) = (n, c) ∷ numbered_from (suc n) cs

-- The classes from 1 to 51, each with one of its characters.
unfoldable pub classes : List (ℕ × ℕ)
classes = numbered_from 1 (codes "?\t\n %,/0ABCDEFGIKLMNOPRSTUVYabcdefghiklmnoprstuvy{}")

-- A state that a text can lead to: 0 and 23 are not.
unfoldable pub is_state : ℕ → Bool
is_state s = leb 1 s && leb s 315 && not (s == 23)
