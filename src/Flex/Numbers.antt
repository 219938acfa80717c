-- ===== src/Flex/Numbers.antt =====
-- Tables of numbers, laid out as flex prints them: the first number, then blocks of ten rows of ten.
use zpr_res_monitor.Prelude.{ℕ, zero, suc, ◌/◌, ◌%◌, Option, none, some, List, [], ◌∷◌, get_elem?}

pub data Numbers : Type 0 where
  numbers : ℕ → List (List (List ℕ)) → Numbers

abbrev pub row : ℕ → ℕ → ℕ → ℕ → ℕ → ℕ → ℕ → ℕ → ℕ → ℕ → List ℕ
row a b c d e f g h i j = a ∷ b ∷ c ∷ d ∷ e ∷ f ∷ g ∷ h ∷ i ∷ j ∷ []

-- `table[n]`; `none` is a read outside of the table.
unfoldable pub entry : Numbers → ℕ → Option ℕ
entry (numbers first blocks) zero = some first
entry (numbers first blocks) (suc n) = elim (get_elem? blocks (n / 100)) [
  | none ↦ none
  | some block ↦ elim (get_elem? block (n / 10 % 10)) [
    | none ↦ none
    | some line ↦ get_elem? line (n % 10)
  ]
]
