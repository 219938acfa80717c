-- ===== src/Lexer/Series.antt =====
-- Reading a series of items in braces.
use zpr_res_monitor.Prelude.{ℕ, ◌≡◌, ◌∷◌, ◌++◌, Text, codes, arith, All}
use zpr_res_monitor.Lexer.State.{Condition, Lexer, ok}
use zpr_res_monitor.Lexer.Rules.{Action, do_action}
use zpr_res_monitor.Lexer.Reach.{Reaches, ◌then◌}
use zpr_res_monitor.Lexer.Decimal.{IsDigit}
use zpr_res_monitor.Lexer.Syntax.{Series, only, next, items, put_series}
use zpr_res_monitor.Lexer.Tokens.{Matches}
use zpr_res_monitor.Lexer.Items.{StartsWithDigit, reach_before_digit, Behind, comma, brace}

-- How a start condition reads the items of a series, separated by commas: what an item and a comma do,
-- in the states that are ready for an item.
pub record SeriesReader (A : Type 0) (put : A → Text → Text) (Fits : A → Type 0) : Type 1 where
  pub condition : Condition
  pub ReadyFor : Lexer → Type 0
  pub read_item : A → Lexer → Lexer
  pub comma_action : Action
  pub push : Lexer → Lexer
  pub item_starts : (a : A) (rest : Text) → StartsWithDigit (put a rest)
  pub reach_item :
      (a : A) {rest : Text} (s : Lexer)
      → Behind rest
      → Fits a
      → ReadyFor s
      → Reaches (put a rest) s rest (read_item a s)
  pub item_condition : (a : A) (s : Lexer) → ReadyFor s → (read_item a s).condition ≡ condition
  pub push-ReadyFor : (a : A) (s : Lexer) → ReadyFor s → ReadyFor (push (read_item a s))
  pub comma_matches :
      (c : ℕ) → IsDigit c → (rest : Text) → Matches condition (codes ", ") comma_action (c ∷ rest)
  pub comma_acts : (text : Text) (s : Lexer) → do_action comma_action text s ≡ ok (push s)

module _ {A : Type 0} {put : A → Text → Text} {Fits : A → Type 0}
    (reader : SeriesReader A put Fits) where
  abbrev pub read_series : Series A → Lexer → Lexer
  read_series (only a) s = reader.read_item a s
  read_series (next a as') s = read_series as' (reader.push (reader.read_item a s))

  pub series_starts : (as' : Series A) (rest : Text) → StartsWithDigit (put_series put as' rest)
  series_starts (only a) rest = reader.item_starts a _
  series_starts (next a as') rest = reader.item_starts a _

  reach_comma :
      (text : Text) (s : Lexer)
      → StartsWithDigit text
      → s.condition ≡ reader.condition
      → Reaches (codes ", " ++ text) s text (reader.push s)
  reach_comma text s d at =
      reach_before_digit reader.condition (codes ", ") reader.comma_action s (omega arith) d at
        reader.comma_matches (reader.comma_acts (codes ", ") s)

  pub reach_series :
      (as' : Series A) (rest : Text) (s : Lexer)
      → All Fits (items as')
      → reader.ReadyFor s
      → Reaches (put_series put as' (codes "}" ++ rest)) s (codes "}" ++ rest) (read_series as' s)
  reach_series (only a) rest s fits ready = reader.reach_item a s (brace rest) fits.0 ready
  reach_series (next a as') rest s fits ready =
      let tail = put_series put as' (codes "}" ++ rest) in
      reader.reach_item a s (comma tail) fits.0 ready
      then reach_comma tail (reader.read_item a s) (series_starts as' (codes "}" ++ rest))
          (reader.item_condition a s ready)
      then reach_series as' rest (reader.push (reader.read_item a s)) fits.1
          (reader.push-ReadyFor a s ready)
