-- ===== src/Double.antt =====
-- What the program does with a `double`. The language's floating point is a parameter: an instance
-- of this record.
use zpr_res_monitor.Prelude.{ℕ, ◌≡◌, Bool, true, false, Text, if◌then◌else◌}

pub record Double (W : Type 0) : Type 0 where
  -- A `long` or a literal such as `1000000` or `0.0`, converted.
  pub of_long : ℕ → W
  -- The literal `-1.0`.
  pub minus_one : W
  pub add : W → W → W
  pub sub : W → W → W
  pub mul : W → W → W
  pub div : W → W → W
  pub lt : W → W → Bool
  pub eq : W → W → Bool
  -- `static_cast<size_t>` of a value that is not negative.
  pub truncate : W → ℕ
  -- What `<<` prints.
  pub show : W → Text

module _ {W : Type 0} ⦃d : Double W⦄ where
  -- `a > b`.
  abbrev pub gt : W → W → Bool
  gt a b = d.lt b a

  -- `std::max`.
  abbrev pub max_double : W → W → W
  max_double a b = if d.lt a b then b else a

-- The facts about IEEE comparison that the lemmas rely on; they hold with NaN too.
pub record IsOrdered (W : Type 0) ⦃d : Double W⦄ : Type 0 where
  pub lt_irrefl : (a : W) → d.lt a a ≡ false
  pub lt_trans : (a b c : W) → d.lt a b ≡ true → d.lt b c ≡ true → d.lt a c ≡ true
