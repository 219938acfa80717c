-- ===== src/Flex/Agreement.antt =====
-- The tables and the rules agree, state by state and class by class.
use zpr_res_monitor.Prelude.{every, ℕ, zero, suc, ◌≡◌, refl, true, List, [], ◌∷◌, map}
use zpr_res_monitor.Flex.Views.{table_view, rule_view, class_fits}

abbrev pub range : ℕ → ℕ → List ℕ
range s zero = []
range s (suc n) = s ∷ range (suc s) n

pub views_1_22 : map table_view (range 1 22) ≡ map rule_view (range 1 22)
unfolding table_view rule_view
views_1_22 = refl

pub views_24_99 : map table_view (range 24 76) ≡ map rule_view (range 24 76)
unfolding table_view rule_view
views_24_99 = refl

pub views_100_199 : map table_view (range 100 100) ≡ map rule_view (range 100 100)
unfolding table_view rule_view
views_100_199 = refl

pub views_200_315 : map table_view (range 200 116) ≡ map rule_view (range 200 116)
unfolding table_view rule_view
views_200_315 = refl

pub all_classes_fit : every class_fits (range 1 255) ≡ true
unfolding class_fits
all_classes_fit = refl
