-- ===== src/State/Compare.antt =====
-- The comparison that the three `operator>` share: the branches on `fluctuationType`.
use zpr_res_monitor.Prelude.{Bool}
use zpr_res_monitor.Double.{Double, gt}
use zpr_res_monitor.Config.Types.{FluctuationType, under, over}

module _ {W : Type 0} ⦃d : Double W⦄ where
  abbrev pub compare_with : FluctuationType → W → W → Bool
  compare_with over a v = gt a v
  compare_with under a v = d.lt a v
