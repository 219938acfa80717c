-- ===== src/State/Verdicts.antt =====
-- What the comparisons of the states with a trigger answer.
use zpr_res_monitor.Prelude.{◌≡◌, ◌≢◌, true, false, ◌&&◌, arith}
use zpr_res_monitor.Double.{Double, IsOrdered}
use zpr_res_monitor.Config.Types.{TriggerType, FluctuationType, under, over, percent}
use zpr_res_monitor.State.Ram.{RamState, ram_exceeds, set_mb_used, ram_percentage_used}

-- The same trigger for the other direction.
abbrev pub with_fluctuation : FluctuationType → TriggerType → TriggerType
with_fluctuation f t = record t { fluctuation_type = f }

module _ {W : Type 0} ⦃d : Double W⦄ where
  -- A memory trigger in megabytes or gigabytes answers the same however much memory is in use: it
  -- compares the total.
  pub ram_exceeds-set_mb_used :
      (s : RamState W) (used : W) (t : TriggerType)
      → t.trigger_value.unit_type ≢ percent
      → ram_exceeds (set_mb_used used s) t ≡ ram_exceeds s t
  unfolding ram_exceeds set_mb_used
  ram_exceeds-set_mb_used s used t h = ground arith

  asymmetric : (laws : IsOrdered W) (a b : W) → d.lt a b ≡ true → d.lt b a ≡ true → true ≡ false
  asymmetric laws a b h k =
      let both : d.lt a a ≡ true = laws.lt_trans a b a h k in
      let neither : d.lt a a ≡ false = laws.lt_irrefl a in cc

  -- No state exceeds a memory trigger in both directions.
  pub ram_exceeds-exclusive :
      (laws : IsOrdered W) (s : RamState W) (t : TriggerType)
      → (ram_exceeds s (with_fluctuation over t) && ram_exceeds s (with_fluctuation under t))
        ≡ false
  unfolding ram_exceeds
  ram_exceeds-exclusive laws s t =
      let v = d.of_long t.trigger_value.value in
      ground (
        arith,
        asymmetric laws v (ram_percentage_used s),
        asymmetric laws v s.total_ram_mb,
        asymmetric laws v (d.div s.total_ram_mb (d.of_long 1000)),
      )
