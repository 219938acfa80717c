-- ===== src/Predicate/Print.antt =====
-- The `print` methods.
use zpr_res_monitor.Prelude.{Text, codes, ◌++◌}
use zpr_res_monitor.Config.Print.{show_trigger}
use zpr_res_monitor.Predicate.{Kind, or_and, both, element}

unfoldable pub show_kind : Kind → Text
unfolding show_trigger
show_kind (or_and a b c) =
    show_trigger a ++ codes " OR " ++ show_trigger b ++ codes " AND " ++ show_trigger c
show_kind (both a b) = show_trigger a ++ codes " AND " ++ show_trigger b
show_kind (element a) = show_trigger a
