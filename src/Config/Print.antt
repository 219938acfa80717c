-- ===== src/Config/Print.antt =====
-- src/library_src/configrawdata.cpp: the `operator<<`s.
use zpr_res_monitor.Prelude.{Text, codes, decimal, ◌++◌, []}
use zpr_res_monitor.Config.Types.{
  ResourceUnit, ResourceValue, Resource, FluctuationType, TriggerType, LogType, percent, mb, gb,
  cpu, memory, disk, under, over,
}

unfoldable pub show_fluctuation : FluctuationType → Text
show_fluctuation under = codes "under"
show_fluctuation over = codes "over"

-- `TriggerType::Resource` and `LogType::Resource` are printed alike.
unfoldable pub show_resource : Resource → Text
show_resource cpu = codes "CPU"
show_resource memory = codes "RAM"
show_resource disk = codes "HDD"

unfoldable pub show_unit : ResourceUnit → Text
show_unit percent = codes "%"
show_unit mb = codes "MB"
show_unit gb = codes "GB"

unfoldable pub show_value : ResourceValue → Text
unfolding show_unit decimal
show_value v = decimal v.value ++ show_unit v.unit_type

unfoldable pub show_trigger : TriggerType → Text
unfolding show_resource show_fluctuation show_value decimal
show_trigger t =
    codes "Trigger "
    ++ show_resource t.resource
    ++ codes " "
    ++ show_fluctuation t.fluctuation_type
    ++ codes " "
    ++ show_value t.trigger_value
    ++ elim t.resource [ disk ↦ codes "/s" | _ ↦ [] ]
    ++ codes " last for "
    ++ decimal t.duration
    ++ codes "s"

unfoldable pub show_log : LogType → Text
unfolding show_resource decimal
show_log l =
    codes "Log "
    ++ show_resource l.resource
    ++ codes " resolution "
    ++ decimal l.resolution
    ++ codes "s last for "
    ++ decimal l.duration
    ++ codes "s"
