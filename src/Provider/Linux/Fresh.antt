-- ===== src/Provider/Linux/Fresh.antt =====
-- The constructor of src/library_src/LinuxResProvider.cpp, which reads members that nothing has set.
use zpr_res_monitor.Prelude.{ℕ, Option, some, none}
use zpr_res_monitor.Double.{Double}
use zpr_res_monitor.Provider.Linux.{LinuxProvider}

-- The sector size once the file has been read: what it holds, or else what the member was left with.
abbrev pub size_or_left : Option ℕ → LinuxProvider → ℕ
size_or_left none p = p.hdd_sector_size
size_or_left (some n) p = n
