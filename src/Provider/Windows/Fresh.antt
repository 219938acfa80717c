-- ===== src/Provider/Windows/Fresh.antt =====
-- The constructor of src/library_src/WindowsResProvider.cpp, which reads members that nothing has set.
use zpr_res_monitor.Prelude.{◌≡◌, refl, none, some}
use zpr_res_monitor.Double.{Double}
use zpr_res_monitor.Provider.Windows.{
  Counters, WindowsProvider, WindowsBoot, new_windows_provider, windows_init_self_cpu_usage,
  windows_init_hdd_usage, windows_get_cpu_state, windows_get_self_cpu_usage,
}

-- The members agree that the constructor leaves alone: all six of the bandwidths where the process's
-- counters are not read, and all but the process's counters where the drive's are not.
abbrev pub AgreeUnset : Counters → Counters → WindowsProvider → WindowsProvider → Type 0
AgreeUnset none drive p q =
    (p.last_hdd_self_read ≡ q.last_hdd_self_read)
    × (p.last_hdd_self_write ≡ q.last_hdd_self_write)
    × (p.last_hdd_system_read ≡ q.last_hdd_system_read)
    × (p.last_hdd_system_write ≡ q.last_hdd_system_write)
    × (p.hdd_self_last_measure_time ≡ q.hdd_self_last_measure_time)
    × (p.hdd_system_last_measure_time ≡ q.hdd_system_last_measure_time)
AgreeUnset (some r) none p q =
    (p.last_hdd_system_read ≡ q.last_hdd_system_read)
    × (p.last_hdd_system_write ≡ q.last_hdd_system_write)
    × (p.hdd_self_last_measure_time ≡ q.hdd_self_last_measure_time)
    × (p.hdd_system_last_measure_time ≡ q.hdd_system_last_measure_time)
AgreeUnset (some r) (some s) p q = Unit

module _ {W : Type 0} ⦃d : Double W⦄ where
  -- The constructor on what the two transfer counters give.
  new_windows_provider-unset :
      (self drive : Counters) (total : W) (b : WindowsBoot) (p q : WindowsProvider)
      → AgreeUnset self drive p q
      → (new_windows_provider total (record b { self_counters = self; drive_counters = drive }) p
          ≡ new_windows_provider total
              (record b { self_counters = self; drive_counters = drive })
              q)
        × AgreeUnset self drive
            (new_windows_provider total
              (record b { self_counters = self; drive_counters = drive })
              p)
            p
  unfolding new_windows_provider windows_init_self_cpu_usage windows_init_hdd_usage
      windows_get_cpu_state windows_get_self_cpu_usage
  new_windows_provider-unset none drive total b p q (r, w, dr, dw, n, m) =
      (rw (r, w, dr, dw, n, m) refl, (refl, refl, refl, refl, refl, refl))
  new_windows_provider-unset (some (r, w)) none total b p q (dr, dw, n, m) =
      (rw (dr, dw, n, m) refl, (refl, refl, refl, refl))
  new_windows_provider-unset (some (r, w)) (some (dr, dw)) total b p q h = (refl, tt)

  -- Members that are left matter to the constructor only where it leaves them alone: the members of
  -- the bandwidths that a transfer counter which is not read, and all that come after it, would have
  -- set. Those members it leaves alone, and from two contents that agree in them it comes to the same.
  pub new_windows_provider-fresh :
      (total : W) (b : WindowsBoot) (p q : WindowsProvider)
      → AgreeUnset b.self_counters b.drive_counters p q
      → (new_windows_provider total b p ≡ new_windows_provider total b q)
        × AgreeUnset b.self_counters b.drive_counters (new_windows_provider total b p) p
  new_windows_provider-fresh total b p q h =
      new_windows_provider-unset b.self_counters b.drive_counters total b p q h
