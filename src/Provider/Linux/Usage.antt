-- ===== src/Provider/Linux/Usage.antt =====
-- The percentages of CPU usage.
use zpr_res_monitor.Prelude.{ℕ, ◌+◌, ◌-◌, ◌%◌, ◌≤◌, ◌<◌, ◌≡◌, refl, false, some, ltb, arith, Text}
use native.Mathlib.Nat.{mod-eq_of_lt}
use zpr_res_monitor.Double.{Double}
use zpr_res_monitor.Provider.Scanning.{word}
use zpr_res_monitor.Provider.Linux.{
  LinuxProvider, CpuCounters, read_cpu_counters, system_cpu_percent, store_counters,
  get_system_cpu_usage,
}

-- The ticks since boot, and those not idle.
abbrev pub busy_ticks : CpuCounters → ℕ
busy_ticks c = c.total_user + c.total_niced + c.total_sys

abbrev pub all_ticks : CpuCounters → ℕ
all_ticks c = busy_ticks c + c.total_idle

-- The counters that the provider keeps.
abbrev pub kept : LinuxProvider → CpuCounters
kept p = record {
  total_user = p.last_total_user;
  total_niced = p.last_total_niced;
  total_sys = p.last_total_sys;
  total_idle = p.last_total_idle;
}

-- No counter went back.
abbrev pub IsLater : CpuCounters → CpuCounters → Type 0
IsLater c l =
    (l.total_user ≤ c.total_user)
    × (l.total_niced ≤ c.total_niced)
    × (l.total_sys ≤ c.total_sys)
    × (l.total_idle ≤ c.total_idle)

share_of : (x y : ℕ) → x ≡ y → y < word → x % word ≡ y
share_of x y e h = rw e (mod-eq_of_lt h)

module _ {W : Type 0} ⦃d : Double W⦄ where
  -- The percentage of counters that did not go back.
  system_cpu_percent-later :
      (c : CpuCounters) (p : LinuxProvider) (busy all : ℕ)
      → IsLater c (kept p)
      → busy < word
      → all < word
      → busy + busy_ticks (kept p) ≡ busy_ticks c
      → all + all_ticks (kept p) ≡ all_ticks c
      → system_cpu_percent c p ≡ d.mul (d.div (d.of_long busy) (d.of_long all)) (d.of_long 100)
  unfolding system_cpu_percent
  system_cpu_percent-later c p busy all l small_busy small_all b a =
      let (user, niced, sys, idle) = l in
      let share : (c.total_user
              - p.last_total_user
              + (c.total_niced - p.last_total_niced)
              + (c.total_sys - p.last_total_sys))
            % word
          ≡ busy =
        share_of _ busy (omega arith) small_busy in
      let whole : (busy + (c.total_idle - p.last_total_idle)) % word ≡ all =
        share_of _ all (omega arith) small_all in
      let u : ltb c.total_user p.last_total_user ≡ false = ground arith in
      let n : ltb c.total_niced p.last_total_niced ≡ false = ground arith in
      let s : ltb c.total_sys p.last_total_sys ≡ false = ground arith in
      let i : ltb c.total_idle p.last_total_idle ≡ false = ground arith in
      rw (u, n, s, i, share, whole) refl

  -- If no counter went back and the sum of the new ones is below 2 ^ 64, the usage is the share of ticks not idle
  -- since the last call, times 100, and the share's dividend is at most its divisor.
  pub get_system_cpu_usage-later :
      (stat : Text) (p : LinuxProvider) (c : CpuCounters)
      → read_cpu_counters stat ≡ some c
      → IsLater c (kept p)
      → all_ticks c < word
      → (busy : ℕ) × (all : ℕ) × (get_system_cpu_usage stat p
          ≡ some
              (d.mul (d.div (d.of_long busy) (d.of_long all)) (d.of_long 100), store_counters c p))
        × (busy + busy_ticks (kept p) ≡ busy_ticks c)
        × (all + all_ticks (kept p) ≡ all_ticks c)
        × (busy ≤ all)
  unfolding get_system_cpu_usage
  get_system_cpu_usage-later stat p c h l fits =
      let (user, niced, sys, idle) = l in
      let busy : ℕ = busy_ticks c - busy_ticks (kept p) in
      let all : ℕ = all_ticks c - all_ticks (kept p) in
      let b : busy + busy_ticks (kept p) ≡ busy_ticks c = omega arith in
      let a : all + all_ticks (kept p) ≡ all_ticks c = omega arith in
      let eq = system_cpu_percent-later c p busy all l (omega arith) (omega arith) b a in
      (busy, all, rw (h, get_system_cpu_usage) (rw eq refl), b, a, omega arith)
