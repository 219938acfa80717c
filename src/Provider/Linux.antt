-- ===== src/Provider/Linux.antt =====
-- include/LinuxResProvider.hpp and src/library_src/LinuxResProvider.cpp. The files under /proc and
-- /sys, `times`, `sysinfo` and the clock are arguments, and each getter returns its members' new
-- values. `none` is undefined behaviour or an exception of a conversion.
pub mod Hdd
pub mod Ram
pub mod Getters
pub mod Usage
pub mod Rates
pub mod Fresh
use zpr_res_monitor.Prelude.{
  ℕ, zero, suc, ◌+◌, ◌-◌, ◌*◌, ◌%◌, ◌^◌, Bool, true, false, ◌&&◌, ◌||◌, Option, none, some, List,
  [], ◌∷◌, ◌++◌, ◌==◌, ltb, leb, Text, codes, if◌then◌else◌, length, drop, take, get_elem?,
}
use zpr_res_monitor.Double.{Double}
use zpr_res_monitor.Provider.Scanning.{word, lines_of, starts_with, strstr, tokens, stoll, scan_llu}

-- The members. `clock_t`s come from `times`, the times of the measurements from `system_clock`.
pub record LinuxProvider : Type 0 where
  pub last_total_user : ℕ
  pub last_total_niced : ℕ
  pub last_total_sys : ℕ
  pub last_total_idle : ℕ
  pub last_hdd_self_read : ℕ
  pub last_hdd_self_write : ℕ
  pub last_hdd_system_read : ℕ
  pub last_hdd_system_write : ℕ
  pub last_cpu : ℕ
  pub last_sys_cpu : ℕ
  pub last_user_cpu : ℕ
  pub num_processors : ℕ
  pub hdd_sector_size : ℕ
  pub hdd_self_last_measure_time : ℕ
  pub hdd_system_last_measure_time : ℕ

-- The four counters of the first line of /proc/stat.
pub record CpuCounters : Type 0 where
  pub total_user : ℕ
  pub total_niced : ℕ
  pub total_sys : ℕ
  pub total_idle : ℕ

-- `fscanf(file, "cpu %llu %llu %llu %llu", ...)`, where all four are there. Otherwise the source goes
-- on with locals that were never set, which is `none`.
unfoldable pub read_cpu_counters : Text → Option CpuCounters
read_cpu_counters stat = if starts_with (codes "cpu") stat then four (drop 3 stat) else none
  where
    four : Text → Option CpuCounters
    four t0 = elim (scan_llu t0) [
      | none ↦ none
      | some (user, t1) ↦ elim (scan_llu t1) [
        | none ↦ none
        | some (niced, t2) ↦ elim (scan_llu t2) [
          | none ↦ none
          | some (sys, t3) ↦ elim (scan_llu t3) [
            | none ↦ none
            | some (idle, t4) ↦ some (record {
              total_user = user;
              total_niced = niced;
              total_sys = sys;
              total_idle = idle;
            })
          ]
        ]
      ]
    ]

-- What the four assignments of the counters do.
unfoldable pub store_counters : CpuCounters → LinuxProvider → LinuxProvider
store_counters c p = record p {
  last_total_user = c.total_user;
  last_total_niced = c.total_niced;
  last_total_sys = c.total_sys;
  last_total_idle = c.total_idle;
}

unfoldable pub init_system_cpu_usage : Text → LinuxProvider → Option LinuxProvider
unfolding read_cpu_counters store_counters
init_system_cpu_usage stat p = elim (read_cpu_counters stat) [
  | none ↦ none
  | some c ↦ some (store_counters c p)
]

-- `struct tms` with the result of `times`.
pub record TimeSample : Type 0 where
  pub now : ℕ
  pub tms_stime : ℕ
  pub tms_utime : ℕ

-- The lines of /proc/cpuinfo that begin with "processor".
unfoldable pub count_processors : List Text → ℕ
count_processors [] = 0
count_processors (l ∷ ls) =
    let rest = count_processors ls in if starts_with (codes "processor") l then suc rest else rest

unfoldable pub init_self_cpu_usage : TimeSample → Text → LinuxProvider → LinuxProvider
unfolding count_processors
init_self_cpu_usage t cpuinfo p = record p {
  last_cpu = t.now;
  last_sys_cpu = t.tms_stime;
  last_user_cpu = t.tms_utime;
  num_processors = count_processors (lines_of 128 cpuinfo);
}

module _ {W : Type 0} ⦃d : Double W⦄ where
  -- The percentage of `getSystemCpuUsage`, in 64-bit arithmetic.
  unfoldable pub system_cpu_percent : CpuCounters → LinuxProvider → W
  system_cpu_percent c p =
      if ltb c.total_user p.last_total_user
        || ltb c.total_niced p.last_total_niced
        || ltb c.total_sys p.last_total_sys
        || ltb c.total_idle p.last_total_idle
      then d.minus_one
      else let total =
          (c.total_user
            - p.last_total_user
            + (c.total_niced - p.last_total_niced)
            + (c.total_sys - p.last_total_sys))
          % word in
        let all = (total + (c.total_idle - p.last_total_idle)) % word in
        d.mul (d.div (d.of_long total) (d.of_long all)) (d.of_long 100)

  unfoldable pub get_system_cpu_usage : Text → LinuxProvider → Option (W × LinuxProvider)
  unfolding read_cpu_counters system_cpu_percent store_counters
  get_system_cpu_usage stat p = elim (read_cpu_counters stat) [
    | none ↦ none
    | some c ↦ some (system_cpu_percent c p, store_counters c p)
  ]

  unfoldable pub get_self_cpu_usage : TimeSample → LinuxProvider → W × LinuxProvider
  get_self_cpu_usage t p = (
    if leb t.now p.last_cpu || ltb t.tms_stime p.last_sys_cpu || ltb t.tms_utime p.last_user_cpu
        then d.minus_one
        else d.mul
            (d.div
              (d.div (d.of_long (t.tms_stime - p.last_sys_cpu + (t.tms_utime - p.last_user_cpu)))
                (d.of_long (t.now - p.last_cpu)))
              (d.of_long p.num_processors))
            (d.of_long 100),
    record p { last_cpu = t.now; last_sys_cpu = t.tms_stime; last_user_cpu = t.tms_utime },
  )

  -- A signed difference, as a `double`.
  abbrev pub of_difference : ℕ → ℕ → W
  of_difference a b = if ltb a b then d.sub (d.of_long 0) (d.of_long (b - a)) else d.of_long (a - b)

-- `unsigned long long` subtraction.
abbrev pub wrapping_sub : ℕ → ℕ → ℕ
wrapping_sub a b = (a + word - b) % word
