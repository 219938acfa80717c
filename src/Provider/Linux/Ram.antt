-- ===== src/Provider/Linux/Ram.antt =====
-- The memory: `parseLineRam`, `getRamSelfUsage` and `getRamState`.
use zpr_res_monitor.Prelude.{
  ℕ, ◌-◌, ◌*◌, ◌^◌, Bool, not, ◌&&◌, Option, none, some, List, [], ◌∷◌, Text, codes, ltb, leb,
  if◌then◌else◌, drop, take, length,
}
use zpr_res_monitor.Double.{Double}
use zpr_res_monitor.Lexer.Pattern.{is_digit, span}
use zpr_res_monitor.State.Ram.{
  RamState, default_ram_state, set_total_mb, set_mb_used, set_monitor_mb_used,
}
use zpr_res_monitor.Provider.Scanning.{lines_of, starts_with, atoi_digits}
use zpr_res_monitor.Provider.Linux.{of_difference}

-- `p` stops at the first digit, and the line is cut three characters before its end; `none` is a line
-- with no digit, where `p` runs out of it, or one too short to be cut.
unfoldable pub parse_line_ram : Text → Option ℕ
parse_line_ram line =
    let p = span (λ c. not (is_digit c)) line in
    let cut = length line - 3 in
    if ltb p (length line) && leb 3 (length line)
    then atoi_digits (if leb p cut then take (cut - p) (drop p line) else drop p line)
    else none

-- `getRamSelfUsage`: `some none` is the -1 of a status with no such line.
unfoldable pub ram_self_usage_of : List Text → Option (Option ℕ)
unfolding parse_line_ram
ram_self_usage_of [] = some none
ram_self_usage_of (l ∷ ls) =
    let rest = ram_self_usage_of ls in
    if starts_with (codes "VmRSS:") l
    then elim (parse_line_ram l) [ none ↦ none | some n ↦ some (some n) ]
    else rest

unfoldable pub get_ram_self_usage : Text → Option (Option ℕ)
unfolding ram_self_usage_of
get_ram_self_usage status = ram_self_usage_of (lines_of 128 status)

-- The fields of `struct sysinfo` that are read.
pub record SysInfo : Type 0 where
  pub totalram : ℕ
  pub freeram : ℕ
  pub mem_unit : ℕ

-- Neither of the two `long long` products overflows.
abbrev pub sizes_fit : SysInfo → Bool
sizes_fit i =
    ltb (i.totalram * i.mem_unit) (2 ^ 63) && ltb ((i.freeram - i.totalram) * i.mem_unit) (2 ^ 63)

module _ {W : Type 0} ⦃d : Double W⦄ where
  -- Kilobytes of this process in megabytes.
  abbrev pub monitor_mb : Option ℕ → W
  monitor_mb none = d.div d.minus_one (d.of_long 1024)
  monitor_mb (some kb) = d.div (d.of_long kb) (d.of_long 1024)

  -- `none` also where a product of the source overflows a `long long`.
  unfoldable pub get_ram_state : SysInfo → Text → Option (RamState W)
  unfolding default_ram_state set_total_mb set_mb_used set_monitor_mb_used get_ram_self_usage
  get_ram_state i status =
      let megabyte = d.mul (d.of_long 1024) (d.of_long 1024) in
      let total = d.div (d.of_long (i.totalram * i.mem_unit)) megabyte in
      let used =
        d.div (of_difference (i.totalram * i.mem_unit) (i.freeram * i.mem_unit)) megabyte in
      if sizes_fit i
      then elim (get_ram_self_usage status) [
        | none ↦ none
        | some self ↦ some (
            set_monitor_mb_used (monitor_mb self)
              (set_mb_used used (set_total_mb total default_ram_state)))
      ]
      else none
