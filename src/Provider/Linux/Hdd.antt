-- ===== src/Provider/Linux/Hdd.antt =====
-- The bandwidths: `getHddSystemUsage` from /proc/diskstats and `getHddSelfUsage` from /proc/self/io.
use zpr_res_monitor.Prelude.{
  ℕ, ◌*◌, ◌%◌, Option, none, some, List, [], ◌∷◌, Text, codes, if◌then◌else◌, drop, get_elem?,
}
use zpr_res_monitor.Double.{Double}
use zpr_res_monitor.Provider.Scanning.{word, lines_of, starts_with, strstr, tokens, stoll}
use zpr_res_monitor.Provider.Linux.{LinuxProvider, of_difference, wrapping_sub}

-- The bytes read and written.
abbrev pub Traffic : Type 0
Traffic = ℕ × ℕ

unfoldable pub both : Option ℕ → Option ℕ → Option Traffic
both none w = none
both (some r) none = none
both (some r) (some w) = some (r, w)

-- A field of the line in sectors, as bytes.
unfoldable pub field_bytes : ℕ → List Text → ℕ → Option ℕ
field_bytes sector_size fields i = elim (get_elem? fields i) [
  | none ↦ none
  | some f ↦ elim (stoll f) [ none ↦ none | some n ↦ some (n * sector_size % word) ]
]

-- The first line with "sda ", its fields counted from there. With no such line, or too short a one,
-- the source computes with locals that were never set.
unfoldable pub disk_traffic : ℕ → List Text → Option Traffic
unfolding field_bytes both
disk_traffic sector_size [] = none
disk_traffic sector_size (l ∷ ls) = elim (strstr (codes "sda ") l) [
  | none ↦ disk_traffic sector_size ls
  | some rest ↦
      let fields = tokens rest in
      both (field_bytes sector_size fields 3) (field_bytes sector_size fields 7)
]

-- The lines of /proc/self/io: the last `rchar:` before the first `wchar:`.
unfoldable pub self_traffic : Option ℕ → List Text → Option Traffic
unfolding both
self_traffic read [] = none
self_traffic read (l ∷ ls) =
    let new = if starts_with (codes "rchar:") l then stoll (drop 6 l) else read in
    let rest = self_traffic new ls in
    if starts_with (codes "rchar:") l
    then elim new [ none ↦ none | some n ↦ rest ]
    else if starts_with (codes "wchar:") l
    then both read (stoll (drop 6 l))
    else rest

module _ {W : Type 0} ⦃d : Double W⦄ where
  -- Bytes over milliseconds, from `unsigned long long` counters.
  unfoldable pub rate : ℕ → ℕ → ℕ → ℕ → W
  rate bytes last_bytes time last_time =
      d.div (d.of_long (wrapping_sub bytes last_bytes)) (of_difference time last_time)

  unfoldable pub get_hdd_system_usage : Text → ℕ → LinuxProvider → Option ((W × W) × LinuxProvider)
  unfolding rate disk_traffic
  get_hdd_system_usage diskstats time p =
      elim (disk_traffic p.hdd_sector_size (lines_of 128 diskstats)) [
        | none ↦ none
        | some (read, write) ↦ some (
          (
            rate read p.last_hdd_system_read time p.hdd_system_last_measure_time,
            rate write p.last_hdd_system_write time p.hdd_system_last_measure_time,
          ),
          record p {
            hdd_system_last_measure_time = time;
            last_hdd_system_read = read;
            last_hdd_system_write = write;
          },
        )
      ]

  unfoldable pub get_hdd_self_usage : Text → ℕ → LinuxProvider → Option ((W × W) × LinuxProvider)
  unfolding rate self_traffic
  get_hdd_self_usage io time p = elim (self_traffic none (lines_of 64 io)) [
    | none ↦ none
    | some (read, write) ↦ some (
      (
        rate read p.last_hdd_self_read time p.hdd_self_last_measure_time,
        rate write p.last_hdd_self_write time p.hdd_self_last_measure_time,
      ),
      record p {
        hdd_self_last_measure_time = time;
        last_hdd_self_read = read;
        last_hdd_self_write = write;
      },
    )
  ]
