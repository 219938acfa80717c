-- ===== src/Provider/Linux/Rates.antt =====
-- The bandwidth between two calls of `getHddSystemUsage` of src/library_src/LinuxResProvider.cpp.
use native.Mathlib.Nat.{mod-eq_of_lt, add-mod_right}
use zpr_res_monitor.Prelude.{
  ℕ, ◌+◌, ◌-◌, ◌%◌, ◌≤◌, ◌<◌, ◌≡◌, refl, ◌∙◌, ap, false, ltb, some, Text, arith,
}
use zpr_res_monitor.Double.{Double}
use zpr_res_monitor.Provider.Scanning.{word, lines_of}
use zpr_res_monitor.Provider.Linux.{LinuxProvider, of_difference, wrapping_sub}
use zpr_res_monitor.Provider.Linux.Hdd.{disk_traffic, rate, get_hdd_system_usage}

wrapping_sub-eq : (a b : ℕ) → b ≤ a → a < word → wrapping_sub a b ≡ a - b
wrapping_sub-eq a b h k =
    let shifted : a + word - b ≡ a - b + word = omega arith in
    ap (λ n. n % word) shifted ∙ (add-mod_right (a - b) word ∙ mod-eq_of_lt (omega arith))

module _ {W : Type 0} ⦃d : Double W⦄ where
  rate-eq :
      (bytes last time last_time : ℕ)
      → last ≤ bytes
      → bytes < word
      → last_time ≤ time
      → rate bytes last time last_time
        ≡ d.div (d.of_long (bytes - last)) (d.of_long (time - last_time))
  unfolding rate
  rate-eq bytes last time last_time h k l =
      let later : ltb time last_time ≡ false = ground arith in
      let signed : of_difference time last_time ≡ d.of_long (time - last_time) = rw later refl in
      ap (λ n. d.div (d.of_long n) (of_difference time last_time)) (wrapping_sub-eq bytes last h k)
      ∙ ap (d.div (d.of_long (bytes - last))) signed

  -- Of two calls in a row whose counters and times do not go back, the second gives the bytes between
  -- the two readings over the milliseconds between them, whatever the provider held before the first.
  pub get_hdd_system_usage-twice :
      (first second : Text) (t1 t2 : ℕ) (p : LinuxProvider) {r1 w1 r2 w2 : ℕ}
      → disk_traffic p.hdd_sector_size (lines_of 128 first) ≡ some (r1, w1)
      → disk_traffic p.hdd_sector_size (lines_of 128 second) ≡ some (r2, w2)
      → r1 ≤ r2
      → w1 ≤ w2
      → r2 < word
      → w2 < word
      → t1 ≤ t2
      → (usage : W × W) × (p1 : LinuxProvider) × (p2 : LinuxProvider) × (get_hdd_system_usage first
            t1 p
          ≡ some (usage, p1))
        × (get_hdd_system_usage second t2 p1
            ≡ some (
              (
                d.div (d.of_long (r2 - r1)) (d.of_long (t2 - t1)),
                d.div (d.of_long (w2 - w1)) (d.of_long (t2 - t1)),
              ),
              p2,
            ))
  unfolding get_hdd_system_usage
  get_hdd_system_usage-twice first second t1 t2 p {r1} {w1} {r2} {w2} h k r w fr fw t = (
    (
      rate r1 p.last_hdd_system_read t1 p.hdd_system_last_measure_time,
      rate w1 p.last_hdd_system_write t1 p.hdd_system_last_measure_time,
    ),
    record p {
      hdd_system_last_measure_time = t1;
      last_hdd_system_read = r1;
      last_hdd_system_write = w1;
    },
    record p {
      hdd_system_last_measure_time = t2;
      last_hdd_system_read = r2;
      last_hdd_system_write = w2;
    },
    rw (h, get_hdd_system_usage) refl,
    rw (k, get_hdd_system_usage) (rw (rate-eq r2 r1 t2 t1 r fr t, rate-eq w2 w1 t2 t1 w fw t) refl),
  )
