-- ===== src/Sampling/Manager/Safety.antt =====
-- A round of `pollingFunction`: aborts, reads of empty buffers, and the states that are judged.
use mathlib.Core.List.{reverse, map-append, reverse-append}
use zpr_res_monitor.Prelude.{
  ℕ, suc, ◌-◌, ◌≤◌, ◌≡◌, refl, true, Option, some, List, [], ◌∷◌, ◌++◌, map, length, drop,
  length-append, arith, ◌∙◌, inl, inr, Bool-cases, leb,
}
use zpr_res_monitor.Double.{Double}
use zpr_res_monitor.Config.Types.{LogType}
use zpr_res_monitor.State.Cpu.{CpuState}
use zpr_res_monitor.State.Ram.{RamState}
use zpr_res_monitor.State.Hdd.{HddState}
use zpr_res_monitor.Sampling.Buffer.{CircularBuffer, IsCircular}
use zpr_res_monitor.Sampling.Mean.{
  samples_mean-total, cpu_step, ram_step, hdd_step, get_cpu_samples_mean, get_ram_samples_mean,
  get_hdd_samples_mean,
}
use zpr_res_monitor.Sampling.Logs.{LogMap, process_log, process_logs}
use zpr_res_monitor.Sampling.Logs.Stored.{drop-append}
use zpr_res_monitor.Sampling.Triggers.{Call, TriggerStates, Sample, process_triggers}
use zpr_res_monitor.Sampling.Triggers.Table.{
  all_measurable, process_triggers-total, some_of, all_measurable-process_triggers,
}
use zpr_res_monitor.Sampling.Manager.{
  Reading, Manager, newest_first, store_reading, last_sample, process_all_logs, poll,
}

-- What was pushed last comes first, if there is room at all.
newest_first-push_back :
    (b : CircularBuffer) (W : Type 0)
    → IsCircular b
    → {S : Type 0} (x : b.Buffer (ℕ × S)) (a : ℕ × S) → 1 ≤ b.capacity (ℕ × S) x
    → (older : List S) × (newest_first b W (b.push_back (ℕ × S) a x) ≡ a.1 ∷ older)
newest_first-push_back b W laws {S} x a room =
    let xs : List (ℕ × S) = b.elements (ℕ × S) x in
    let k : ℕ = length (xs ++ (a ∷ [])) - b.capacity (ℕ × S) x in
    let kept : drop k xs ++ (a ∷ []) ≡ drop k (xs ++ (a ∷ [])) =
      drop-append k xs (a ∷ []) (omega (arith, length-append xs (a ∷ []))) in
    (
      reverse (map (λ p. p.1) (drop k xs)),
      rw (laws.elements-push_back (ℕ × S) a x, ← kept, map-append)
          (reverse-append (map (λ p. p.1) (drop k xs)) (a.1 ∷ [])),
    )

process_log-total :
    (b : CircularBuffer) (S : Type 0) (mean : ℕ → Option S) (l : LogType) (e : b.Buffer S × ℕ)
    → ((n : ℕ) → (s : S) × (mean n ≡ some s))
    → (e' : b.Buffer S × ℕ) × (process_log b S mean l e ≡ some e')
unfolding process_log
process_log-total b S mean l (x, n) h =
    let (s, found) = h l.resolution in
    elim (Bool-cases (leb l.resolution (suc n))) [
      | inl due ↦ ((b.push_back S s x, 0), rw (due, found) refl)
      | inr early ↦ ((x, suc n), rw early refl)
    ]

process_logs-total :
    (b : CircularBuffer) (S : Type 0) (mean : ℕ → Option S) (m : LogMap b S)
    → ((n : ℕ) → (s : S) × (mean n ≡ some s))
    → (m' : LogMap b S) × (process_logs b S mean m ≡ some m')
unfolding process_logs
process_logs-total b S mean [] h = ([], refl)
process_logs-total b S mean ((l, e) ∷ m) h =
    let (e', p) = process_log-total b S mean l e h in
    let (m', q) = process_logs-total b S mean m h in
    ((l, e') ∷ m', rw (p, process_logs) (rw q refl))

module _ (b : CircularBuffer) {W : Type 0} ⦃d : Double W⦄ where
  -- Room for a sample of each resource, and triggers in units that their resources take.
  pub record IsSafe (m : Manager b W) : Type 0 where
    pub cpu_room : 1 ≤ b.capacity (ℕ × CpuState W) m.cpu_samples
    pub ram_room : 1 ≤ b.capacity (ℕ × RamState W) m.ram_samples
    pub hdd_room : 1 ≤ b.capacity (ℕ × HddState W) m.hdd_samples
    pub measurable : all_measurable m.trigger_states ≡ true

  -- The sample that a reading amounts to.
  abbrev pub sample_of : Reading W → Sample W
  sample_of r = record {
    last_cpu_state = r.cpu_reading.1;
    last_ram_state = r.ram_reading.1;
    last_hdd_state = r.hdd_reading.1;
  }

  last_sample-some :
      (m : Manager b W) {c : CpuState W} {r : RamState W} {h : HddState W} {cs : List (CpuState W)}
      {rs : List (RamState W)} {hs : List (HddState W)}
      → newest_first b W m.cpu_samples ≡ c ∷ cs
      → newest_first b W m.ram_samples ≡ r ∷ rs
      → newest_first b W m.hdd_samples ≡ h ∷ hs
      → last_sample b W m
        ≡ some (record { last_cpu_state = c; last_ram_state = r; last_hdd_state = h })
  unfolding last_sample
  last_sample-some m p q e = rw (p, last_sample) (rw (q, e) refl)

  abbrev cpu_mean : Manager b W → ℕ → Option (CpuState W)
  cpu_mean m n = get_cpu_samples_mean n (newest_first b W m.cpu_samples)

  abbrev ram_mean : Manager b W → ℕ → Option (RamState W)
  ram_mean m n = get_ram_samples_mean n (newest_first b W m.ram_samples)

  abbrev hdd_mean : Manager b W → ℕ → Option (HddState W)
  hdd_mean m n = get_hdd_samples_mean n (newest_first b W m.hdd_samples)

  process_all_logs-some :
      (m : Manager b W) {cl : LogMap b (CpuState W)} {rl : LogMap b (RamState W)}
      {hl : LogMap b (HddState W)}
      → process_logs b (CpuState W) (cpu_mean m) m.cpu_log ≡ some cl
      → process_logs b (RamState W) (ram_mean m) m.ram_log ≡ some rl
      → process_logs b (HddState W) (hdd_mean m) m.hdd_log ≡ some hl
      → process_all_logs b m ≡ some (record m { cpu_log = cl; ram_log = rl; hdd_log = hl })
  unfolding process_all_logs
  process_all_logs-some m p q e = rw (p, process_all_logs) (rw (q, e) refl)

  -- Once each buffer holds a sample, the logs are processed.
  process_all_logs-total :
      (m : Manager b W) {c : CpuState W} {r : RamState W} {h : HddState W} {cs : List (CpuState W)}
      {rs : List (RamState W)} {hs : List (HddState W)}
      → newest_first b W m.cpu_samples ≡ c ∷ cs
      → newest_first b W m.ram_samples ≡ r ∷ rs
      → newest_first b W m.hdd_samples ≡ h ∷ hs
      → (cl : LogMap b (CpuState W)) × (rl : LogMap b (RamState W)) × (hl : LogMap b (HddState W))
        × (process_all_logs b m ≡ some (record m { cpu_log = cl; ram_log = rl; hdd_log = hl }))
  unfolding get_cpu_samples_mean get_ram_samples_mean get_hdd_samples_mean
  process_all_logs-total m p q e =
      let (cl, ce) =
        process_logs-total b (CpuState W) (cpu_mean m) m.cpu_log
          (λ n. samples_mean-total (cpu_step n) n _ p) in
      let (rl, re) =
        process_logs-total b (RamState W) (ram_mean m) m.ram_log
          (λ n. samples_mean-total (ram_step n) n _ q) in
      let (hl, he) =
        process_logs-total b (HddState W) (hdd_mean m) m.hdd_log
          (λ n. samples_mean-total (hdd_step n) n _ e) in
      (cl, rl, hl, process_all_logs-some m ce re he)

  poll-some :
      (r : Reading W) (m : Manager b W) {s : Sample W} {ts : TriggerStates} {calls : List Call}
      {m' : Manager b W}
      → last_sample b W (store_reading b W r m) ≡ some s
      → process_triggers s (store_reading b W r m).trigger_states ≡ some (ts, calls)
      → process_all_logs b (record (store_reading b W r m) { trigger_states = ts }) ≡ some m'
      → poll b r m ≡ some (m', calls)
  unfolding poll
  poll-some r m p q e = rw (p, poll) (rw (q, e) refl)

  module _ (laws : IsCircular b) where
    open laws use {capacity-push_back, capacity-create}

    -- After the three `push_back`s the triggers see exactly the states just read.
    pub last_sample-store_reading :
        (r : Reading W) (m : Manager b W)
        → IsSafe m
        → last_sample b W (store_reading b W r m) ≡ some (sample_of r)
    unfolding store_reading
    last_sample-store_reading r m v =
        let (_, c) = newest_first-push_back b W laws m.cpu_samples r.cpu_reading v.cpu_room in
        let (_, q) = newest_first-push_back b W laws m.ram_samples r.ram_reading v.ram_room in
        let (_, h) = newest_first-push_back b W laws m.hdd_samples r.hdd_reading v.hdd_room in
        last_sample-some (store_reading b W r m) c q h

    store_reading-IsSafe :
        (r : Reading W) (m : Manager b W) → IsSafe m → IsSafe (store_reading b W r m)
    unfolding store_reading
    store_reading-IsSafe r m v = record {
      cpu_room = rw (capacity-push_back (ℕ × CpuState W) r.cpu_reading m.cpu_samples) v.cpu_room;
      ram_room = rw (capacity-push_back (ℕ × RamState W) r.ram_reading m.ram_samples) v.ram_room;
      hdd_room = rw (capacity-push_back (ℕ × HddState W) r.hdd_reading m.hdd_samples) v.hdd_room;
      measurable = v.measurable;
    }

    -- Whatever is read, a round from a safe state ends without an abort or an undefined read, in a
    -- safe state, and its calls are those of `processTriggers` on the states just read.
    pub poll-IsSafe :
        (r : Reading W) (m : Manager b W)
        → IsSafe m
        → (m' : Manager b W) × (calls : List Call) × (poll b r m ≡ some (m', calls))
          × (process_triggers (sample_of r) m.trigger_states ≡ some (m'.trigger_states, calls))
          × IsSafe m'
    unfolding store_reading
    poll-IsSafe r m v =
        let safe = store_reading-IsSafe r m v in
        let (_, c) = newest_first-push_back b W laws m.cpu_samples r.cpu_reading v.cpu_room in
        let (_, q) = newest_first-push_back b W laws m.ram_samples r.ram_reading v.ram_room in
        let (_, h) = newest_first-push_back b W laws m.hdd_samples r.hdd_reading v.hdd_room in
        let ((ts, calls), e) =
          some_of (process_triggers (sample_of r) m.trigger_states)
            (process_triggers-total (sample_of r) m.trigger_states ∙ v.measurable) in
        let (cl, rl, hl, done) =
          process_all_logs-total (record (store_reading b W r m) { trigger_states = ts }) c q h in
        (
          record (store_reading b W r m) {
            trigger_states = ts;
            cpu_log = cl;
            ram_log = rl;
            hdd_log = hl;
          },
          calls,
          poll-some r m (last_sample-store_reading r m v) e done,
          e,
          record {
            cpu_room = safe.cpu_room;
            ram_room = safe.ram_room;
            hdd_room = safe.hdd_room;
            measurable =
                all_measurable-process_triggers (sample_of r) m.trigger_states e ∙ v.measurable;
          },
        )
