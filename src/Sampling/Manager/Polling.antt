-- ===== src/Sampling/Manager/Polling.antt =====
-- The whole run of `pollingFunction`, from the constructor on.
use zpr_res_monitor.Prelude.{
  ℕ, suc, ◌+◌, ◌≤◌, ◌≡◌, refl, Bool, true, false, some, List, [], ◌∷◌, ◌++◌, arith,
}
use zpr_res_monitor.Double.{Double}
use zpr_res_monitor.Config.Types.{TriggerType, LogType, Resource, cpu, memory, disk}
use zpr_res_monitor.State.Cpu.{CpuState}
use zpr_res_monitor.State.Ram.{RamState}
use zpr_res_monitor.State.Hdd.{HddState}
use zpr_res_monitor.Sampling.Buffer.{CircularBuffer, IsCircular}
use zpr_res_monitor.Sampling.Logs.{max_resolution}
use zpr_res_monitor.Sampling.Logs.Shared.{max_resolution_from-le}
use zpr_res_monitor.Sampling.Triggers.{Call, initialize_triggers}
use zpr_res_monitor.Sampling.Triggers.Table.{all_measurable}
use zpr_res_monitor.Sampling.Manager.{Reading, Manager, new_manager, poll, polling_function}
use zpr_res_monitor.Sampling.Manager.Safety.{IsSafe, poll-IsSafe}

max_resolution-pos : (r : Resource) (ls : List LogType) → 1 ≤ max_resolution r ls
unfolding max_resolution
max_resolution-pos r ls = max_resolution_from-le r 1 ls

-- How many rounds are run: up to the first after which sampling has stopped.
abbrev pub rounds : {W : Type 0} → List (Reading W × Bool) → ℕ
rounds [] = 0
rounds ((r, false) ∷ rs) = 1
rounds ((r, true) ∷ rs) = suc (rounds rs)

module _ (b : CircularBuffer) {W : Type 0} ⦃d : Double W⦄ (laws : IsCircular b) where
  open laws use {capacity-create}

  -- A manager made for triggers whose units their resources take is safe, whatever the logs are.
  pub new_manager-IsSafe :
      (logs : List LogType) (triggers : List TriggerType)
      → all_measurable (initialize_triggers triggers) ≡ true
      → IsSafe b (new_manager b W logs triggers)
  unfolding new_manager
  new_manager-IsSafe logs triggers h = record {
    cpu_room =
        rw (capacity-create (ℕ × CpuState W) (max_resolution cpu logs))
          (max_resolution-pos cpu logs);
    ram_room =
        rw (capacity-create (ℕ × RamState W) (max_resolution memory logs))
          (max_resolution-pos memory logs);
    hdd_room =
        rw (capacity-create (ℕ × HddState W) (max_resolution disk logs))
          (max_resolution-pos disk logs);
    measurable = h;
  }

  polling_function-last :
      (r : Reading W) (rs : List (Reading W × Bool)) (n : ℕ) (m : Manager b W) {m' : Manager b W}
      {calls : List Call}
      → poll b r m ≡ some (m', calls)
      → polling_function b ((r, false) ∷ rs) n m ≡ some (m', suc n, calls)
  unfolding polling_function
  polling_function-last r rs n m e = rw (e, polling_function) refl

  polling_function-next :
      (r : Reading W) (rs : List (Reading W × Bool)) (n : ℕ) (m : Manager b W)
      {m' m'' : Manager b W} {calls later : List Call} {k : ℕ}
      → poll b r m ≡ some (m', calls)
      → polling_function b rs (suc n) m' ≡ some (m'', k, later)
      → polling_function b ((r, true) ∷ rs) n m ≡ some (m'', k, calls ++ later)
  unfolding polling_function
  polling_function-next r rs n m e f = rw (e, polling_function) (rw f refl)

  -- From a safe manager, `pollingFunction` comes through any rounds without an abort or an
  -- undefined read, whatever is read, and counts each round that it ran.
  pub polling_function-IsSafe :
      (rs : List (Reading W × Bool)) (n : ℕ) (m : Manager b W)
      → IsSafe b m
      → (m' : Manager b W) × (k : ℕ) × (calls : List Call) × (polling_function b rs n m
          ≡ some (m', k, calls))
        × IsSafe b m'
        × (k ≡ n + rounds rs)
  unfolding polling_function
  polling_function-IsSafe [] n m v = (m, n, [], refl, v, omega arith)
  polling_function-IsSafe ((r, false) ∷ rs) n m v =
      let (m', calls, e, _, v') = poll-IsSafe b laws r m v in
      (m', suc n, calls, polling_function-last r rs n m e, v', omega arith)
  polling_function-IsSafe ((r, true) ∷ rs) n m v =
      let (m', calls, e, _, v') = poll-IsSafe b laws r m v in
      let (m'', k, later, f, v'', count) = polling_function-IsSafe rs (suc n) m' v' in
      (m'', k, calls ++ later, polling_function-next r rs n m e f, v'', omega (arith, count))
