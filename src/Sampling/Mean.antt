-- ===== src/Sampling/Mean.antt =====
-- `getCpuSamplesMean`, `getRamSamplesMean` and `getHddSamplesMean`: one loop over three states.
use zpr_res_monitor.Prelude.{
  ℕ, zero, suc, ◌+◌, ◌*◌, ◌<◌, ◌≤◌, ◌^◌, ◌≡◌, refl, true, Option, none, some, List, [], ◌∷◌, ◌||◌,
  ltb, if◌then◌else◌, arith, replicate, take, map, ap,
}
use zpr_res_monitor.Double.{Double}
use zpr_res_monitor.State.Cpu.{CpuState, cpu_state, cpu_add, cpu_div}
use zpr_res_monitor.State.Ram.{RamState, ram_add, ram_div}
use zpr_res_monitor.State.Hdd.{HddState, hdd_add, hdd_div}

-- The loop from the second newest sample on; `step` is `+=` followed by `/=`.
unfoldable pub mean_loop : {S : Type 0} → (S → S → S) → ℕ → ℕ → S → List S → S
mean_loop step samples i state [] = state
mean_loop step samples i state (x ∷ xs) =
    if ltb i samples then mean_loop step samples (i + 1) (step state x) xs else state

-- The samples come newest first; `rbegin` of an empty buffer is undefined.
unfoldable pub samples_mean : {S : Type 0} → (S → S → S) → ℕ → List S → Option S
unfolding mean_loop
samples_mean step samples [] = none
samples_mean step samples (x ∷ xs) = some (mean_loop step samples 1 x xs)

module _ {W : Type 0} ⦃d : Double W⦄ where
  abbrev pub cpu_step : ℕ → CpuState W → CpuState W → CpuState W
  cpu_step n a b = cpu_div (cpu_add a b) (d.of_long n)

  unfoldable pub get_cpu_samples_mean : ℕ → List (CpuState W) → Option (CpuState W)
  unfolding samples_mean cpu_add cpu_div
  get_cpu_samples_mean n = samples_mean (cpu_step n) n

  abbrev pub ram_step : ℕ → RamState W → RamState W → RamState W
  ram_step n a b = ram_div (ram_add a b) (d.of_long n)

  unfoldable pub get_ram_samples_mean : ℕ → List (RamState W) → Option (RamState W)
  unfolding samples_mean ram_add ram_div
  get_ram_samples_mean n = samples_mean (ram_step n) n

  abbrev pub hdd_step : ℕ → HddState W → HddState W → HddState W
  hdd_step n a b = hdd_div (hdd_add a b) (d.of_long n)

  unfoldable pub get_hdd_samples_mean : ℕ → List (HddState W) → Option (HddState W)
  unfolding samples_mean hdd_add hdd_div
  get_hdd_samples_mean n = samples_mean (hdd_step n) n

mean_loop-take :
    {S : Type 0} (step : S → S → S) (n i k : ℕ) (state : S) (xs : List S)
    → n ≤ i + k
    → mean_loop step n i state (take k xs) ≡ mean_loop step n i state xs
unfolding mean_loop
mean_loop-take step n i zero state [] h = refl
mean_loop-take step n i zero state (x ∷ xs) h = ground arith
mean_loop-take step n i (suc k) state [] h = refl
mean_loop-take step n i (suc k) state (x ∷ xs) h =
    ground (arith, mean_loop-take step n (i + 1) k (step state x) xs)

-- A mean over `n` samples reads the newest `n` samples only, and at least one.
pub samples_mean-take :
    {S : Type 0} (step : S → S → S) (n : ℕ) (xs : List S)
    → samples_mean step (suc n) (take (suc n) xs) ≡ samples_mean step (suc n) xs
unfolding samples_mean
samples_mean-take step n [] = refl
samples_mean-take step n (x ∷ xs) = rw (mean_loop-take step (suc n) 1 n x xs (omega arith)) refl

pub samples_mean-total :
    {S : Type 0} (step : S → S → S) (n : ℕ) (xs : List S) {x : S} {older : List S}
    → xs ≡ x ∷ older
    → (s : S) × (samples_mean step n xs ≡ some s)
unfolding samples_mean
samples_mean-total step n xs {x} {older} h = (mean_loop step n 1 x older, rw h refl)

-- A projection that the step respects commutes with the loop.
mean_loop-map :
    {S T : Type 0} (f : S → T) (step : S → S → S) (step' : T → T → T)
    → ((a b : S) → f (step a b) ≡ step' (f a) (f b))
    → (n i : ℕ) (state : S) (xs : List S)
    → f (mean_loop step n i state xs) ≡ mean_loop step' n i (f state) (map f xs)
unfolding mean_loop
mean_loop-map f step step' h n i state [] = refl
mean_loop-map f step step' h n i state (x ∷ xs) =
    ground (arith, mean_loop-map f step step' h n (i + 1) (step state x) xs, h state x)

map-replicate :
    {S T : Type 0} (f : S → T) (n : ℕ) (a : S) → map f (replicate n a) ≡ replicate n (f a)
map-replicate f zero a = refl
map-replicate f (suc n) a = ap (◌∷◌ (f a)) (map-replicate f n a)

-- What is needed of the arithmetic of `double` on small whole numbers. A value that compares with a
-- number is not NaN, and rounding keeps the order.
pub record IsExact (W : Type 0) ⦃d : Double W⦄ : Type 0 where
  pub add_of_long :
      (a b : ℕ) → a + b < 2 ^ 53 → d.add (d.of_long a) (d.of_long b) ≡ d.of_long (a + b)
  pub lt_add :
      (a : W) (c : ℕ)
      → c + c < 2 ^ 53
      → d.lt a (d.of_long c) ≡ true
      → d.lt (d.add a (d.of_long c)) (d.of_long (c + c))
          || d.eq (d.add a (d.of_long c)) (d.of_long (c + c))
        ≡ true
  pub lt_div :
      (a : W) (m c n : ℕ)
      → c * n < 2 ^ 52
      → m < c * n
      → d.lt a (d.of_long m) || d.eq a (d.of_long m) ≡ true
      → d.lt (d.div a (d.of_long n)) (d.of_long c) ≡ true
  pub div_of_long :
      (a c n : ℕ)
      → c * n < 2 ^ 52
      → a < c * n
      → d.lt (d.div (d.of_long a) (d.of_long n)) (d.of_long c) ≡ true

module _ {W : Type 0} ⦃d : Double W⦄ (laws : IsExact W) where
  open laws use {add_of_long, lt_add, lt_div, div_of_long}

  abbrev mean_step : ℕ → W → W → W
  mean_step n a b = d.div (d.add a b) (d.of_long n)

  step-lt :
      (c n : ℕ) (state : W)
      → 0 < c
      → 3 ≤ n
      → c * n < 2 ^ 52
      → d.lt state (d.of_long c) ≡ true
      → d.lt (d.div (d.add state (d.of_long c)) (d.of_long n)) (d.of_long c) ≡ true
  step-lt c n state pos three small h =
      lt_div _ (c + c) c n small (grind arith) (lt_add state c (grind arith) h)

  mean_loop-lt :
      (c n i k : ℕ) (state : W)
      → 0 < c
      → 3 ≤ n
      → c * n < 2 ^ 52
      → d.lt state (d.of_long c) ≡ true
      → d.lt (mean_loop (mean_step n) n i state (replicate k (d.of_long c))) (d.of_long c) ≡ true
  unfolding mean_loop
  mean_loop-lt c n i zero state pos three small h = h
  mean_loop-lt c n i (suc k) state pos three small h =
      let next : W = d.div (d.add state (d.of_long c)) (d.of_long n) in
      let one : d.lt next (d.of_long c) ≡ true = step-lt c n state pos three small h in
      ground (arith, mean_loop-lt c n (i + 1) k next pos three small one)

  -- If CPU usage is the same positive whole percentage `c` in two or more polls, the "mean" over `n`
  -- samples, three or more with `c * n` below 2 ^ 52, is strictly below `c`: each round of the loop
  -- divides again.
  pub get_cpu_samples_mean-lt :
      (c n k : ℕ) (monitor : W)
      → 0 < c
      → 3 ≤ n
      → c * n < 2 ^ 52
      → (s : CpuState W) × (get_cpu_samples_mean n
            (replicate (suc (suc k)) (cpu_state (d.of_long c) monitor))
          ≡ some s)
        × (d.lt s.cpu_in_use_percentage (d.of_long c) ≡ true)
  unfolding get_cpu_samples_mean mean_loop
  get_cpu_samples_mean-lt c n k monitor pos three small =
      let next : W = d.div (d.add (d.of_long c) (d.of_long c)) (d.of_long n) in
      let first : d.lt next (d.of_long c) ≡ true =
        rw (add_of_long c c (grind arith)) (div_of_long (c + c) c n small (grind arith)) in
      let used : CpuState W → W = λ s. s.cpu_in_use_percentage in
      let one = cpu_state (d.of_long c) monitor in
      let rest = replicate (suc k) one in
      let later = mean_loop-lt c n 2 k next pos three small first in
      (
        mean_loop (cpu_step n) n 1 one rest,
        refl,
        rw
            (
              mean_loop-map used (cpu_step n) (mean_step n) (λ a b. refl) n 1 one rest,
              map-replicate used k one,
            )
            (ground (arith, later)),
      )
