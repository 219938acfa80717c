-- ===== src/Sampling/Logs/Stored.antt =====
-- What a log holds after a run of polls.
use native.Mathlib.Nat.{zero-add, suc-add}
use mathlib.Core.List.{append-nil, append_assoc}
use zpr_res_monitor.Prelude.{
  ℕ, zero, suc, ◌+◌, ◌-◌, ◌≤◌, ◌≡◌, refl, true, false, Option, none, some, List, [], ◌∷◌, ◌++◌, leb,
  if◌then◌else◌, arith, length, drop, length-append, ap, sym, ◌∙◌, Bool-cases, inl, inr,
}
use zpr_res_monitor.Config.Types.{LogType}
use zpr_res_monitor.Sampling.Buffer.{CircularBuffer, IsCircular, last_n}
use zpr_res_monitor.Sampling.Logs.{process_log}

-- Every `r`-th of the means, `k` polls after the last one that was taken.
unfoldable pub every : {S : Type 0} → ℕ → ℕ → List S → List S
every r k [] = []
every r k (s ∷ ss) =
    let later = every r (suc k) ss in if leb r (suc k) then s ∷ every r 0 ss else later

module _ (b : CircularBuffer) (S : Type 0) where
  -- The polls one after another, each with the mean that it finds.
  unfoldable pub run_log : LogType → List S → b.Buffer S × ℕ → Option (b.Buffer S × ℕ)
  run_log l [] e = some e
  run_log l (s ∷ ss) e = elim (process_log b S (λ n. some s) l e) [
    | none ↦ none
    | some e' ↦ run_log l ss e'
  ]

module _ {S : Type 0} where
  pub drop-append : (k : ℕ) (xs ys : List S) → k ≤ length xs → drop k xs ++ ys ≡ drop k (xs ++ ys)
  drop-append zero xs ys h = refl
  drop-append (suc k) [] ys h = absurd (omega arith)
  drop-append (suc k) (x ∷ xs) ys h = drop-append k xs ys (omega arith)

  drop-drop : (k a : ℕ) (xs : List S) → drop a (drop k xs) ≡ drop (k + a) xs
  drop-drop zero a xs = rw zero-add refl
  drop-drop (suc k) zero [] = rw suc-add refl
  drop-drop (suc k) (suc a) [] = rw suc-add refl
  drop-drop (suc k) a (x ∷ xs) = rw suc-add (drop-drop k a xs)

  length-drop : (k : ℕ) (xs : List S) → length (drop k xs) ≡ length xs - k
  length-drop zero xs = omega arith
  length-drop (suc k) [] = omega arith
  length-drop (suc k) (x ∷ xs) = omega (arith, length-drop k xs)

  -- Keeping the last elements early changes nothing for those that come later.
  last_n-append : (n : ℕ) (xs ys : List S) → last_n n (last_n n xs ++ ys) ≡ last_n n (xs ++ ys)
  last_n-append n xs ys =
      let k : ℕ = length xs - n in
      let whole : drop k xs ++ ys ≡ drop k (xs ++ ys) = drop-append k xs ys (omega arith) in
      let size : k + (length (drop k (xs ++ ys)) - n) ≡ length (xs ++ ys) - n =
        omega (arith, length-drop k (xs ++ ys), length-append xs ys) in
      rw whole (drop-drop k _ (xs ++ ys) ∙ ap (λ j. drop j (xs ++ ys)) size)

  last_n_all : (n : ℕ) (xs : List S) → length xs ≤ n → last_n n xs ≡ xs
  last_n_all n xs h = let none_left : length xs - n ≡ 0 = omega arith in rw none_left refl

  length-last_n : (n : ℕ) (xs : List S) → length (last_n n xs) ≤ n
  length-last_n n xs = omega (arith, length-drop (length xs - n) xs)

module _ (b : CircularBuffer) (laws : IsCircular b) (S : Type 0) where
  open laws use {capacity-push_back, elements-push_back, capacity-create, elements-create}

  run_log-due :
      (l : LogType) (s : S) (ss : List S) (x : b.Buffer S) (k : ℕ)
      → leb l.resolution (suc k) ≡ true
      → run_log b S l (s ∷ ss) (x, k) ≡ run_log b S l ss (b.push_back S s x, 0)
  unfolding run_log process_log
  run_log-due l s ss x k due = rw (due, run_log) refl

  run_log-early :
      (l : LogType) (s : S) (ss : List S) (x : b.Buffer S) (k : ℕ)
      → leb l.resolution (suc k) ≡ false
      → run_log b S l (s ∷ ss) (x, k) ≡ run_log b S l ss (x, suc k)
  unfolding run_log process_log
  run_log-early l s ss x k early = rw (early, run_log) refl

  grown :
      (s : S) (later : List S) (x : b.Buffer S)
      → last_n (b.capacity S (b.push_back S s x)) (b.elements S (b.push_back S s x) ++ later)
        ≡ last_n (b.capacity S x) (b.elements S x ++ s ∷ later)
  grown s later x =
      rw (elements-push_back S s x, capacity-push_back S s x)
        (last_n-append (b.capacity S x) (b.elements S x ++ (s ∷ [])) later
          ∙ ap (last_n (b.capacity S x)) (append_assoc (b.elements S x) (s ∷ []) later))

  run_log-elements :
      (l : LogType) (ss : List S) (x : b.Buffer S) (k : ℕ)
      → length (b.elements S x) ≤ b.capacity S x
      → (y : b.Buffer S) × (n : ℕ) × (run_log b S l ss (x, k) ≡ some (y, n))
        × (b.elements S y ≡ last_n (b.capacity S x) (b.elements S x ++ every l.resolution k ss))
  unfolding run_log every
  run_log-elements l [] x k fits =
      (x, k, refl, rw append-nil (sym (last_n_all (b.capacity S x) (b.elements S x) fits)))
  run_log-elements l (s ∷ ss) x k fits = elim (Bool-cases (leb l.resolution (suc k))) [
    | inl due ↦
        let pushed = elements-push_back S s x in
        let same = capacity-push_back S s x in
        let (y, n, e, h) =
          run_log-elements l ss (b.push_back S s x) 0
            (rw (pushed, same) (length-last_n (b.capacity S x) (b.elements S x ++ (s ∷ [])))) in
        (y, n, run_log-due l s ss x k due ∙ e, rw due (h ∙ grown s (every l.resolution 0 ss) x))
    | inr early ↦
        let (y, n, e, h) = run_log-elements l ss x (suc k) fits in
        (y, n, run_log-early l s ss x k early ∙ e, rw early h)
  ]

  fresh :
      (size : ℕ) (later : List S)
      → last_n (b.capacity S (b.create S size)) (b.elements S (b.create S size) ++ later)
        ≡ last_n size later
  fresh size later = rw (elements-create S size, capacity-create S size) refl

  -- A new log, polled with the means `ss`, never fails, and holds the mean of every
  -- `resolution`-th poll (of each poll, if that is 0), the newest ones up to its capacity.
  pub run_log_lem :
      (l : LogType) (ss : List S) (size : ℕ)
      → (y : b.Buffer S) × (n : ℕ) × (run_log b S l ss (b.create S size, 0) ≡ some (y, n))
        × (b.elements S y ≡ last_n size (every l.resolution 0 ss))
  run_log_lem l ss size =
      let (y, n, e, h) =
        run_log-elements l ss (b.create S size) 0 (rw (elements-create S size) (omega arith)) in
      (y, n, e, h ∙ fresh size (every l.resolution 0 ss))
