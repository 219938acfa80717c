-- ===== src/Sampling/Logs/Shared.antt =====
-- Which buffer a log type finds, since log types are told apart by resource and resolution alone.
use zpr_res_monitor.Prelude.{
  All, ◌∙◌, ℕ, ◌≤◌, ◌≡◌, refl, true, false, some, List, [], ◌∷◌, ◌++◌, max, if◌then◌else◌, arith,
  lookup, insert, Bool-cases, inl, inr,
}
use zpr_res_monitor.Config.Types.{LogType, Resource, resource_eq, log_eq}
use zpr_res_monitor.Sampling.Buffer.{CircularBuffer}
use zpr_res_monitor.Sampling.Logs.{
  LogMap, log_size, initialize_logs_from, initialize_logs, get_log, max_resolution,
  max_resolution_from,
}

-- Log types that are the same key find the same in every map.
lookup-log_eq {ℓ} :
    {V : Type ℓ} (k l : LogType) (m : List (LogType × V))
    → log_eq k l ≡ true
    → lookup log_eq k m ≡ lookup log_eq l m
unfolding log_eq
lookup-log_eq k l [] h = refl
lookup-log_eq k l ((j, v) ∷ m) h = ground (arith, lookup-log_eq k l m)

log_eq_congr : (j l k : LogType) → log_eq j l ≡ true → log_eq j k ≡ log_eq l k
unfolding log_eq
log_eq_congr j l k h = ground arith

log_eq_apart : (j l k : LogType) → log_eq j l ≡ false → log_eq j k ≡ true → log_eq l k ≡ false
unfolding log_eq
log_eq_apart j l k h e = ground arith

lookup-insert {ℓ} :
    {V : Type ℓ} (k l : LogType) (v : V) (m : List (LogType × V))
    → lookup log_eq k (insert log_eq l v m) ≡ (if log_eq l k then some v else lookup log_eq k m)
lookup-insert k l v [] = refl
lookup-insert k l v ((j, w) ∷ m) = elim (Bool-cases (log_eq j l)) [
  | inl jl ↦ let same = log_eq_congr j l k jl in ground arith
  | inr jl ↦ elim (Bool-cases (log_eq j k)) [
    | inl jk ↦ let lk = log_eq_apart j l k jl jk in ground arith
    | inr jk ↦ ground (arith, lookup-insert k l v m)
  ]
]

lookup-insert-other {ℓ} :
    {V : Type ℓ} (k l : LogType) (v : V) (m : List (LogType × V))
    → log_eq l k ≡ false
    → lookup log_eq k (insert log_eq l v m) ≡ lookup log_eq k m
lookup-insert-other k l v m h = lookup-insert k l v m ∙ rw h refl

module _ (b : CircularBuffer) (S : Type 0) where
  -- Log types that are other keys leave an entry alone.
  initialize_logs_from-others :
      (r : Resource) (ls : List LogType) (m : LogMap b S) (k : LogType)
      → All (λ j. log_eq j k ≡ false) ls
      → lookup log_eq k (initialize_logs_from b S r m ls) ≡ lookup log_eq k m
  unfolding initialize_logs_from
  initialize_logs_from-others r [] m k h = refl
  initialize_logs_from-others r (j ∷ ls) m k h = elim (Bool-cases (resource_eq j.resource r)) [
    | inl mine ↦ rw mine (
        initialize_logs_from-others r ls (insert log_eq j (b.create S (log_size j), 0) m) k h.1
        ∙ lookup-insert-other k j (b.create S (log_size j), 0) m h.0)
    | inr other ↦ rw other (initialize_logs_from-others r ls m k h.1)
  ]

  get_log-lookup :
      (m m' : LogMap b S) (k : LogType)
      → lookup log_eq k m ≡ lookup log_eq k m'
      → get_log b S k m ≡ get_log b S k m'
  unfolding get_log
  get_log-lookup m m' k h = rw (h, get_log) refl

  initialize_logs_from-last :
      (r : Resource) (ls ms : List LogType) (m : LogMap b S) (l k : LogType)
      → l.resource ≡ r
      → log_eq l k ≡ true
      → All (λ j. log_eq j k ≡ false) ms
      → get_log b S k (initialize_logs_from b S r m (ls ++ (l ∷ ms)))
        ≡ some (b.create S (log_size l))
  unfolding get_log initialize_logs_from
  initialize_logs_from-last r [] ms m l k h e others =
      let mine : resource_eq l.resource r ≡ true = ground arith in
      let m' = insert log_eq l (b.create S (log_size l), 0) m in
      let start : get_log b S k m' ≡ some (b.create S (log_size l)) =
        ground (arith, lookup-insert k l (b.create S (log_size l), 0) m) in
      let kept : lookup log_eq k (initialize_logs_from b S r m (l ∷ ms)) ≡ lookup log_eq k m' =
        rw mine (initialize_logs_from-others r ms m' k others) in
      get_log-lookup (initialize_logs_from b S r m (l ∷ ms)) m' k kept ∙ start
  initialize_logs_from-last r (j ∷ ls) ms m l k h e others =
      initialize_logs_from-last r ls ms
        (if resource_eq j.resource r then insert log_eq j (b.create S (log_size j), 0) m else m) l k
        h e others

  -- Among the log types of one resource and resolution the last one decides, whatever others stand
  -- between and behind them: all find the one buffer that was made for its duration, empty at the start.
  pub get_log-last :
      (r : Resource) (ls ms : List LogType) (l k : LogType)
      → l.resource ≡ r
      → log_eq l k ≡ true
      → All (λ j. log_eq j k ≡ false) ms
      → get_log b S k (initialize_logs b S r (ls ++ (l ∷ ms))) ≡ some (b.create S (log_size l))
  unfolding initialize_logs
  get_log-last r ls ms l k h e others = initialize_logs_from-last r ls ms [] l k h e others

pub max_resolution_from-le :
    (r : Resource) (best : ℕ) (ls : List LogType) → best ≤ max_resolution_from r best ls
unfolding max_resolution_from
max_resolution_from-le r best [] = omega arith
max_resolution_from-le r best (l ∷ ls) =
    ground
      (arith, max_resolution_from-le r (max best l.resolution) ls, max_resolution_from-le r best ls)

max_resolution_from-ge :
    (r : Resource) (best : ℕ) (ls ls' : List LogType) (l : LogType)
    → l.resource ≡ r
    → l.resolution ≤ max_resolution_from r best (ls ++ (l ∷ ls'))
unfolding max_resolution_from
max_resolution_from-ge r best [] ls' l h =
    ground (arith, max_resolution_from-le r (max best l.resolution) ls')
max_resolution_from-ge r best (j ∷ ls) ls' l h =
    max_resolution_from-ge r (if resource_eq j.resource r then max best j.resolution else best) ls
      ls' l h

-- The samples kept of a resource are enough for the mean of each of its logs.
pub max_resolution-le :
    (r : Resource) (ls ls' : List LogType) (l : LogType)
    → l.resource ≡ r
    → (l.resolution ≤ max_resolution r (ls ++ (l ∷ ls'))) × (1 ≤ max_resolution r (ls ++ (l ∷ ls')))
unfolding max_resolution
max_resolution-le r ls ls' l h =
    (max_resolution_from-ge r 1 ls ls' l h, max_resolution_from-le r 1 (ls ++ (l ∷ ls')))
