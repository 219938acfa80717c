-- ===== src/Monitor/Alerts.antt =====
-- From what is measured to the callbacks: the whole monitor with a predicate of one trigger.
use mathlib.Core.Option.{some-injective}
use zpr_res_monitor.Prelude.{
  ℕ, ◌<◌, ◌≡◌, refl, sym, ◌∙◌, ap, Bool, true, some, List, [], ◌∷◌, ◌++◌, map,
}
use zpr_res_monitor.Double.{Double}
use zpr_res_monitor.Config.Types.{TriggerType, LogType}
use zpr_res_monitor.Sampling.Buffer.{CircularBuffer, IsCircular}
use zpr_res_monitor.Sampling.Triggers.{Call, TriggerStates, initialize_triggers, process_triggers}
use zpr_res_monitor.Sampling.Triggers
use zpr_res_monitor.Sampling.Triggers.Streak.{alarms}
use zpr_res_monitor.Sampling.Triggers.Table.{all_measurable, calls_of, calls_of-append}
use zpr_res_monitor.Sampling.Triggers.History.{contains, run_polls, history, run_polls-alarms}
use zpr_res_monitor.Sampling.Manager.{Reading, new_manager}
use zpr_res_monitor.Sampling.Manager.Safety.{IsSafe, sample_of, poll-IsSafe}
use zpr_res_monitor.Sampling.Manager.Polling.{new_manager-IsSafe}
use zpr_res_monitor.Engine.{Registry, Store}
use zpr_res_monitor.Engine.Subscriber.{notices, IsSubscribed, deliver-IsSubscribed}
use zpr_res_monitor.Monitor.{Monitor, round, run_rounds}

module _ {C : Type 0} (c : C) (t : TriggerType) (i : ℕ) where
  notices-append :
      (xs ys : List Call) → notices c t i (xs ++ ys) ≡ notices c t i xs ++ notices c t i ys
  notices-append [] ys = refl
  notices-append (Triggers.activate u ∷ xs) ys = ap (◌∷◌ c) (notices-append xs ys)
  notices-append (Triggers.deactivate u ∷ xs) ys = notices-append xs ys

module _ {W : Type 0} ⦃d : Double W⦄ where
  run_polls_step :
      (r : Triggers.Sample W) (rs : List (Triggers.Sample W)) (m : TriggerStates)
      {m' m'' : TriggerStates} {calls later : List Call}
      → process_triggers r m ≡ some (m', calls)
      → run_polls rs m' ≡ some (m'', later)
      → run_polls (r ∷ rs) m ≡ some (m'', calls ++ later)
  unfolding run_polls
  run_polls_step r rs m e f = rw (e, run_polls) (rw f refl)

module _ (b : CircularBuffer) {W C : Type 0} ⦃d : Double W⦄ (laws : IsCircular b) (c : C)
    (t : TriggerType) (i : ℕ) where
  round-IsSubscribed :
      (r : Reading W) (s : Monitor b W C)
      → IsSafe b s.manager
      → IsSubscribed c t i s.registry s.store
      → (s' : Monitor b W C) × (calls : List Call) × (round b r s
          ≡ some (s', notices c t i (calls_of t calls)))
        × (process_triggers (sample_of b r) s.manager.trigger_states
            ≡ some (s'.manager.trigger_states, calls))
        × IsSafe b s'.manager
        × IsSubscribed c t i s'.registry s'.store
  unfolding round
  round-IsSubscribed r s v sub =
      let (m, calls, e, p, v') = poll-IsSafe b laws r s.manager v in
      let (registry, store, f, sub') = deliver-IsSubscribed c t i calls s.registry s.store sub in
      (
        record { manager = m; registry = registry; store = store },
        calls,
        rw (e, round) (rw f refl),
        p,
        v',
        sub',
      )

  run_rounds-IsSubscribed :
      (rs : List (Reading W)) (s : Monitor b W C)
      → IsSafe b s.manager
      → IsSubscribed c t i s.registry s.store
      → (s' : Monitor b W C) × (calls : List Call) × (run_rounds b rs s
          ≡ some (s', notices c t i (calls_of t calls)))
        × (run_polls (map (sample_of b) rs) s.manager.trigger_states
            ≡ some (s'.manager.trigger_states, calls))
  unfolding run_rounds run_polls
  run_rounds-IsSubscribed [] s v sub = (s, [], refl, refl)
  run_rounds-IsSubscribed (r ∷ rs) s v sub =
      let (s1, calls, e, p, v', sub') = round-IsSubscribed r s v sub in
      let (s2, later, f, q) = run_rounds-IsSubscribed rs s1 v' sub' in
      let joined : notices c t i (calls_of t (calls ++ later))
          ≡ notices c t i (calls_of t calls) ++ notices c t i (calls_of t later) =
        ap (notices c t i) (calls_of-append t calls later)
        ∙ notices-append c t i (calls_of t calls) (calls_of t later) in
      (
        s2,
        calls ++ later,
        rw (e, run_rounds) (rw (f, joined) refl),
        run_polls_step (sample_of b r) (map (sample_of b) rs) s.manager.trigger_states p q,
      )

  -- Let the engine hold the predicate of one configured trigger with a positive duration and no
  -- other, and let all units fit their resources. Then over any rounds, whatever is read, nothing
  -- fails, and the predicate's callback is called exactly once for each time that the number of
  -- readings in a row that exceed the trigger comes to a positive multiple of its duration.
  pub run_rounds-alarms :
      (logs : List LogType) (triggers : List TriggerType) (registry : Registry) (store : Store C)
      (rs : List (Reading W))
      → all_measurable (initialize_triggers triggers) ≡ true
      → contains t triggers ≡ true
      → 0 < t.duration
      → IsSubscribed c t i registry store
      → (s' : Monitor b W C) × (bs : List Bool) × (run_rounds b rs
            (record { manager = new_manager b W logs triggers; registry = registry; store = store })
          ≡ some (s', notices c t i (alarms t 0 bs)))
        × (history (map (sample_of b) rs) t ≡ some bs)
  unfolding new_manager
  run_rounds-alarms logs triggers registry store rs u h pos sub =
      let start : Monitor b W C = record {
        manager = new_manager b W logs triggers;
        registry = registry;
        store = store;
      } in
      let (s', calls, e, p) =
        run_rounds-IsSubscribed rs start (new_manager-IsSafe b laws logs triggers u) sub in
      let (r, bs, q, a, _, spec) = run_polls-alarms triggers t (map (sample_of b) rs) u h pos in
      let same : (s'.manager.trigger_states, calls) ≡ r = some-injective _ _ (sym p ∙ q) in
      let own : calls_of t calls ≡ alarms t 0 bs = ap (λ x. calls_of t x.1) same ∙ spec in
      (s', bs, e ∙ ap (λ x. some (s', notices c t i x)) own, a)
