-- ===== src/Monitor.antt =====
-- The whole monitor as `main` puts it together: the sampling manager whose calls the predicate engine
-- takes (`connectPredicateEngine`), round after round.
pub mod Alerts
pub mod Liveness
use zpr_res_monitor.Prelude.{◌≡◌, refl, true, Option, none, some, List, [], ◌∷◌, ◌++◌}
use zpr_res_monitor.Double.{Double}
use zpr_res_monitor.Config.Types.{TriggerType, LogType}
use zpr_res_monitor.Sampling.Buffer.{CircularBuffer, IsCircular}
use zpr_res_monitor.Sampling.Triggers.{initialize_triggers}
use zpr_res_monitor.Sampling.Triggers.Table.{all_measurable}
use zpr_res_monitor.Sampling.Manager.{Reading, Manager, new_manager, poll}
use zpr_res_monitor.Sampling.Manager.Safety.{IsSafe, poll-IsSafe}
use zpr_res_monitor.Sampling.Manager.Polling.{new_manager-IsSafe}
use zpr_res_monitor.Engine.{Registry, Store, deliver}
use zpr_res_monitor.Engine.Delivery.{AllValid, deliver_total}

module _ (b : CircularBuffer) (W C : Type 0) where
  pub record Monitor : Type 0 where
    pub manager : Manager b W
    pub registry : Registry
    pub store : Store C

module _ (b : CircularBuffer) {W C : Type 0} ⦃d : Double W⦄ where
  -- A round of polling with the engine's answers to its calls.
  unfoldable pub round : Reading W → Monitor b W C → Option (Monitor b W C × List C)
  unfolding poll deliver
  round r s = elim (poll b r s.manager) [
    | none ↦ none
    | some (m, calls) ↦ elim (deliver calls s.registry s.store) [
      | none ↦ none
      | some (registry, store, fired) ↦
          some (record { manager = m; registry = registry; store = store }, fired)
    ]
  ]

  unfoldable pub run_rounds : List (Reading W) → Monitor b W C → Option (Monitor b W C × List C)
  unfolding round
  run_rounds [] s = some (s, [])
  run_rounds (r ∷ rs) s = elim (round r s) [
    | none ↦ none
    | some (s', fired) ↦ elim (run_rounds rs s') [
      | none ↦ none
      | some (s'', later) ↦ some (s'', fired ++ later)
    ]
  ]

  module _ (laws : IsCircular b) where
    round-IsSafe :
        (r : Reading W) (s : Monitor b W C)
        → IsSafe b s.manager
        → AllValid s.store
        → (s' : Monitor b W C) × (fired : List C) × (round r s ≡ some (s', fired))
          × IsSafe b s'.manager
          × AllValid s'.store
    unfolding round
    round-IsSafe r s v all =
        let (m, calls, e, _, v') = poll-IsSafe b laws r s.manager v in
        let ((registry, store, fired), f, all') = deliver_total calls s.registry s.store all in
        (
          record { manager = m; registry = registry; store = store },
          fired,
          rw (e, round) (rw f refl),
          v',
          all',
        )

    run_rounds-IsSafe :
        (rs : List (Reading W)) (s : Monitor b W C)
        → IsSafe b s.manager
        → AllValid s.store
        → (s' : Monitor b W C) × (fired : List C) × (run_rounds rs s ≡ some (s', fired))
          × IsSafe b s'.manager
          × AllValid s'.store
    unfolding run_rounds
    run_rounds-IsSafe [] s v all = (s, [], refl, v, all)
    run_rounds-IsSafe (r ∷ rs) s v all =
        let (s', fired, e, v', all') = round-IsSafe r s v all in
        let (s'', later, f, v'', all'') = run_rounds-IsSafe rs s' v' all' in
        (s'', fired ++ later, rw (e, run_rounds) (rw f refl), v'', all'')

    -- A monitor made from a configuration whose triggers have units that their resources take, with
    -- an engine of valid predicates, comes through any rounds, whatever is read: nothing aborts, no
    -- empty buffer is read, no predicate throws, and both parts stay as they have to be.
    pub run_rounds-new_manager :
        (logs : List LogType) (triggers : List TriggerType) (registry : Registry) (store : Store C)
        (rs : List (Reading W))
        → all_measurable (initialize_triggers triggers) ≡ true
        → AllValid store
        → (s' : Monitor b W C) × (fired : List C) × (run_rounds rs (record {
          manager = new_manager b W logs triggers;
          registry = registry;
          store = store;
        })
            ≡ some (s', fired))
          × IsSafe b s'.manager
          × AllValid s'.store
    run_rounds-new_manager logs triggers registry store rs h all =
        run_rounds-IsSafe rs _ (new_manager-IsSafe b laws logs triggers h) all
