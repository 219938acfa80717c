-- ===== src/Sampling/Thread.antt =====
-- `startSampling`, `stopSampling` and the destructor, with the poller's thread beside them.
use zpr_res_monitor.Prelude.{
  ℕ, ◌≡◌, refl, ◌∙◌, Bool, true, false, Option, none, some, List, [], ◌∷◌, arith, ◌++◌, ◌≢◌,
  replicate, zero, suc,
}

-- `pollerThread`: no thread, one that runs `pollingFunction`, or one whose function has returned.
-- Only the first is not joinable.
pub data PollerThread : Type 0 where
  no_thread polling returned : PollerThread

pub record Control : Type 0 where
  pub is_sampling : Bool
  pub poller_thread : PollerThread

pub data Event : Type 0 where
  -- The owner's calls.
  start_sampling stop_sampling : Event
  -- `afterPollCallback` clears `isSampling`, and the poller's function returns.
  self_stop : Event
  -- `waitForEndOfSampling` of the mock of the tests: it joins the thread.
  wait_for_end : Event

-- How an event ends. `terminated` is `std::terminate`, `threw` the `std::system_error` of a join with
-- no thread. `blocked` is a join of a polling thread: it returns only once the poller has, which is the
-- order `self_stop`, `wait_for_end`.
pub data Outcome : Type 0 where
  went : Control → Outcome
  terminated threw blocked : Outcome

abbrev pub new_control : Control
new_control = record { is_sampling = false; poller_thread = no_thread }

-- `none` is `std::terminate`: a thread is assigned over, or destroyed, while joinable.
unfoldable pub assign_thread : PollerThread → Option PollerThread
assign_thread no_thread = some polling
assign_thread polling = none
assign_thread returned = none

unfoldable pub start : Control → Option Control
unfolding assign_thread
start c = elim c.is_sampling [
  | true ↦ some c
  | false ↦ elim (assign_thread c.poller_thread) [
    | none ↦ none
    | some t ↦ some (record { is_sampling = true; poller_thread = t })
  ]
]

-- The poller leaves its loop once `isSampling` is cleared, so `join` returns.
unfoldable pub stop : Control → Control
stop c = elim c.is_sampling [
  | false ↦ c
  | true ↦ record { is_sampling = false; poller_thread = no_thread }
]

unfoldable pub poller_returns : Control → Control
poller_returns c = elim c.poller_thread [
  | polling ↦ record { is_sampling = false; poller_thread = returned }
  | _ ↦ c
]

unfoldable pub wait_for_end_of_sampling : Control → Outcome
wait_for_end_of_sampling c = elim c.poller_thread [
  | no_thread ↦ threw
  | polling ↦ blocked
  | returned ↦ went (record c { poller_thread = no_thread })
]

unfoldable pub control_step : Event → Control → Outcome
unfolding start stop poller_returns wait_for_end_of_sampling
control_step start_sampling c = elim (start c) [ none ↦ terminated | some c' ↦ went c' ]
control_step stop_sampling c = went (stop c)
control_step self_stop c = went (poller_returns c)
control_step wait_for_end c = wait_for_end_of_sampling c

unfoldable pub run_events : List Event → Control → Outcome
unfolding control_step
run_events [] c = went c
run_events (e ∷ es) c = elim (control_step e c) [
  | went c' ↦ run_events es c'
  | terminated ↦ terminated
  | threw ↦ threw
  | blocked ↦ blocked
]

-- The destructor stops, and then the thread object is destroyed.
unfoldable pub destroy : Control → Option Control
unfolding stop
destroy c = let c' = stop c in elim c'.poller_thread [ no_thread ↦ some c' | _ ↦ none ]

-- What an owner does with the manager: a start, a stop, or a start whose polls are waited for until
-- the poller has cleared `isSampling` by itself, as in the tests of the manager.
pub data Use : Type 0 where
  starts stops polls_to_end : Use

abbrev pub events_of : Use → List Event
events_of starts = start_sampling ∷ []
events_of stops = stop_sampling ∷ []
events_of polls_to_end = start_sampling ∷ self_stop ∷ wait_for_end ∷ []

abbrev pub events_of_all : List Use → List Event
events_of_all [] = []
events_of_all (u ∷ us) = events_of u ++ events_of_all us

-- The flag is set exactly while a thread polls, and no thread has returned unjoined.
pub record IsOrderly (c : Control) : Type 0 where
  pub none_returned : c.poller_thread ≢ returned
  pub sampling_polls : c.is_sampling ≡ true → c.poller_thread ≡ polling
  pub polling_samples : c.poller_thread ≡ polling → c.is_sampling ≡ true

abbrev returned_control : Control
returned_control = record { is_sampling = false; poller_thread = returned }

self_stop-returned :
    (c : Control) → c.poller_thread ≡ polling → control_step self_stop c ≡ went returned_control
unfolding control_step
self_stop-returned c h = ground arith

run_events-cons :
    (e : Event) (es : List Event) (c : Control) {c' : Control}
    → control_step e c ≡ went c'
    → run_events (e ∷ es) c ≡ run_events es c'
unfolding run_events
run_events-cons e es c h = ground arith

run_events-returned :
    (n : ℕ) → run_events (replicate n stop_sampling) returned_control ≡ went returned_control
unfolding run_events
run_events-returned zero = refl
run_events-returned (suc n) = run_events-returned n

-- If the poller clears `isSampling` itself and its thread is not joined, but at most stopped any number
-- of times, then both the next start and the destruction end in `std::terminate`.
pub self_stop_terminates :
    (n : ℕ) (c : Control)
    → c.poller_thread ≡ polling
    → (c' : Control) × (run_events (self_stop ∷ replicate n stop_sampling) c ≡ went c')
      × (start c' ≡ none)
      × (destroy c' ≡ none)
unfolding destroy start
self_stop_terminates n c h = (
  returned_control,
  run_events-cons self_stop _ c (self_stop-returned c h) ∙ run_events-returned n,
  refl,
  refl,
)
