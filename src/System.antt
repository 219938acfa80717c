-- ===== src/System.antt =====
-- The running program of src/main.cpp: the poller's rounds and the requests of the web server, one
-- after the other, on the engine that they share. The server answers a handler that throws with an
-- error and goes on. An exception out of a callback leaves the poller's thread and ends the process.
pub mod Callbacks
pub mod Soundness
pub mod Runs
pub mod Boot
pub mod Server
use zpr_res_monitor.Prelude.{
  Bool, true, false, if◌then◌else◌, Text, ℕ, zero, suc, ◌≡◌, Option, none, some, List, [], ◌∷◌,
}
use zpr_res_monitor.Mail.{Network}
use zpr_res_monitor.Mail.Notification.{send_notification}
use zpr_res_monitor.Double.{Double}
use zpr_res_monitor.Config.Types.{TriggerType, LogType}
use zpr_res_monitor.Sampling.Buffer.{CircularBuffer}
use zpr_res_monitor.Sampling.Manager.{Reading, Manager, new_manager, poll}
use zpr_res_monitor.Engine.{deliver}
use zpr_res_monitor.Web.{Field, Mail, Session, trigger_choose, set_email, getlogs}

-- The manager, and what the handlers share, the engine included.
pub record System (b : CircularBuffer) (W : Type 0) : Type 0 where
  pub manager : Manager b W
  pub session : Session

module _ (b : CircularBuffer) (W : Type 0) where
  -- `main` and the start of the server: no predicate, no user.
  unfoldable pub started : List LogType → List TriggerType → System b W
  unfolding new_manager
  started logs triggers = record {
    manager = new_manager b W logs triggers;
    session = record {
      user_name = [];
      user_email = [];
      next_identity = 0;
      registry = [];
      store = λ i. none;
    };
  }

-- What a mail finds when it is sent: the network, its new socket and what the memory of its client
-- holds.
pub record Connection : Type 1 where
  pub Socket : Type 0
  pub write : Text → Socket → Option Socket
  pub base64 : Text → Text
  pub network : Network
  pub has_error : Bool
  pub socket : Socket

-- Whether `sendMailFunction` returns: `write` may throw.
unfoldable pub sends : Connection → Mail → Bool
unfolding send_notification
sends c m = elim (send_notification c.write c.base64 c.network m c.has_error c.socket) [
  | none ↦ false
  | some answer ↦ true
]

-- The callbacks of a round: all return, one throws, or one is an empty `std::function`.
pub data Called : Type 0 where
  all_returned : Called
  threw : ℕ → Mail → Called
  empty_function : Called

unfoldable pub call_all : (ℕ → Connection) → ℕ → List (Option Mail) → Called
unfolding sends
call_all mails n [] = all_returned
call_all mails n (none ∷ fired) = empty_function
call_all mails n (some m ∷ fired) =
    let rest = call_all mails (suc n) fired in if sends (mails n) m then rest else threw n m

-- How a round ends: with a new state and the callbacks that were called, by the exception of a mail,
-- or by an abort, an undefined read or any other exception.
pub data Round (b : CircularBuffer) (W : Type 0) : Type 0 where
  completed : System b W → List (Option Mail) → Round b W
  mail_threw : ℕ → Mail → Round b W
  failed : Round b W

module _ (b : CircularBuffer) {W : Type 0} ⦃d : Double W⦄ where
  -- A round of the poller with the engine's answers, on what it shares with the handlers, and with the
  -- callbacks that are called in it. They read nothing that the round changes, and so stand behind it.
  unfoldable pub system_round : (ℕ → Connection) → Reading W → System b W → Round b W
  unfolding poll deliver call_all
  system_round mails r s = elim (poll b r s.manager) [
    | none ↦ failed
    | some (m, calls) ↦ elim (deliver calls s.session.registry s.session.store) [
      | none ↦ failed
      | some (registry, store, fired) ↦ elim (call_all mails 0 fired) [
        | all_returned ↦
            completed
              (record {
                manager = m;
                session = record s.session { registry = registry; store = store };
              })
              fired
        | threw n mail ↦ mail_threw n mail
        | empty_function ↦ failed
      ]
    ]
  ]

module _ (b : CircularBuffer) {W : Type 0} ⦃d : Double W⦄ (logs : List LogType)
    (triggers : List TriggerType) where
  -- One thing that happens, with the callbacks that are called in it.
  pub data Step : System b W → List (Option Mail) → System b W → Type 1 where
    polled :
        (s s' : System b W) (mails : ℕ → Connection) (r : Reading W) (fired : List (Option Mail))
        → system_round b mails r s ≡ completed s' fired
        → Step s fired s'
    subscribed :
        (s : System b W) (fs : List Field) (answer : Text) (session : Session)
        → trigger_choose triggers fs s.session ≡ some (answer, session)
        → Step s [] (record s { session = session })
    choice_threw :
        (s : System b W) (fs : List Field)
        → trigger_choose triggers fs s.session ≡ none
        → Step s [] s
    email_set :
        (s : System b W) (fs : List Field) (answer : Bool) (session : Session)
        → set_email fs s.session ≡ some (answer, session)
        → Step s [] (record s { session = session })
    email_threw : (s : System b W) (fs : List Field) → set_email fs s.session ≡ none → Step s [] s
    logs_shown :
        (s : System b W) (fs : List Field) (answer : Option Text)
        → getlogs b logs s.manager fs ≡ answer
        → Step s [] s
    page_shown : (s : System b W) → Step s [] s

  -- Any number of steps.
  pub data Run : System b W → System b W → Type 1 where
    begun : (s : System b W) → Run s s
    went_on :
        (s1 s2 s3 : System b W) (fired : List (Option Mail))
        → Run s1 s2
        → Step s2 fired s3
        → Run s1 s3
