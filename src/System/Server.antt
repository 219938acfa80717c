-- ===== src/System/Server.antt =====
-- The resources of the server in src/main.cpp, with the text of their responses.
use zpr_res_monitor.Prelude.{
  if◌then◌else◌, Bool, ◌≡◌, true, false, Option, none, some, List, Text, codes,
}
use zpr_res_monitor.Double.{Double}
use zpr_res_monitor.Config.Types.{TriggerType, LogType}
use zpr_res_monitor.Sampling.Buffer.{CircularBuffer}
use zpr_res_monitor.Web.{Field, trigger_choose, set_email, getlogs}
use zpr_res_monitor.Web.Page.{write_html, respond}
use zpr_res_monitor.System.{System}

-- A GET of "^/getlogs$", of "^/trigger_choose$", of "^/set_email", and of anything else.
pub data Request : Type 0 where
  get_logs choose_trigger enter_email : List Field → Request
  anything_else : Request

module _ (b : CircularBuffer) {W : Type 0} ⦃d : Double W⦄ (logs : List LogType)
    (triggers : List TriggerType) where
  -- The response and the state behind it; `none` is a handler that throws.
  unfoldable pub serve : Request → System b W → Option (Text × System b W)
  unfolding getlogs trigger_choose set_email write_html respond
  serve (get_logs fs) s = elim (getlogs b logs s.manager fs) [
    | none ↦ none
    | some resp ↦ some (respond resp, s)
  ]
  serve (choose_trigger fs) s = elim (trigger_choose triggers fs s.session) [
    | none ↦ none
    | some (resp, session) ↦ some (respond resp, record s { session = session })
  ]
  serve (enter_email fs) s = elim (set_email fs s.session) [
    | none ↦ none
    | some (false, session) ↦
        some (respond (codes "Wrong name or email!"), record s { session = session })
    | some (true, session) ↦
        some (respond (write_html triggers logs), record s { session = session })
  ]
  serve anything_else s = some (respond (write_html triggers logs), s)

  -- A handler that throws changes nothing.
  abbrev after_answer : Option (Text × System b W) → System b W → System b W
  after_answer none s = s
  after_answer (some (text, s')) s = s'

  unfoldable pub after_request : Request → System b W → System b W
  unfolding serve
  after_request q s = after_answer (serve q s) s

  -- What a request asks for: the text in the body of the answer, and the state behind it.
  pub Answers : Request → System b W → Text → System b W → Type 0
  Answers (get_logs fs) s resp s' = (getlogs b logs s.manager fs ≡ some resp) × (s' ≡ s)
  Answers (choose_trigger fs) s resp s' =
      (trigger_choose triggers fs s.session ≡ some (resp, s'.session)) × (s'.manager ≡ s.manager)
  Answers (enter_email fs) s resp s' =
      (named : Bool) × (set_email fs s.session ≡ some (named, s'.session))
      × (resp ≡ (if named then write_html triggers logs else codes "Wrong name or email!"))
      × (s'.manager ≡ s.manager)
  Answers anything_else s resp s' = (resp ≡ write_html triggers logs) × (s' ≡ s)

  -- An answer is what was asked for, in a response.
  IsAnswer : Request → System b W → Option (Text × System b W) → Type 0
  IsAnswer q s none = Unit
  IsAnswer q s (some (text, s')) = (resp : Text) × (text ≡ respond resp) × Answers q s resp s'
