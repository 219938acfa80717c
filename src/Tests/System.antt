-- ===== src/Tests/System.antt =====
-- A user subscribes and then changes the address.
use zpr_res_monitor.Prelude.{ℕ, ◌≡◌, refl, true, false, some, List, [], ◌∷◌, Text, codes}
use zpr_res_monitor.Predicate.{element}
use zpr_res_monitor.Sampling.Buffer.{list_buffer, list_buffer-IsCircular}
use zpr_res_monitor.Web.{Field, Session, notification, trigger_choose, set_email}
use zpr_res_monitor.System.{System, Connection, started, subscribed, email_set, Run, begun, went_on}
use zpr_res_monitor.System.Soundness.{Held, saved, new_subscription}
use zpr_res_monitor.System.Runs.{Run-Held}
use zpr_res_monitor.Mail.Commands.{keep}
use zpr_res_monitor.Tests.Mail.{network, hide}
use zpr_res_monitor.Tests.Numbers.{whole}
use zpr_res_monitor.Tests.Data.{busy_cpu, all_triggers, all_logs}
use zpr_res_monitor.Tests.Engine.{table-measurable}

abbrev new_system : System list_buffer ℕ
new_system = started list_buffer ℕ all_logs all_triggers

abbrev one_choice : List Field
one_choice = (codes "trigger0", codes "0") ∷ []

abbrev subscribed_session : Session
subscribed_session = saved (element busy_cpu) new_system.session

abbrev subscribed_system : System list_buffer ℕ
subscribed_system = record new_system { session = subscribed_session }

one_choice_saved :
    trigger_choose all_triggers one_choice new_system.session
    ≡ some (codes "Your subscription has been saved!", subscribed_session)
unfolding trigger_choose started saved new_subscription zpr_res_monitor.Lexer.State.digits_value
one_choice_saved = refl

subscribed-Run : Run list_buffer all_logs all_triggers new_system subscribed_system
subscribed-Run = went_on new_system new_system subscribed_system [] (begun new_system) (
    subscribed new_system one_choice (codes "Your subscription has been saved!") subscribed_session
      one_choice_saved)

-- Each mail is kept as text.
abbrev pub mails : ℕ → Connection
mails n = record {
  Socket = Text;
  write = keep;
  base64 = hide;
  network = network;
  has_error = false;
  socket = [];
}

abbrev other_user : List Field
other_user = (codes "name", codes "Ann") ∷ (codes "email", codes "ann@b.c") ∷ []

abbrev later_session : Session
later_session = record subscribed_session {
  user_name = codes " Ann";
  user_email = codes " ann@b.c";
}

abbrev later_system : System list_buffer ℕ
later_system = record subscribed_system { session = later_session }

other_user_set : set_email other_user subscribed_session ≡ some (true, later_session)
unfolding set_email started saved new_subscription
other_user_set = refl

later-Run : Run list_buffer all_logs all_triggers subscribed_system later_system
later-Run =
    went_on subscribed_system subscribed_system later_system [] (begun subscribed_system)
      (email_set subscribed_system other_user true later_session other_user_set)

subscription-Held :
    Held list_buffer 0
      (element busy_cpu)
      (some (notification [] [] (element busy_cpu)))
      subscribed_system
unfolding started saved new_subscription
subscription-Held = (new_subscription (element busy_cpu) new_system.session, refl, refl, refl)

Run-Held_example :
    Held list_buffer 0
      (element busy_cpu)
      (some (notification [] [] (element busy_cpu)))
      later_system
Run-Held_example =
    Run-Held list_buffer list_buffer-IsCircular all_logs all_triggers subscribed_system later_system
      0 (element busy_cpu) (some (notification [] [] (element busy_cpu))) table-measurable
      subscribed-Run later-Run subscription-Held

abbrev saved_text : Text
saved_text = codes "Your subscription has been saved!"
