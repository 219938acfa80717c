-- ===== src/Tests/Mail.antt =====
-- A mail client on a socket that keeps what is written, in place of base64 the plain text.
use zpr_res_monitor.Prelude.{◌≡◌, refl, true, false, some, [], ◌∷◌, ◌++◌, Text, codes, map}
use zpr_res_monitor.Mail.{Network, SmtpClient, new_client, without_white_space}
use zpr_res_monitor.Mail.Commands.{keep, line_feeds, IsOneLine}
use zpr_res_monitor.Mail.Notification.{send_notification, send_notification-commands}
use zpr_res_monitor.Web.{notification}
use zpr_res_monitor.Predicate.{element}
use zpr_res_monitor.Tests.Data.{busy_cpu}

abbrev pub network : Network
network = record { resolve_error = false; connect_error = false }

abbrev unreachable : Network
unreachable = record { resolve_error = false; connect_error = true }

-- A text in place of base64: a letter for each character.
abbrev pub hide : Text → Text
hide cs = map (λ c. 88) cs

hide-IsOneLine : (t : Text) → IsOneLine (hide t)
unfolding line_feeds
hide-IsOneLine [] = refl
hide-IsOneLine (c ∷ cs) = hide-IsOneLine cs

abbrev client : SmtpClient Text
unfolding new_client
client = new_client (codes "smtp.host") (codes "me") (codes "secret") true []

-- The address holds a line break and a command behind it.
abbrev address : Text
address = codes "a@b.c>\r\nDATA"

-- The client once a mail could not be sent.
abbrev after : SmtpClient Text
unfolding client new_client without_white_space
after = record client {
  from = codes "me@b.c";
  to = codes "a@b.c>DATA" ∷ [];
  subject = codes "hi";
  message = codes "text";
  resolving = false;
  has_error = true;
}

send_notification-commands_example :
    (first rest : Text) × (c' : SmtpClient Text) × (send_notification keep hide network
        (notification (codes "Ann") address (element busy_cpu))
        true
        []
      ≡ some (true, c'))
    × (c'.socket ≡ first ++ (codes "DATA\r\n" ++ rest))
    × (line_feeds first ≡ 6)
send_notification-commands_example =
    send_notification-commands hide network (codes "Ann") address (element busy_cpu) true refl refl
      hide-IsOneLine
