-- ===== src/Mail/Notification.antt =====
-- `sendMailFunction` of src/main.cpp: the mail of a fired predicate through a new SMTPClient.
use zpr_res_monitor.Prelude.{◌≡◌, refl, Bool, false, Option, some, [], ◌∷◌, ◌++◌, Text, codes}
use zpr_res_monitor.Predicate.{Kind}
use zpr_res_monitor.Web.{Mail, notification}
use zpr_res_monitor.Mail.{Network, SmtpClient, new_client, send_email}
use zpr_res_monitor.Mail.Commands.{keep, IsOneLine, line_feeds, send_email-commands}

module _ {Socket : Type 0} (write : Text → Socket → Option Socket) (base64 : Text → Text) where
  -- The memory of the new client holds some `has_error`, and its socket is a new one.
  unfoldable pub send_notification :
      Network → Mail → Bool → Socket → Option (Bool × SmtpClient Socket)
  unfolding new_client send_email
  send_notification n m has_error socket =
      send_email write base64 n (codes "zpr_resmonitor@wp.pl") (m.receiver ∷ [])
        (codes "ZPR Monitor trigger notification") m.body
        (new_client (codes "smtp.wp.pl") (codes "zpr_resmonitor@wp.pl") (codes "zprresmonitor!1")
          has_error socket)

-- Whatever name and address a user has entered, and whatever predicate fired, its notification puts
-- exactly six commands in front of `DATA`, where no error occurs and the base64 texts are single lines.
pub send_notification-commands :
    (base64 : Text → Text) (n : Network) (name email : Text) (k : Kind) (has_error : Bool)
    → n.resolve_error ≡ false
    → n.connect_error ≡ false
    → ((t : Text) → IsOneLine (base64 t))
    → (first rest : Text) × (c' : SmtpClient Text) × (send_notification keep base64 n
          (notification name email k)
          has_error
          []
        ≡ some (has_error, c'))
      × (c'.socket ≡ first ++ (codes "DATA\r\n" ++ rest))
      × (line_feeds first ≡ 6)
unfolding send_notification notification line_feeds
send_notification-commands base64 n name email k has_error a b coded =
    send_email-commands base64 (codes "smtp.wp.pl") (codes "zpr_resmonitor@wp.pl")
      (codes "zprresmonitor!1") (codes "zpr_resmonitor@wp.pl")
      (codes "ZPR Monitor trigger notification") (notification name email k).body (email ∷ [])
      has_error n a b refl coded
