-- ===== src/Mail/Replies.antt =====
-- What `sendEmail` answers, on any socket.
use zpr_res_monitor.Prelude.{Bool, Option, none, some, map, List, Text}
use zpr_res_monitor.Mail.{without_white_space, SmtpClient}

-- The client once `sendEmail` has stored its arguments.
abbrev stored :
    {Socket : Type 0} → Text → List Text → Text → Text → SmtpClient Socket → SmtpClient Socket
stored from to subject message c = record c {
  from = without_white_space from;
  to = map without_white_space to;
  subject = subject;
  message = message;
}

abbrev reply : {Socket : Type 0} → Option (SmtpClient Socket) → Option (Bool × SmtpClient Socket)
reply none = none
reply (some c) = some (c.has_error, c)
