-- ===== src/Mail.antt =====
-- include/smtp_client.hpp: SMTPClient. The socket, `boost::asio::write` on it, and the base64 text of
-- boost are parameters; `none` is an exception out of `write`. What the server answers is only
-- printed, and is left out.
pub mod Commands
pub mod Replies
pub mod Notification
use zpr_res_monitor.Prelude.{
  ℕ, Bool, true, false, not, ◌||◌, ◌&&◌, ◌==◌, leb, if◌then◌else◌, Option, none, some, List, [],
  ◌∷◌, ◌++◌, map, Text, codes,
}

-- `isspace` in the "C" locale.
abbrev pub is_white_space : ℕ → Bool
is_white_space c = c == 32 || leb 9 c && leb c 13

-- `erase` of what `remove_if` moved behind the end.
unfoldable pub without_white_space : Text → Text
without_white_space [] = []
without_white_space (c ∷ cs) =
    let rest = without_white_space cs in if is_white_space c then rest else c ∷ rest

-- The errors that the network reports to the two handlers.
pub record Network : Type 0 where
  pub resolve_error : Bool
  pub connect_error : Bool

-- The members. `has_error` is what the memory holds until it is set: no constructor sets it.
-- `resolving` says that the handler of the resolution, which the constructor starts, has not run yet.
pub record SmtpClient (Socket : Type 0) : Type 0 where
  pub server : Text
  pub user_name : Text
  pub password : Text
  pub from : Text
  pub to : List Text
  pub subject : Text
  pub message : Text
  pub request : Text
  pub has_error : Bool
  pub resolving : Bool
  pub socket : Socket

module _ {Socket : Type 0} where
  -- The constructor, on memory that holds some `has_error`.
  unfoldable pub new_client : Text → Text → Text → Bool → Socket → SmtpClient Socket
  new_client server user_name password has_error socket = record {
    server = server;
    user_name = user_name;
    password = password;
    from = [];
    to = [];
    subject = [];
    message = [];
    request = [];
    has_error = has_error;
    resolving = true;
    socket = socket;
  }

abbrev pub recipient : Text → Text
recipient address = codes "RCPT TO: <" ++ address ++ codes ">"

-- What `handleConnect` writes, line by line.
unfoldable pub session_lines : {Socket : Type 0} → (Text → Text) → SmtpClient Socket → List Text
session_lines base64 c =
    (codes "EHLO " ++ c.server)
    ∷ codes "AUTH LOGIN"
    ∷ base64 c.user_name
    ∷ base64 c.password
    ∷ (codes "MAIL FROM: <" ++ c.from ++ codes ">")
    ∷ (map recipient c.to
        ++ (codes "DATA"
            ∷ (codes "SUBJECT: " ++ c.subject)
            ∷ (codes "From: <" ++ c.from ++ codes ">")
            ∷ []
            ∷ c.message
            ∷ codes "."
            ∷ []
            ∷ []))

module _ {Socket : Type 0} (write : Text → Socket → Option Socket) where
  -- `writeLine`: `write` sends all that the buffer holds and takes it out.
  unfoldable pub write_line : Text → SmtpClient Socket → Option (SmtpClient Socket)
  write_line line c = elim (write (c.request ++ (line ++ codes "\r\n")) c.socket) [
    | none ↦ none
    | some socket ↦ some (record c { request = []; socket = socket })
  ]

  unfoldable pub write_lines : List Text → SmtpClient Socket → Option (SmtpClient Socket)
  unfolding write_line
  write_lines [] c = some c
  write_lines (l ∷ ls) c = elim (write_line l c) [ none ↦ none | some c' ↦ write_lines ls c' ]

module _ {Socket : Type 0} (write : Text → Socket → Option Socket) (base64 : Text → Text) where
  unfoldable pub handle_connect : Bool → SmtpClient Socket → Option (SmtpClient Socket)
  unfolding write_lines session_lines
  handle_connect error c =
      if error
      then some (record c { has_error = true })
      else write_lines write (session_lines base64 c) c

  unfoldable pub handle_resolve : Network → SmtpClient Socket → Option (SmtpClient Socket)
  unfolding handle_connect
  handle_resolve n c =
      if n.resolve_error
      then some (record c { has_error = true })
      else handle_connect n.connect_error c

  -- `mIOService.run()` runs the handlers until there are none left.
  unfoldable pub run_service : Network → SmtpClient Socket → Option (SmtpClient Socket)
  unfolding handle_resolve
  run_service n c =
      if c.resolving then handle_resolve n (record c { resolving = false }) else some c

  -- `sendEmail`: what it returns, and the client.
  unfoldable pub send_email :
      Network
      → Text
      → List Text
      → Text
      → Text
      → SmtpClient Socket
      → Option (Bool × SmtpClient Socket)
  unfolding run_service without_white_space
  send_email n from to subject message c =
      elim (run_service n (record c {
        from = without_white_space from;
        to = map without_white_space to;
        subject = subject;
        message = message;
      })) [ none ↦ none | some c' ↦ some (c'.has_error, c') ]
