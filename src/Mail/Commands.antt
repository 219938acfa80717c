-- ===== src/Mail/Commands.antt =====
-- What SMTPClient sends to a socket that keeps all that is written to it.
use mathlib.Core.List.{append_assoc, append-nil}
use zpr_res_monitor.Prelude.{
  length-map, ℕ, suc, ◌+◌, ◌≡◌, refl, ◌∙◌, ap, sym, Bool, true, false, ◌==◌, if◌then◌else◌, Option,
  some, List, [], ◌∷◌, ◌++◌, map, Text, codes, length, arith, All,
}
use zpr_res_monitor.Mail.{
  Network, SmtpClient, new_client, run_service, handle_resolve, handle_connect, without_white_space,
  recipient, session_lines, send_email, write_lines, write_line,
}

-- The number of line feeds.
unfoldable pub line_feeds : Text → ℕ
line_feeds [] = 0
line_feeds (c ∷ cs) = let rest = line_feeds cs in if c == 10 then suc rest else rest

-- A socket that keeps what is written.
abbrev pub keep : Text → Text → Option Text
keep t s = some (s ++ t)

-- Lines as they are sent.
unfoldable pub sent : List Text → Text
sent [] = []
sent (l ∷ ls) = (l ++ codes "\r\n") ++ sent ls

line_feeds-append : (xs ys : Text) → line_feeds (xs ++ ys) ≡ line_feeds xs + line_feeds ys
unfolding line_feeds
line_feeds-append [] ys = omega arith
line_feeds-append (x ∷ xs) ys = ground (arith, line_feeds-append xs ys)

line_feeds-without_white_space : (cs : Text) → line_feeds (without_white_space cs) ≡ 0
unfolding line_feeds without_white_space
line_feeds-without_white_space [] = refl
line_feeds-without_white_space (c ∷ cs) = ground (arith, line_feeds-without_white_space cs)

sent-append : (xs ys : List Text) → sent (xs ++ ys) ≡ sent xs ++ sent ys
unfolding sent
sent-append [] ys = refl
sent-append (x ∷ xs) ys =
    ap (◌++◌ (x ++ codes "\r\n")) (sent-append xs ys)
    ∙ sym (append_assoc (x ++ codes "\r\n") (sent xs) (sent ys))

module _ (base64 : Text → Text) where
  write_lines-keep :
      (ls : List Text) (c : SmtpClient Text)
      → c.request ≡ []
      → (c' : SmtpClient Text) × (write_lines keep ls c ≡ some c')
        × (c'.socket ≡ c.socket ++ sent ls)
        × (c'.has_error ≡ c.has_error)
  unfolding write_lines write_line sent
  write_lines-keep [] c empty = (c, refl, sym (append-nil c.socket), refl)
  write_lines-keep (l ∷ ls) c empty =
      let next : SmtpClient Text = record c {
        request = [];
        socket = c.socket ++ (l ++ codes "\r\n");
      } in
      let (c', e, s, h) = write_lines-keep ls next refl in
      (c', rw (empty, e) refl, s ∙ append_assoc c.socket (l ++ codes "\r\n") (sent ls), h)

-- A line that does not break into two.
abbrev pub IsOneLine : Text → Type 0
IsOneLine l = line_feeds l ≡ 0

line_feeds-sent : (ls : List Text) → All IsOneLine ls → line_feeds (sent ls) ≡ length ls
unfolding sent line_feeds
line_feeds-sent [] all = refl
line_feeds-sent (l ∷ ls) all =
    let joined = line_feeds-append (l ++ codes "\r\n") (sent ls) in
    let ended : line_feeds (l ++ codes "\r\n") ≡ line_feeds l + 1 =
      line_feeds-append l (codes "\r\n") in
    omega (arith, joined, ended, all.0, line_feeds-sent ls all.1)

in_brackets-IsOneLine :
    (prefix address : Text)
    → IsOneLine prefix
    → IsOneLine (prefix ++ (without_white_space address ++ codes ">"))
unfolding line_feeds
in_brackets-IsOneLine prefix address one =
    let clean = line_feeds-without_white_space address in
    omega (
      arith,
      line_feeds-append prefix (without_white_space address ++ codes ">"),
      line_feeds-append (without_white_space address) (codes ">"),
      one,
      clean,
    )

recipients-IsOneLine : (to : List Text) → All IsOneLine (map recipient (map without_white_space to))
unfolding line_feeds
recipients-IsOneLine [] = tt
recipients-IsOneLine (a ∷ to) =
    (in_brackets-IsOneLine (codes "RCPT TO: <") a refl, recipients-IsOneLine to)

-- The lines up to `DATA`, and those behind it.
abbrev commands : (Text → Text) → SmtpClient Text → List Text
commands base64 c =
    (codes "EHLO " ++ c.server)
    ∷ codes "AUTH LOGIN"
    ∷ base64 c.user_name
    ∷ base64 c.password
    ∷ (codes "MAIL FROM: <" ++ c.from ++ codes ">")
    ∷ map recipient c.to

abbrev behind_data : SmtpClient Text → List Text
behind_data c =
    (codes "SUBJECT: " ++ c.subject)
    ∷ (codes "From: <" ++ c.from ++ codes ">")
    ∷ []
    ∷ c.message
    ∷ codes "."
    ∷ []
    ∷ []

session_lines-split :
    (base64 : Text → Text) (c : SmtpClient Text)
    → sent (session_lines base64 c)
      ≡ sent (commands base64 c) ++ (codes "DATA\r\n" ++ sent (behind_data c))
unfolding session_lines sent
session_lines-split base64 c = sent-append (commands base64 c) (codes "DATA" ∷ behind_data c)

-- The client once `sendEmail` has stored its arguments and the resolution is handled.
abbrev pub addressed : Text → List Text → Text → Text → SmtpClient Text → SmtpClient Text
addressed from to subject message c = record c {
  from = without_white_space from;
  to = map without_white_space to;
  subject = subject;
  message = message;
  resolving = false;
}

run_service-session :
    (base64 : Text → Text) (n : Network) (c : SmtpClient Text) {c' : SmtpClient Text}
    → n.resolve_error ≡ false
    → n.connect_error ≡ false
    → c.resolving ≡ true
    → write_lines keep
        (session_lines base64 (record c { resolving = false }))
        (record c { resolving = false })
      ≡ some c'
    → run_service keep base64 n c ≡ some c'
unfolding run_service handle_resolve handle_connect
run_service-session base64 n c a b r e =
    rw (r, run_service) (rw (a, handle_resolve) (rw (b, handle_connect) e))

-- Where the host name and the base64 texts are single lines, a new client that meets no error writes
-- one command for each recipient and five more before `DATA`, whatever the addresses hold: none of
-- them ends a line. It answers what the memory held for `mHasError` before.
pub send_email-commands :
    (base64 : Text → Text) (server user_name password from subject message : Text) (to : List Text)
    (flag : Bool) (n : Network)
    → n.resolve_error ≡ false
    → n.connect_error ≡ false
    → IsOneLine server
    → ((t : Text) → IsOneLine (base64 t))
    → (first rest : Text) × (c' : SmtpClient Text) × (send_email keep base64 n from to subject
          message
          (new_client server user_name password flag [])
        ≡ some (flag, c'))
      × (c'.socket ≡ first ++ (codes "DATA\r\n" ++ rest))
      × (line_feeds first ≡ 5 + length to)
unfolding send_email new_client run_service handle_resolve handle_connect line_feeds
send_email-commands base64 server user_name password from subject message to flag n a b one coded =
    let c = addressed from to subject message (new_client server user_name password flag []) in
    let (c', e, s, h) = write_lines-keep base64 (session_lines base64 c) c refl in
    let run = run_service-session base64 n (record c { resolving = true }) a b refl e in
    let all : All IsOneLine (commands base64 c) = (
      one,
      (
        refl,
        (
          coded user_name,
          (
            coded password,
            (in_brackets-IsOneLine (codes "MAIL FROM: <") from refl, recipients-IsOneLine to),
          ),
        ),
      ),
    ) in
    let size : length (commands base64 c) ≡ 5 + length to = omega (
      arith,
      length-map recipient (map without_white_space to),
      length-map without_white_space to,
    ) in
    (
      sent (commands base64 c),
      sent (behind_data c),
      c',
      rw (run, send_email) (rw h refl),
      s ∙ session_lines-split base64 c,
      line_feeds-sent (commands base64 c) all ∙ size,
    )
