-- ===== src/Web/Page.antt =====
-- `writeHtmlToString` and the head of a response.
use zpr_res_monitor.Prelude.{ℕ, suc, List, [], ◌∷◌, ◌++◌, Text, codes, decimal, length}
use zpr_res_monitor.Config.Types.{TriggerType, LogType}
use zpr_res_monitor.Config.Print.{show_trigger, show_log}

-- The options, numbered from `i` on.
unfoldable pub selections : {A : Type 0} → (A → Text) → ℕ → List A → Text
unfolding decimal
selections show i [] = []
selections show i (x ∷ xs) =
    codes "<option value=\""
    ++ decimal i
    ++ codes "\">"
    ++ show x
    ++ codes "</option>\n"
    ++ selections show (suc i) xs

unfoldable pub write_html : List TriggerType → List LogType → Text
unfolding selections show_trigger show_log
write_html triggers logs =
    let trigger_selections = selections show_trigger 0 triggers in
    let log_selections = selections show_log 0 logs in
    codes "<html>\n<head>\n<title>Simple-Web-Server html-file</title>\n</head>\n<body>"
    ++ codes "Choose your trigger type and subscribe for e-mail!\n"
    ++ codes "</br></br></br>\n<form action = \"/set_email\" method = \"get\">\n"
    ++ codes "Email: <input type = \"text\" name = \"email\">\n"
    ++ codes "User name: <input type = \"text\" name = \"name\" />\n"
    ++ codes "<input type = \"submit\" value = \"Apply\" />\n</br></br>"
    ++ codes "</form>\n<form method=\"GET\" action=\"/trigger_choose\">\n"
    ++ codes "<select name=\"trigger0\" required>"
    ++ trigger_selections
    ++ codes " </select>OR<select name=\"trigger1\" required>\n"
    ++ trigger_selections
    ++ codes " </select>AND<select name=\"trigger2\" required>\n"
    ++ trigger_selections
    ++ codes "</select>\n<input type=\"submit\" value=\"Submit\">\n"
    ++ codes "</form>\n<form method=\"GET\" action=\"/trigger_choose\">\n"
    ++ codes "<select name=\"trigger0\" required>"
    ++ trigger_selections
    ++ codes " </select>AND<select name=\"trigger1\" required>\n"
    ++ trigger_selections
    ++ codes "</select>\n<input type=\"submit\" value=\"Submit\">\n"
    ++ codes "</form>\n<form method=\"GET\" action=\"/trigger_choose\">\n"
    ++ codes "<select name=\"trigger0\" required>"
    ++ trigger_selections
    ++ codes "</select>\n<input type=\"submit\" value=\"Submit\">\n"
    ++ codes "</form>\n</br></br></br><form method=\"GET\" action=\"/getlogs\">\n"
    ++ codes "Show logs of type\n"
    ++ codes "<select name=\"trigger\" required>\n"
    ++ log_selections
    ++ codes "</select>\n"
    ++ codes "<input type=\"submit\" value=\"Submit\">\n"
    ++ codes "</form>\n</body>\n</html>"

-- What a handler sends.
unfoldable pub respond : Text → Text
unfolding decimal
respond resp =
    codes "HTTP/1.1 200 OK\r\nContent-Length: " ++ decimal (length resp) ++ codes "\r\n\r\n" ++ resp
