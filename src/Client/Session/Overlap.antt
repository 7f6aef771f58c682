-- ===== src/Client/Session/Overlap.antt =====
-- client/src/client.cpp: what the user types while an answer is on its way.
use o2chat.Prelude.{
  ℕ, ltb, Bool, true, false, not, ◌&&◌, List, [], ◌∷◌, Bytes, codes, c_str, is_empty, append-nil,
  ◌==◌, some, u64_mod, ◌≡◌, refl, arith, ◌=?◌,
}
use o2chat.Common.{Cmd}
use o2chat.Json.{External, find_member}
use o2chat.Responses.{ApiMessage, ok_body_messages, messages_json}
use o2chat.Text.Decimal.{int_to_string}
use o2chat.Http.Reply.{HttpReply}
use o2chat.Http.Responses.{ok_reply}
use o2chat.Client.Bodies.{build_user_history_msg_body, build_user_pass_body}
use o2chat.Client.Input.{Command, parse}
use o2chat.Client.Input.Lines.{Line, print, meaning, is_plain, parse-print}
use o2chat.Client.Answers.{
  parse_response_aswer, parse_answer_document, parse_answer_members, member_uint,
}
use o2chat.Client.Session.{
  Session, Channel, Action, json_request, on_user_input, on_command, send_request, is_chat_u,
  is_allowed,
}
use o2chat.Client.Session.Http.{Event, handle, handle_all, on_http_read, on_answer, show_status}

-- Outside a chat, a line of the help text without a message, whose words have no space, does what it
-- means.
typed_line :
    (lib : External) (s : Session) (line : Line)
    → is_chat_u s.mode ≡ false
    → is_plain line ≡ true
    → on_user_input lib s (print line) ≡ on_command lib s (meaning line) (meaning line).cmd
unfolding on_user_input
typed_line lib s line usual plain =
    let args = parse (print line) in
    let off : (not (is_empty (print line)) && is_chat_u s.mode && not (is_allowed args.cmd))
        ≡ false =
      ground (arith, usual) in
    rw (off, on_user_input) (rw (parse-print line plain) refl)

-- The answer with messages, read as the answer to a status request.
as_status :
    (lib : External) (now : ℕ) (msgs : List ApiMessage)
    → lib.parse (c_str (ok_body_messages lib now msgs)) ≡ some (messages_json now msgs)
    → ltb now u64_mod ≡ true
    → parse_response_aswer lib (ok_body_messages lib now msgs)
      ≡ some ([], record { uid = 0; chatid = 0; heartbit = 0; server_ts = now })
unfolding messages_json parse_response_aswer parse_answer_document parse_answer_members member_uint
    find_member ◌=?◌
as_status lib now msgs parsed small = rw (parsed, parse_response_aswer) (rw small refl)

-- A status request that is typed before the answer to a history request came: the answer is taken for that
-- of the status request. None of its messages is shown, and the user of the status request is said to
-- have been online as many seconds ago as the clock of the server shows, or now if it shows less than
-- five.
pub history_misread :
    (lib : External) (s : Session) (opened : Bool) (name other : Bytes) (now : ℕ)
    (msgs : List ApiMessage)
    → is_chat_u s.mode ≡ false
    → is_plain (Line.history name) ≡ true
    → is_plain (Line.status other) ≡ true
    → lib.parse (c_str (ok_body_messages lib now msgs)) ≡ some (messages_json now msgs)
    → ltb now u64_mod ≡ true
    → let ask = build_user_history_msg_body lib s.self_id name 10 s.password in
      let status = build_user_history_msg_body lib s.self_id other 0 s.password in
      handle_all lib s (
        Event.input (print (Line.history name))
        ∷ Event.input (print (Line.status other))
        ∷ Event.answered Channel.http opened false (ok_reply (ok_body_messages lib now msgs))
        ∷ [])
      ≡ some (
        record s { last_cmd = Command.status_user },
        Action.request Channel.http (json_request Cmd.user_history ask)
            ∷ Action.request Channel.http (json_request Cmd.user_status status)
            ∷ Action.show (codes "200 OK")
            ∷ show_status ([], record { uid = 0; chatid = 0; heartbit = 0; server_ts = now }),
      )
unfolding handle_all handle on_command send_request on_http_read on_answer
history_misread lib s opened name other now msgs usual h1 h2 parsed small =
    let first = typed_line lib s (Line.history name) usual h1 in
    let t = record s { last_cmd = Command.history_user } in
    let second = typed_line lib t (Line.status other) usual h2 in
    rw first (rw second (rw (as_status lib now msgs parsed small) (simp append-nil refl)))

-- A login that the server refuses: the session keeps the identifier of the user who was logged in, but has
-- the password that was typed.
pub refused_login :
    (lib : External) (s : Session) (opened : Bool) (name pass : Bytes) (reply : HttpReply)
    → is_chat_u s.mode ≡ false
    → is_plain (Line.login name pass) ≡ true
    → (reply.status == 200) ≡ false
    → (actions : List Action) × (handle_all lib s (
          Event.input (print (Line.login name pass))
          ∷ Event.answered Channel.http opened false reply
          ∷ [])
        ≡ some (record s { last_cmd = Command.login; password = pass }, actions))
unfolding handle_all handle on_command send_request on_http_read
refused_login lib s opened name pass reply usual plain bad = (
  Action.request Channel.http (json_request Cmd.user_login (build_user_pass_body lib name pass))
      ∷ Action.show (int_to_string reply.status)
      ∷ Action.show reply.body
      ∷ [],
  rw (typed_line lib s (Line.login name pass) usual plain) (rw bad refl),
)
