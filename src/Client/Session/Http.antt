-- ===== src/Client/Session/Http.antt =====
-- client/src/client.cpp: the handlers of the two connections. An error of a connection is the Boolean
-- `error`. `none` is a failed assertion of rapidjson on the body of an answer.
use o2chat.Prelude.{
  ℕ, ◌-◌, ltb, Bool, true, false, not, ◌&&◌, ◌||◌, List, [], ◌∷◌, ◌++◌, map, Bytes, codes, is_empty,
  ◌==◌, if◌then◌else◌, Option, some, ◌>>=◌,
}
use o2chat.Common.{Cmd}
use o2chat.Json.{External}
use o2chat.Text.Decimal.{to_string, int_to_string}
use o2chat.Http.Reply.{HttpReply}
use o2chat.Client.Bodies.{build_user_pass_body, build_user_send_msg_body}
use o2chat.Client.Input.{Command}
use o2chat.Client.Answers.{Answer, MsgResponse, parse_response_aswer, parse_msg_response}
use o2chat.Client.Session.{
  Session, Channel, Action, Step, json_request, send_request, on_user_input,
}

-- `onHttpConnect`
unfoldable pub on_http_connect : External → Session → Bool → Step
unfolding send_request
on_http_connect lib s error =
    let hello =
      Action.show (codes "connected to server: " ++ s.host ++ codes ":" ++ int_to_string s.port) in
    let login =
      send_request s Command.login
        (json_request Cmd.user_login (build_user_pass_body lib s.user s.password)) in
    if error
    then (s, Action.connect Channel.http ∷ [])
    else if not (is_empty s.user) && not (is_empty s.password)
    then (login.0, hello ∷ login.1)
    else (s, hello ∷ [])

-- `onHttpWrite`
unfoldable pub on_http_write : Session → Bool → Step
on_http_write s error = (s, if error then [] else Action.read Channel.http ∷ [])

-- What `showMsg` gets for a message that was read.
abbrev pub show_response : MsgResponse → Action
show_response r = Action.show_message r.from r.to r.msg

-- The error of `parse_msg_response`, or its messages.
unfoldable pub show_messages : Bytes × List MsgResponse → List Action
show_messages ([], response) = map show_response response
show_messages (c ∷ err, response) = Action.show (codes "error: " ++ (c ∷ err)) ∷ []

-- The answer to a login; `opened` is `m_HttpIdle->isOpen()`.
unfoldable pub logged_in : Session → Bool → Bytes × Answer → Step
logged_in s opened ([], resp) = (
  record s { self_id = resp.uid; self_chat_id = resp.chatid; heart_bit = resp.heartbit },
  if opened then [] else Action.connect Channel.idle ∷ [],
)
logged_in s opened (c ∷ err, resp) = (s, Action.show (c ∷ err) ∷ [])

abbrev pub last_online : Answer → ℕ
last_online resp = if ltb resp.heartbit resp.server_ts then resp.server_ts - resp.heartbit else 0

-- The answer to a status request.
unfoldable pub show_status : Bytes × Answer → List Action
show_status ([], resp) =
    if ltb (last_online resp) 5
    then Action.show (codes "user online") ∷ []
    else Action.show
        (codes "user was online at about " ++ to_string (last_online resp) ++ codes " sceonds ago")
      ∷ []
show_status (c ∷ err, resp) = Action.show (c ∷ err) ∷ []

-- The tests on `m_LastCmd`.
unfoldable pub on_answer : External → Session → Bool → Bytes → Command → Option Step
unfolding logged_in show_messages show_status
on_answer lib s opened body Command.login = do
  parsed ← parse_response_aswer lib body
  some (logged_in s opened parsed)
on_answer lib s opened body Command.history_user = do
  parsed ← parse_msg_response lib body
  some (s, show_messages parsed)
on_answer lib s opened body Command.status_user = do
  parsed ← parse_response_aswer lib body
  some (s, show_status parsed)
on_answer lib s opened body _ = some (s, [])

-- `onHttpRead`
unfoldable pub on_http_read : External → Session → Bool → Bool → HttpReply → Option Step
unfolding on_answer
on_http_read lib s opened error reply =
    if error
    then some (s, Action.create Channel.http ∷ Action.connect Channel.http ∷ [])
    else if not (reply.status == 200)
    then some (s, Action.show (int_to_string reply.status) ∷ Action.show reply.body ∷ [])
    else do
      step ← on_answer lib s opened reply.body s.last_cmd
      some (step.0, Action.show (codes "200 OK") ∷ step.1)

-- `onHttpIdleConnect`
unfoldable pub on_http_idle_connect : External → Session → Bool → Step
on_http_idle_connect lib s error = (
  s,
  if error
      then Action.connect Channel.idle ∷ []
      else Action.request Channel.idle (
          json_request Cmd.idle
            (build_user_send_msg_body lib s.self_id s.heart_bit [] [] s.password))
        ∷ [],
)

-- `onHttpIdleWrite`
unfoldable pub on_http_idle_write : Session → Bool → Step
on_http_idle_write s error = (s, if error then [] else Action.read Channel.idle ∷ [])

-- `onHttpIdleRead`
unfoldable pub on_http_idle_read : External → Session → Bool → HttpReply → Option Step
unfolding show_messages
on_http_idle_read lib s error reply =
    if error || not (reply.status == 200)
    then some (
      record s { idle_state = false },
      Action.show (codes "connection is broken, please relogin")
          ∷ Action.create Channel.idle
          ∷ Action.create Channel.http
          ∷ Action.connect Channel.http
          ∷ [],
    )
    else if not s.idle_state
    then some (record s { idle_state = true }, Action.read Channel.idle ∷ [])
    else do
      parsed ← parse_msg_response lib reply.body
      some (s, show_messages parsed ++ Action.read Channel.idle ∷ [])

-- What comes to the client: a line of the user, or the end of an operation of a connection.
pub data Event : Type 0 where
  input : Bytes → Event
  connected : Channel → Bool → Event
  written : Channel → Bool → Event
  answered : Channel → Bool → Bool → HttpReply → Event

-- The handler of an event. The first Boolean of `answered` is `m_HttpIdle->isOpen()`.
unfoldable pub handle : External → Session → Event → Option Step
handle lib s (Event.input msg) = some (on_user_input lib s msg)
handle lib s (Event.connected Channel.http error) = some (on_http_connect lib s error)
handle lib s (Event.connected Channel.idle error) = some (on_http_idle_connect lib s error)
handle lib s (Event.written Channel.http error) = some (on_http_write s error)
handle lib s (Event.written Channel.idle error) = some (on_http_idle_write s error)
handle lib s (Event.answered Channel.http opened error reply) =
    on_http_read lib s opened error reply
handle lib s (Event.answered Channel.idle opened error reply) = on_http_idle_read lib s error reply

-- A session over events: the state and all that was done, in order.
unfoldable pub handle_all : External → Session → List Event → Option Step
unfolding handle
handle_all lib s [] = some (s, [])
handle_all lib s (e ∷ events) = do
  step ← handle lib s e
  rest ← handle_all lib step.0 events
  some (rest.0, step.1 ++ rest.1)
