-- ===== src/Client/Session.antt =====
-- client/src/client.cpp: the client's session, as handlers on its state. A handler gives the new state
-- and what it does to the connections and the console, in order. A timer or a pause has no effect
-- on the state and is left out, and so is the log.
pub mod Http
pub mod Errors
pub mod Typed
pub mod Delivered
pub mod Saved
pub mod Answered
pub mod Waiting
pub mod Overlap
pub mod Refused
use o2chat.Prelude.{
  ℕ, Bool, true, false, not, ◌&&◌, ◌||◌, List, [], ◌∷◌, ◌++◌, Bytes, codes, is_empty, if◌then◌else◌,
  ◌≡◌, refl,
}
use o2chat.Common.{Cmd, cmd_to_string}
use o2chat.Json.{External}
use o2chat.Client.Bodies.{
  build_request, build_user_pass_body, build_user_send_msg_body, build_user_history_msg_body,
  build_groups_msg_body,
}
use o2chat.Client.Input.{Command, Args, parse}

-- `Client::mode_t`
pub data Mode : Type 0 where
  usual chat_u chat_g : Mode

-- The fields of `Client` that the handlers read or write; `mode` and `peer` are those of `m_State`.
pub record Session : Type 0 where
  pub mode : Mode
  pub peer : Bytes
  pub host : Bytes
  pub port : ℕ
  pub idle_state : Bool
  pub last_cmd : Command
  pub user : Bytes
  pub password : Bytes
  pub self_id : ℕ
  pub self_chat_id : ℕ
  pub heart_bit : ℕ

-- The constructor.
abbrev pub new_client : Bytes → ℕ → Bytes → Bytes → Session
new_client host port user password = record {
  mode = Mode.usual;
  peer = [];
  host = host;
  port = port;
  idle_state = false;
  last_cmd = Command.no_command;
  user = user;
  password = password;
  self_id = 0;
  self_chat_id = 0;
  heart_bit = 0;
}

-- The two connections, `m_Http` and `m_HttpIdle`.
pub data Channel : Type 0 where
  http idle : Channel

-- What a handler does: a text or a message on the console, the signal of `QUIT`, and the calls on a
-- connection. `create` replaces it by a new one.
pub data Action : Type 0 where
  show : Bytes → Action
  show_message : Bytes → Bytes → Bytes → Action
  interrupt : Action
  create : Channel → Action
  connect : Channel → Action
  request : Channel → Bytes → Action
  read : Channel → Action

abbrev pub Step : Type 0
Step = Session × List Action

-- A request with a JSON body, as the handlers build it.
abbrev pub json_request : Cmd → Bytes → Bytes
json_request command body = build_request (cmd_to_string command) (codes "application/json") body

-- `sendRequest`
unfoldable pub send_request : Session → Command → Bytes → Step
send_request s cmd req = (record s { last_cmd = cmd }, Action.request Channel.http req ∷ [])

-- `input::help`
abbrev pub help_text : Bytes
help_text =
    codes "Commands are:\n"
    ++ codes "   HELP\n"
    ++ codes "   LOGIN <user> <pass>\n"
    ++ codes "   REGISTER <user> <pass>\n"
    ++ codes "   REGISTER_G <group>\n"
    ++ codes "   CHAT_WITH <user>\n"
    ++ codes "   ADD_TO_G <user> <group>\n"
    ++ codes "   UNCHAT\n"
    ++ codes "   HISTORY <user> [N]\n"
    ++ codes "   HISTORY_G <group> [N]\n"
    ++ codes "   DIRECT_MSG <user> <msg>\n"
    ++ codes "   DIRECT_MSG_G <group> <msg>\n"
    ++ codes "   STATUS <user>\n"
    ++ codes "   STATUS_G <group>\n"
    ++ codes "   QUIT\n"

-- The chain of tests on `args.cmd`.
unfoldable pub on_command : External → Session → Args → Command → Step
unfolding send_request
on_command lib s args Command.no_command =
    (s, Action.show (codes "unrecognized command. type \"HELP\" for help") ∷ [])
on_command lib s args Command.unchat =
    (record s { mode = Mode.usual; peer = [] }, Action.show (codes "switch to usual mode") ∷ [])
on_command lib s args Command.quit =
    (s, Action.show (codes "Bye! Client will exit NOW") ∷ Action.interrupt ∷ [])
on_command lib s args Command.help = (s, Action.show help_text ∷ [])
on_command lib s args Command.register_user =
    let body = build_user_pass_body lib args.reg_name args.reg_pass in
    send_request s Command.register_user (json_request Cmd.user_create body)
on_command lib s args Command.login =
    let body = build_user_pass_body lib args.login_name args.login_pass in
    let (s', actions) = send_request s Command.login (json_request Cmd.user_login body) in
    (record s' { password = args.login_pass }, actions)
on_command lib s args Command.direct_msg_user =
    let body =
      build_user_send_msg_body lib s.self_id 0 args.direct_name args.direct_message s.password in
    send_request s Command.direct_msg_user (json_request Cmd.message_send body)
on_command lib s args Command.history_user =
    let body =
      build_user_history_msg_body lib s.self_id args.history_name args.history_count s.password in
    send_request s Command.history_user (json_request Cmd.user_history body)
on_command lib s args Command.status_user =
    let body = build_user_history_msg_body lib s.self_id args.status_name 0 s.password in
    send_request s Command.status_user (json_request Cmd.user_status body)
on_command lib s args Command.chat_with_user = (
  record s { mode = Mode.chat_u; peer = args.chat_name },
  Action.show (codes "chat with: " ++ args.chat_name) ∷ [],
)
on_command lib s args Command.register_group =
    let body = build_groups_msg_body lib s.self_id args.group_groupname [] [] s.password in
    send_request s Command.register_group (json_request Cmd.chat_create body)
on_command lib s args Command.add_to_group =
    let body =
      build_groups_msg_body lib s.self_id args.group_groupname args.group_username [] s.password in
    send_request s Command.add_to_group (json_request Cmd.chat_adduser body)
on_command lib s args Command.direct_msg_group =
    let body =
      build_groups_msg_body lib s.self_id args.direct_name [] args.direct_message s.password in
    send_request s Command.direct_msg_group (json_request Cmd.message_send_chat body)
on_command lib s args Command.history_group = (s, Action.show (codes "unsupported command") ∷ [])
on_command lib s args Command.status_group = (s, Action.show (codes "unsupported command") ∷ [])

-- `m_State.mode == mode_t::CHAT_U`
unfoldable pub is_chat_u : Mode → Bool
is_chat_u Mode.usual = false
is_chat_u Mode.chat_u = true
is_chat_u Mode.chat_g = false

-- The commands that are served in a chat, too.
unfoldable pub is_allowed : Command → Bool
is_allowed Command.unchat = true
is_allowed Command.direct_msg_user = true
is_allowed _ = false

-- `onUserInput`
unfoldable pub on_user_input : External → Session → Bytes → Step
unfolding on_command is_chat_u is_allowed send_request
on_user_input lib s msg =
    let args = parse msg in
    if not (is_empty msg) && is_chat_u s.mode && not (is_allowed args.cmd)
    then send_request s Command.direct_msg_user (
        json_request Cmd.message_send
          (build_user_send_msg_body lib s.self_id 0 s.peer msg s.password))
    else on_command lib s args args.cmd
