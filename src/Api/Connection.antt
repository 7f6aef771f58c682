-- ===== src/Api/Connection.antt =====
-- server/src/apiclient.cpp: the connection as a state with handlers; what a handler asks of the
-- socket, the timer and the queue of the workers is a list of actions.
use o2chat.Prelude.{
  ℕ, ◌+◌, ◌-◌, ◌%◌, ltb, Bool, false, not, ◌||◌, List, [], ◌∷◌, Bytes, codes, is_empty, ◌=?◌,
  if◌then◌else◌, Option, none, some, u64_mod,
}
use o2chat.Common.{Cmd, ApiStatusCode}
use o2chat.Json.{External}
use o2chat.Request.{RequestDetails}
use o2chat.Responses.{ApiMessage, ok_body_command, ok_body_messages}
use o2chat.Worker.Tasks.{Task}
use o2chat.Text.Strings.{lowercased, starts_with}
use o2chat.Http.Reply.{HttpReply, get_header}
use o2chat.Api.Meta.{Parsed, parse_meta}
use o2chat.Api.Respond.{build_api_ok_response, build_api_error_rsponse}

-- `ApiClient`; `self` names the connection in tasks, `address` is what its socket is connected to.
pub record ApiClient : Type 0 where
  pub self : ℕ
  pub address : Bytes
  pub http_code : ℕ
  pub newest_msg_timestamp : ℕ
  pub last_client_ping : ℕ
  pub request_details : RequestDetails

-- What is done outside the connection: the bytes that are written, with the handler that waits for
-- the write; a task for the workers; the timer; a read of the next request; the end of the socket.
pub data Action : Type 0 where
  write_response : Bytes → Action
  write_idle_response : Bytes → Action
  write_messages : Bytes → ℕ → Action
  put_task : Task → Action
  start_timer cancel_timer read_cmd cancel : Action

abbrev pub Step : Type 0
Step = ApiClient × List Action

-- `max_timestamp`
unfoldable pub max_from : ℕ → List ApiMessage → ℕ
max_from ts [] = ts
max_from ts (msg ∷ msgs) = max_from (if ltb ts msg.ts then msg.ts else ts) msgs

unfoldable pub max_timestamp : List ApiMessage → ℕ
unfolding max_from
max_timestamp msgs = max_from 0 msgs

-- `sendErrorResponse`
unfoldable pub send_error_response : External → ApiClient → ℕ → ApiStatusCode → Bytes → Step
send_error_response lib c http_code api_code desc = (
  record c { http_code = http_code },
  Action.write_response (build_api_error_rsponse lib http_code api_code desc) ∷ [],
)

-- `sendOkResponse`
unfoldable pub send_ok_response : ApiClient → Bytes → Step
send_ok_response c body = (c, Action.write_response (build_api_ok_response body) ∷ [])

-- `sendMessages`
unfoldable pub send_messages : External → ℕ → ApiClient → List ApiMessage → Step
send_messages lib now c msgs =
    (c, Action.write_response (build_api_ok_response (ok_body_messages lib now msgs)) ∷ [])

-- `sendMessagesToIdleConn`; the newest time waits for the end of the write.
unfoldable pub send_messages_to_idle_conn : External → ℕ → ApiClient → List ApiMessage → Step
unfolding max_timestamp
send_messages_to_idle_conn lib now c msgs = (
  c,
  Action.write_messages (build_api_ok_response (ok_body_messages lib now msgs)) (max_timestamp msgs)
      ∷ [],
)

-- The handler of that write.
unfoldable pub idle_written : ApiClient → Bool → ℕ → Step
idle_written c failed max_ts =
    if failed
    then (c, Action.cancel_timer ∷ Action.cancel ∷ [])
    else (record c { newest_msg_timestamp = max_ts }, [])

-- `sendOkResponseAndStartIdle`
unfoldable pub send_ok_response_and_start_idle : External → ℕ → ApiClient → Step
send_ok_response_and_start_idle lib now c = (
  c,
  Action.write_idle_response
        (build_api_ok_response (ok_body_command lib now c.request_details.command))
      ∷ Action.start_timer
      ∷ [],
)

-- `responseToClientWroteHandler`: whatever came of the write.
unfoldable pub response_to_client_wrote : ApiClient → Step
response_to_client_wrote c = (record c { http_code = 200 }, Action.read_cmd ∷ [])

-- The constructor of `db::Task` and the fields that the connection sets.
abbrev pub task_of : ApiClient → Bool → Bytes → Task
task_of c ping storage = record {
  ping = ping;
  cmd = c.request_details.command;
  request = c.request_details.params;
  client = c.self;
  storage = storage;
}

abbrev pub storage_of : Cmd → Bytes
storage_of Cmd.user_create = codes "localhost:3306"
storage_of _ = []

-- What is done with the answer of `parse_meta`: an error is sent, or the request goes on.
unfoldable pub accepted : External → ApiClient → Option Parsed → (ApiClient → Step) → Option Step
unfolding send_error_response
accepted lib c none next = none
accepted lib c (some (err, details)) next =
    let c' = record c { request_details = details } in
    if not (is_empty err)
    then some (send_error_response lib c' 400 ApiStatusCode.err_bad_request err)
    else some (next c')

-- `v1_handler` and `handler_impl`. `none` is the failed assertion of `parse_meta`.
unfoldable pub v1_handler : External → ℕ → ApiClient → HttpReply → Cmd → Option Step
unfolding accepted
v1_handler lib pass_len c req command =
    let content_type = get_header req (codes "Content-Type") in
    let c' = record c { request_details = record c.request_details { command = command } } in
    if starts_with content_type (codes "text/plain")
      || starts_with content_type (codes "application/json")
    then accepted lib c' (parse_meta lib pass_len c'.request_details req.body command)
        (λ c''. (c'', Action.put_task (task_of c'' false (storage_of command)) ∷ []))
    else some (
        send_error_response lib c' 400 ApiStatusCode.err_bad_request
          (codes "not allowed content type"))

-- The chain of tests in `requestFromClientReadHandler`.
unfoldable pub route : Bytes → Option Cmd
route resource =
    if resource =? codes "/v1/idle"
    then some Cmd.idle
    else if resource =? codes "/v1/message/send"
    then some Cmd.message_send
    else if resource =? codes "/v1/message/sendchat"
    then some Cmd.message_send_chat
    else if resource =? codes "/v1/user/login"
    then some Cmd.user_login
    else if resource =? codes "/v1/user/create"
    then some Cmd.user_create
    else if resource =? codes "/v1/chat/create"
    then some Cmd.chat_create
    else if resource =? codes "/v1/user/history"
    then some Cmd.user_history
    else if resource =? codes "/v1/group/history"
    then some Cmd.chat_history
    else if resource =? codes "/v1/user/status"
    then some Cmd.user_status
    else if resource =? codes "/v1/chat/adduser"
    then some Cmd.chat_adduser
    else none

unfoldable pub routed : External → ℕ → ℕ → ApiClient → HttpReply → Option Cmd → Option Step
routed lib pass_len now c reply none =
    some (send_error_response lib c 404 ApiStatusCode.err_not_found (codes "bad request"))
routed lib pass_len now c reply (some Cmd.idle) =
    let c' = record c { request_details = record c.request_details { command = Cmd.idle } } in
    accepted lib c' (parse_meta lib pass_len c'.request_details reply.body Cmd.idle)
      (send_ok_response_and_start_idle lib now)
routed lib pass_len now c reply (some command) = v1_handler lib pass_len c reply command

-- `requestFromClientReadHandler`
unfoldable pub request_from_client_read :
    External → ℕ → ℕ → ApiClient → Bool → HttpReply → Option Step
unfolding routed route
request_from_client_read lib pass_len now c failed reply =
    let c' = record c {
      request_details = record c.request_details {
        remote_address = c.address;
        resource = lowercased reply.resource;
        method = reply.method;
      };
    } in
    if failed
    then some (c, [])
    else routed lib pass_len now c' reply (route (lowercased reply.resource))

-- `timerWaitTaskResultHandler`; the difference of the times is a `uint64_t`.
unfoldable pub timer_wait_task_result : ℕ → ApiClient → Bool → Step
timer_wait_task_result now c aborted =
    let d = c.request_details in
    let ts =
      if ltb d.params.ts c.newest_msg_timestamp then c.newest_msg_timestamp else d.params.ts in
    let ping = ltb 5 ((now + u64_mod - c.last_client_ping) % u64_mod) in
    let c' = record c {
      request_details = record d { params = record d.params { ts = ts } };
      last_client_ping = if ping then now else c.last_client_ping;
    } in
    if aborted
    then (c, [])
    else (c', Action.put_task (task_of c' ping []) ∷ Action.start_timer ∷ [])
