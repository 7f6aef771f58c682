-- ===== src/Api/Dispatch.antt =====
-- server/src/apiclient.cpp: what a request makes the connection do.
use o2chat.Prelude.{
  ℕ, Bool, true, false, [], ◌∷◌, Bytes, codes, c_str, Option, some, ◌≡◌, refl, ap, ◌∙◌, ◌⊎◌, inl,
  inr, Bool-cases, arith, ◌=?◌,
}
use o2chat.Common.{Cmd, ApiStatusCode, cmd_to_string}
use o2chat.Json.{object, Members, External}
use o2chat.Text.Strings.{lowercased, starts_with}
use o2chat.Http.Reply.{HttpReply, get_header}
use o2chat.Api.Meta.{parse_meta, parse_document, parse_members}
use o2chat.Api.Meta.Table.{is_complete, filled}
use o2chat.Api.Meta.Complete.{parse_members_lem}
use o2chat.Api.Respond.{build_api_error_rsponse}
use o2chat.Api.Connection.{
  ApiClient, Action, Step, accepted, v1_handler, request_from_client_read, send_error_response,
  task_of, storage_of, route, routed,
}

-- The commands that are queued for the workers at once.
abbrev pub is_served : Cmd → Bool
is_served Cmd.idle = false
is_served Cmd.chat_status = false
is_served Cmd.message_recent = false
is_served Cmd.cmd_last = false
is_served _ = true

-- An answer with the code 400 and some text, and no task.
abbrev pub Refused : External → Option Step → Type 0
Refused lib out =
    (x : ApiClient) × (err : Bytes) × (out
      ≡ some (
        x,
        Action.write_response (build_api_error_rsponse lib 400 ApiStatusCode.err_bad_request err)
            ∷ [],
      ))

accepted_lem :
    (lib : External) (pass_len : ℕ) (c : ApiClient) (ms : Members) (command : Cmd)
    (next : ApiClient → Step)
    → ((is_complete pass_len command ms ≡ true)
        × (accepted lib c (some (parse_members pass_len command ms c.request_details)) next
            ≡ some (
                next (record c {
                  request_details = record c.request_details {
                    params = filled command ms c.request_details.params;
                  };
                }))))
      ⊎ ((is_complete pass_len command ms ≡ false)
          × Refused lib
              (accepted lib c (some (parse_members pass_len command ms c.request_details)) next))
unfolding accepted send_error_response
accepted_lem lib pass_len c ms command next =
    elim (parse_members_lem pass_len command ms c.request_details) [
      | inl (ok, e) ↦ inl (ok, rw (e, accepted) refl)
      | inr (bad, e) ↦
          let out = parse_members pass_len command ms c.request_details in
          inr (
            bad,
            (record c { http_code = 400; request_details = out.1 }, out.0, rw (e, accepted) refl),
          )
    ]

-- The connection when the first line and the command of a request are noted.
abbrev pub noted : ApiClient → HttpReply → Cmd → ApiClient
noted c reply command = record c {
  request_details = record c.request_details {
    command = command;
    remote_address = c.address;
    resource = lowercased reply.resource;
    method = reply.method;
  };
}

-- The resource of a command leads to the branch of the command.
route_lem :
    (command : Cmd) → is_served command ≡ true → route (cmd_to_string command) ≡ some command
unfolding route cmd_to_string ◌=?◌
route_lem Cmd.message_send served = refl
route_lem Cmd.message_send_chat served = refl
route_lem Cmd.user_create served = refl
route_lem Cmd.user_login served = refl
route_lem Cmd.user_history served = refl
route_lem Cmd.chat_create served = refl
route_lem Cmd.chat_history served = refl
route_lem Cmd.user_status served = refl
route_lem Cmd.chat_adduser served = refl
route_lem Cmd.idle served = absurd (ground (arith, served))
route_lem Cmd.chat_status served = absurd (ground (arith, served))
route_lem Cmd.message_recent served = absurd (ground (arith, served))
route_lem Cmd.cmd_last served = absurd (ground (arith, served))

routed_v1 :
    (lib : External) (pass_len now : ℕ) (c : ApiClient) (reply : HttpReply) (command : Cmd)
    → is_served command ≡ true
    → routed lib pass_len now c reply (some command) ≡ v1_handler lib pass_len c reply command
unfolding routed
routed_v1 lib pass_len now c reply Cmd.message_send served = refl
routed_v1 lib pass_len now c reply Cmd.message_send_chat served = refl
routed_v1 lib pass_len now c reply Cmd.user_create served = refl
routed_v1 lib pass_len now c reply Cmd.user_login served = refl
routed_v1 lib pass_len now c reply Cmd.user_history served = refl
routed_v1 lib pass_len now c reply Cmd.chat_create served = refl
routed_v1 lib pass_len now c reply Cmd.chat_history served = refl
routed_v1 lib pass_len now c reply Cmd.user_status served = refl
routed_v1 lib pass_len now c reply Cmd.chat_adduser served = refl
routed_v1 lib pass_len now c reply Cmd.idle served = absurd (ground (arith, served))
routed_v1 lib pass_len now c reply Cmd.chat_status served = absurd (ground (arith, served))
routed_v1 lib pass_len now c reply Cmd.message_recent served = absurd (ground (arith, served))
routed_v1 lib pass_len now c reply Cmd.cmd_last served = absurd (ground (arith, served))

v1_handler_lem :
    (lib : External) (pass_len : ℕ) (c : ApiClient) (reply : HttpReply) (ms : Members)
    (command : Cmd)
    → starts_with (get_header reply (codes "Content-Type")) (codes "application/json") ≡ true
    → lib.parse (c_str reply.body) ≡ some (object ms)
    → let c' = record c { request_details = record c.request_details { command = command } } in
      v1_handler lib pass_len c reply command
      ≡ accepted lib c'
          (some (parse_members pass_len command ms c'.request_details))
          (λ c''. (c'', Action.put_task (task_of c'' false (storage_of command)) ∷ []))
unfolding v1_handler parse_meta parse_document
v1_handler_lem lib pass_len c reply ms command json parsed =
    elim (Bool-cases (starts_with (get_header reply (codes "Content-Type")) (codes "text/plain"))) [
      | inl e ↦ rw (e, v1_handler) (rw (parsed, parse_meta) refl)
      | inr e ↦ rw (e, v1_handler) (rw json (rw (parsed, parse_meta) refl))
    ]

-- A request with a content type that begins with application/json and a JSON object as its body for the
-- resource of a served command. If the object has what the command wants, the request becomes one task of
-- the workers: with that command, the values of the body, and for what the body leaves out the values of
-- the last request. If not, it is answered with the code 400 and becomes no task.
pub dispatch_lem :
    (lib : External) (pass_len now : ℕ) (c : ApiClient) (reply : HttpReply) (ms : Members)
    (command : Cmd)
    → is_served command ≡ true
    → lowercased reply.resource ≡ cmd_to_string command
    → starts_with (get_header reply (codes "Content-Type")) (codes "application/json") ≡ true
    → lib.parse (c_str reply.body) ≡ some (object ms)
    → let d = (noted c reply command).request_details in
      let params = filled command ms d.params in
      let c' = record c { request_details = record d { params = params } } in
      let out = request_from_client_read lib pass_len now c false reply in
      ((is_complete pass_len command ms ≡ true)
        × (out
            ≡ some (
              c',
              Action.put_task (record {
                ping = false;
                cmd = command;
                request = params;
                client = c.self;
                storage = storage_of command;
              })
                  ∷ [],
            )))
      ⊎ ((is_complete pass_len command ms ≡ false) × Refused lib out)
unfolding request_from_client_read
dispatch_lem lib pass_len now c reply ms command served same json parsed =
    let c' = noted c reply c.request_details.command in
    let whole : request_from_client_read lib pass_len now c false reply
        ≡ accepted lib (noted c reply command)
            (some (parse_members pass_len command ms (noted c reply command).request_details))
            (λ c''. (c'', Action.put_task (task_of c'' false (storage_of command)) ∷ [])) =
      ap (routed lib pass_len now c' reply) (ap route same ∙ route_lem command served)
      ∙ routed_v1 lib pass_len now c' reply command served
      ∙ v1_handler_lem lib pass_len c' reply ms command json parsed in
    rw (whole, request_from_client_read)
      (accepted_lem lib pass_len (noted c reply command) ms command
        (λ c''. (c'', Action.put_task (task_of c'' false (storage_of command)) ∷ [])))
