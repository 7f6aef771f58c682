-- ===== src/Client/Session/Typed.antt =====
-- client/src/client.cpp and server/src/apiclient.cpp: from a line of the user to the task of the server's
-- workers. The hypothesis on rapidjson is that its parser reads back what its writer wrote.
use o2chat.Prelude.{
  ℕ, ◌<◌, true, false, [], ◌∷◌, ◌++◌, Bytes, codes, c_str, Option, some, length, u64_mod, ◌≡◌, refl,
  inl, inr,
}
use o2chat.Common.{Cmd, cmd_to_string}
use o2chat.Json.{object, Members, External}
use o2chat.Text.Strings.{lowercased, starts_with, ltrim}
use o2chat.Text.Strings.Parts.{free_of}
use o2chat.Http.Reply.{HttpReply, get_header, find_header}
use o2chat.Http.Reading.{Outcome, async_response}
use o2chat.Http.Requests.{request_reply, request_received}
use o2chat.Request.{Params}
use o2chat.Worker.Tasks.{Task}
use o2chat.Api.Meta.Table.{is_complete, filled}
use o2chat.Api.Connection.{ApiClient, Action, storage_of, request_from_client_read}
use o2chat.Api.Dispatch.{dispatch_lem, is_served}
use o2chat.Client.Session.{json_request}

-- The task that a request with the parameters `params` becomes, and the action that queues it.
abbrev pub task_for : ApiClient → Cmd → Params → Task
task_for c command params = record {
  ping = false;
  cmd = command;
  request = params;
  client = c.self;
  storage = storage_of command;
}

abbrev pub put_for : ApiClient → Cmd → Params → Action
put_for c command params = Action.put_task (task_for c command params)

resource_lem :
    (command : Cmd)
    → is_served command ≡ true
    → (free_of 13 (cmd_to_string command) ≡ true)
      × (free_of 32 (cmd_to_string command) ≡ true)
      × (lowercased (cmd_to_string command) ≡ cmd_to_string command)
unfolding cmd_to_string lowercased
resource_lem Cmd.message_send h = (refl, refl, refl)
resource_lem Cmd.message_send_chat h = (refl, refl, refl)
resource_lem Cmd.user_create h = (refl, refl, refl)
resource_lem Cmd.user_login h = (refl, refl, refl)
resource_lem Cmd.user_history h = (refl, refl, refl)
resource_lem Cmd.user_status h = (refl, refl, refl)
resource_lem Cmd.chat_create h = (refl, refl, refl)
resource_lem Cmd.chat_history h = (refl, refl, refl)
resource_lem Cmd.chat_adduser h = (refl, refl, refl)
resource_lem Cmd.chat_status h = absurd (cc h)
resource_lem Cmd.message_recent h = absurd (cc h)
resource_lem Cmd.idle h = absurd (cc h)
resource_lem Cmd.cmd_last h = absurd (cc h)

-- The request that the server makes of it.
abbrev pub posted : Cmd → Bytes → HttpReply
posted command body = request_reply (cmd_to_string command) (codes "application/json") body

-- A request with a JSON body that the client sends for a served command is read by the server whole, and
-- becomes exactly one task, with the command and the parameters of the body, if the body has what the
-- command wants. The bytes behind the request stay for the next one.
pub posted_task :
    (lib : External) (inflate : Bytes → Option Bytes) (pass_len now : ℕ) (c : ApiClient)
    (command : Cmd) (ms : Members) (body rest : Bytes)
    → is_served command ≡ true
    → lib.parse (c_str body) ≡ some (object ms)
    → length body < u64_mod
    → is_complete pass_len command ms ≡ true
    → (async_response inflate (json_request command body ++ rest)
        ≡ Outcome.received (posted command body) rest)
      × ((c' : ApiClient) × (request_from_client_read lib pass_len now c false (posted command body)
            ≡ some (c', put_for c command (filled command ms c.request_details.params) ∷ [])))
unfolding lowercased starts_with get_header find_header ltrim
posted_task lib inflate pass_len now c command ms body rest served parsed small ok =
    let (line, word, lower) = resource_lem command served in
    let type = codes "application/json" in
    (
      request_received inflate (cmd_to_string command) type body rest line word refl refl small,
      elim (dispatch_lem lib pass_len now c (posted command body) ms command served lower refl
          parsed) [ inl (_, e) ↦ (_, e) | inr (bad, _) ↦ absurd (cc (ok, bad)) ],
    )
