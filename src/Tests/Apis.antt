-- ===== src/Tests/Apis.antt =====
-- server/src/apiclient.cpp at small requests. The parser of these tests knows one text only.
use o2chat.Prelude.{
  true, false, List, [], ◌∷◌, codes, is_empty, ◌≡◌, ◌⊎◌, refl, none, some, length, All, ◌=?◌,
}
use o2chat.Common.{Cmd, cmd_to_string}
use o2chat.Json.{Json, Members, object, string, member, end, External, find_member}
use o2chat.Request.{no_params, RequestDetails}
use o2chat.Responses.{ApiMessage}
use o2chat.Db.{empty_storage}
use o2chat.Db.Invariant.Preserved.{empty-IsValid}
use o2chat.Worker.{process}
use o2chat.Worker.Tasks.{Task, Reply}
use o2chat.Worker.Polls.{IsLater}
use o2chat.Text.Strings.{lowercased, starts_with}
use o2chat.Http.Reply.{HttpReply, no_reply, get_header}
use o2chat.Api.Meta.{
  parse_members, parse_meta, require, find_required_string_param, parse_command, parse_account,
}
use o2chat.Api.Meta.Table.{is_complete, filled}
use o2chat.Api.Meta.Complete.{parse_members_lem}
use o2chat.Api.Connection.{
  ApiClient, Action, task_of, v1_handler, send_ok_response, response_to_client_wrote,
  request_from_client_read, send_messages_to_idle_conn, idle_written, max_timestamp,
  timer_wait_task_result,
}
use o2chat.Api.Dispatch.{dispatch_lem, noted, Refused}
use o2chat.Api.Idle.{no_repeat}
use o2chat.Api.Exchange.{
  Writing, Exchange, Ending, serve_client, process_client_request, exchange, exchange_step,
}
use o2chat.Api.Exchange.Single.{IsSingle, serve_client-IsSingle}

abbrev login_members : Members
login_members =
    member (codes "user") (string (codes "alice"))
      (member (codes "password") (string (codes "secret_1")) end)

abbrev knowing : Json → External
knowing j = record { write = λ _. codes "{}"; parse = λ s. some j; checksum = length }

abbrev details : RequestDetails
details = record {
  params = no_params;
  command = Cmd.idle;
  remote_address = [];
  resource = [];
  method = [];
  sessid = codes "1a";
}

abbrev connection : ApiClient
connection = record {
  self = 1;
  address = codes "127.0.0.1";
  http_code = 200;
  newest_msg_timestamp = 0;
  last_client_ping = 0;
  request_details = details;
}

abbrev request : HttpReply
request = record no_reply {
  method = codes "post";
  resource = codes "/v1/user/Login";
  body = codes "{}";
  parsed_headers = (codes "content-type", codes "application/json") ∷ [];
}

parse_members_lem_example :
    ((is_complete 8 Cmd.user_create login_members ≡ true)
      × (parse_members 8 Cmd.user_create login_members details
          ≡ ([], record details { params = filled Cmd.user_create login_members no_params })))
    ⊎ ((is_complete 8 Cmd.user_create login_members ≡ false)
        × (is_empty (parse_members 8 Cmd.user_create login_members details).0 ≡ false))
parse_members_lem_example = parse_members_lem 8 Cmd.user_create login_members details

dispatch_lem_example :
    let lib = knowing (object login_members) in
    let d = (noted connection request Cmd.user_login).request_details in
    let params = filled Cmd.user_login login_members no_params in
    let out = request_from_client_read lib 8 50 connection false request in
    ((is_complete 8 Cmd.user_login login_members ≡ true)
      × (out
          ≡ some (
            record connection { request_details = record d { params = params } },
            Action.put_task (record {
              ping = false;
              cmd = Cmd.user_login;
              request = params;
              client = 1;
              storage = [];
            })
                ∷ [],
          )))
    ⊎ ((is_complete 8 Cmd.user_login login_members ≡ false) × Refused lib out)
unfolding lowercased cmd_to_string starts_with get_header
dispatch_lem_example =
    dispatch_lem (knowing (object login_members)) 8 50 connection request login_members
      Cmd.user_login refl refl refl refl

abbrev delivered : ApiMessage
delivered = record { ts = 40; from = codes "bob"; to = codes "alice"; msg = codes "hi" }

no_repeat_example :
    let c = (idle_written connection false (max_timestamp (delivered ∷ []))).0 in
    (task : Task) × ((timer_wait_task_result 50 c false).1
      ≡ Action.put_task task ∷ Action.start_timer ∷ [])
    × All
        (λ m. All (IsLater m.ts) (process (knowing Json.other) 51 task empty_storage).1)
        (delivered ∷ [])
no_repeat_example =
    no_repeat (knowing Json.other) 50 51 connection (delivered ∷ []) empty_storage empty-IsValid
      refl

-- A login, its answer, and the next request.
abbrev login_endings : List Ending
login_endings =
    Ending.read_ends 50 false request
    ∷ Ending.timer_ends 51 false
    ∷ Ending.task_ends 52 0 (some (Reply.ok (codes "{}")))
    ∷ Ending.write_ends 0 false
    ∷ Ending.read_ends 53 false request
    ∷ []

abbrev working_again : Exchange
working_again =
    let lib = knowing (object login_members) in
    let d = (noted connection request Cmd.user_login).request_details in
    let params = filled Cmd.user_login login_members no_params in
    let c = record connection {
      request_details = record d { params = params; sessid = codes "2b" };
    } in
    record { client = c; reads = 0; tasks = task_of c false [] ∷ []; writes = []; timer = false }

working_again_lem :
    serve_client (knowing (object login_members)) 8 40 connection (codes "2b") false login_endings
    ≡ some working_again
unfolding serve_client process_client_request exchange exchange_step ◌=?◌ lowercased v1_handler
    starts_with get_header parse_meta parse_members require find_required_string_param find_member
    parse_command parse_account send_ok_response response_to_client_wrote filled
working_again_lem = refl

serve_client-IsSingle_example : IsSingle working_again
unfolding ◌=?◌ lowercased
serve_client-IsSingle_example =
    serve_client-IsSingle (knowing (object login_members)) 8 40 connection (codes "2b")
      login_endings working_again refl working_again_lem

-- The answer to a poll is written while the acknowledgement is.
waiting_writes :
    (elim (exchange
      (knowing Json.other)
      8
      (record {
        client = connection;
        reads = 0;
        tasks = [];
        writes = Writing.acknowledgement ∷ [];
        timer = true;
      })
      (Ending.timer_ends 50 false
        ∷ Ending.task_ends 51 0 (some (Reply.idle_messages (delivered ∷ [])))
        ∷ [])) [ none ↦ [] | some x ↦ x.writes ])
    ≡ Writing.acknowledgement ∷ Writing.news 40 ∷ []
unfolding exchange exchange_step timer_wait_task_result send_messages_to_idle_conn max_timestamp
waiting_writes = refl
