-- ===== src/Tests/Parties.antt =====
-- A session, a connection of the server and answers for the tests of client/src. The parser knows one
-- text only.
use o2chat.Prelude.{[], ◌∷◌, codes, length, some}
use o2chat.Common.{Cmd}
use o2chat.Json.{Json, External}
use o2chat.Db.{User}
use o2chat.Responses.{ApiMessage, messages_json}
use o2chat.Request.{no_params}
use o2chat.Client.Session.{Session, Mode, new_client}
use o2chat.Api.Connection.{ApiClient}

abbrev pub knowing : Json → External
knowing j = record { write = λ _. codes "{}"; parse = λ s. some j; checksum = length }

abbrev pub session : Session
session = record (new_client (codes "localhost") 7788 (codes "alice") (codes "secret_1")) {
  self_id = 3;
}

abbrev pub chatting : Session
chatting = record session { mode = Mode.chat_u; peer = codes "bob" }

abbrev pub server : ApiClient
server = record {
  self = 1;
  address = codes "127.0.0.1";
  http_code = 200;
  newest_msg_timestamp = 0;
  last_client_ping = 0;
  request_details = record {
    params = no_params;
    command = Cmd.idle;
    remote_address = [];
    resource = [];
    method = [];
    sessid = codes "1a";
  };
}

abbrev pub alice : User
alice = record {
  id = 3;
  self_chat_id = 4;
  heartbit = 17;
  name = codes "alice";
  password = codes "secret_1";
  stpath = [];
}

abbrev pub greeting : ApiMessage
greeting = record { ts = 20; from = codes "bob"; to = codes "alice"; msg = codes "hi" }

abbrev pub greetings : External
greetings = knowing (messages_json 20 (greeting ∷ []))
