-- ===== src/Client/Session/Refused.antt =====
-- server/src/database_worker.cpp, server/src/apiclient.cpp and client/src/client.cpp: an error of a worker on
-- its way to the user.
use o2chat.Prelude.{
  ℕ, ◌<◌, Bool, true, false, all, [], ◌∷◌, ◌++◌, Bytes, codes, ◌==◌, Option, some, length, u64_mod,
  ◌≡◌, refl, sym, ap, ◌∙◌, arith,
}
use o2chat.Common.{Cmd, ApiStatusCode}
use o2chat.Json.{External}
use o2chat.Responses.{make_api_error}
use o2chat.Text.Decimal.{int_to_string}
use o2chat.Db.{Storage}
use o2chat.Worker.{process}
use o2chat.Worker.Tasks.{Task, Reply}
use o2chat.Worker.Codes.{is_coded, process-AreCoded}
use o2chat.Http.Reply.{HttpReply}
use o2chat.Http.Reading.{Outcome, async_response}
use o2chat.Http.Errors.{is_error_code, error_reply, error_received}
use o2chat.Api.Respond.{build_api_error_rsponse}
use o2chat.Api.Connection.{ApiClient, send_error_response}
use o2chat.Api.Connection
use o2chat.Api.Exchange.{on_reply}
use o2chat.Client.Session.{Session, Channel, Action, Step}
use o2chat.Client.Session.Http.{Event, handle, on_http_read, on_http_idle_read}

-- The connection on which the client asks for the task: that of `idle` waits for messages, the other one has all
-- other requests.
abbrev pub channel_of : Cmd → Channel
channel_of Cmd.idle = Channel.idle
channel_of _ = Channel.http

-- What the user sees of an error, and what the client does: on the waiting connection it gives up both
-- connections and connects anew.
abbrev pub told : Session → Channel → ℕ → Bytes → Step
told s Channel.http code body = (s, Action.show (int_to_string code) ∷ Action.show body ∷ [])
told s Channel.idle code body = (
  record s { idle_state = false },
  Action.show (codes "connection is broken, please relogin")
      ∷ Action.create Channel.idle
      ∷ Action.create Channel.http
      ∷ Action.connect Channel.http
      ∷ [],
)

-- The answer that a call of a worker makes a connection write is received as the reply.
abbrev pub Arrives :
    External → (Bytes → Option Bytes) → ℕ → ApiClient → Reply → HttpReply → Bytes → Type 0
Arrives lib inflate now c r reply rest =
    (text : Bytes) × ((on_reply lib now c r).1 ≡ Connection.Action.write_response text ∷ [])
    × (async_response inflate (text ++ rest) ≡ Outcome.received reply rest)

refused_code :
    (lib : External) (now : ℕ) (task : Task) (storage : Storage) (code : ℕ)
    (api_code : ApiStatusCode) (desc : Bytes)
    → (process lib now task storage).1 ≡ Reply.error code api_code desc ∷ []
    → is_error_code code ≡ true
refused_code lib now task storage code api_code desc e =
    let coded : all is_coded (Reply.error code api_code desc ∷ []) ≡ true =
      ap (all is_coded) (sym e) ∙ process-AreCoded lib now task storage in
    ground (arith, coded)

told_lem :
    (lib : External) (s : Session) (channel : Channel) (opened : Bool) (code : ℕ) (body : Bytes)
    → is_error_code code ≡ true
    → handle lib s (Event.answered channel opened false (error_reply code body))
      ≡ some (told s channel code body)
unfolding handle on_http_read on_http_idle_read
told_lem lib s Channel.http opened code body named =
    let other : (code == 200) ≡ false = ground (arith, named) in rw (other, on_http_read) refl
told_lem lib s Channel.idle opened code body named =
    let other : (code == 200) ≡ false = ground (arith, named) in rw (other, on_http_idle_read) refl

-- If a worker refuses a task with an error, whose body has less than 2 ^ 64 bytes, then the connection of the
-- task writes one answer, of which the client reads a reply, and leaves the bytes behind it. If the task was
-- that of any request but idle, the reply makes the session show the code and the body of the error, and
-- nothing else, and leaves the session as it is. If it was a poll of a waiting connection, the user is told to
-- log in again instead, the mark of the waiting connection is taken back, and a new connection is made.
pub refusal_shown :
    (lib : External) (inflate : Bytes → Option Bytes) (now : ℕ) (task : Task) (storage : Storage)
    (c : ApiClient) (s : Session) (opened : Bool) (code : ℕ) (api_code : ApiStatusCode)
    (desc rest : Bytes)
    → (process lib now task storage).1 ≡ Reply.error code api_code desc ∷ []
    → length (make_api_error lib api_code desc) < u64_mod
    → let body = make_api_error lib api_code desc in
      let channel = channel_of task.cmd in
      (reply : HttpReply) × Arrives lib inflate now c (Reply.error code api_code desc) reply rest
      × (handle lib s (Event.answered channel opened false reply) ≡ some (told s channel code body))
unfolding on_reply send_error_response
refusal_shown lib inflate now task storage c s opened code api_code desc rest e small =
    let named = refused_code lib now task storage code api_code desc e in
    let body = make_api_error lib api_code desc in
    (
      error_reply code body,
      (
        build_api_error_rsponse lib code api_code desc,
        refl,
        error_received inflate lib code api_code desc rest named small,
      ),
      told_lem lib s (channel_of task.cmd) opened code body named,
    )
