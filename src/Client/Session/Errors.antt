-- ===== src/Client/Session/Errors.antt =====
-- client/src/client.cpp: the handlers on errors of a connection and on answers with another status than
-- 200.
use o2chat.Prelude.{
  Bool, true, false, not, ◌||◌, List, [], ◌∷◌, codes, ◌==◌, Option, some, all, ◌≡◌, refl,
}
use o2chat.Json.{External}
use o2chat.Text.Decimal.{int_to_string}
use o2chat.Http.Reply.{HttpReply}
use o2chat.Client.Session.{Session, Channel, Action, Step}
use o2chat.Client.Session.Http.{
  Event, handle, on_http_connect, on_http_write, on_http_read, on_http_idle_connect,
  on_http_idle_write, on_http_idle_read,
}

-- The events of an operation that failed.
abbrev pub is_failure : Event → Bool
is_failure (Event.input msg) = false
is_failure (Event.connected channel error) = error
is_failure (Event.written channel error) = error
is_failure (Event.answered channel opened error reply) = error || not (reply.status == 200)

-- Neither a message that is shown nor a request.
abbrev pub is_quiet : Action → Bool
is_quiet (Action.show_message from to msg) = false
is_quiet (Action.request channel req) = false
is_quiet _ = true

-- What a handler makes of a failure.
abbrev pub Kept : Session → Option Step → Type 0
Kept s out =
    (idle_state : Bool) × (actions : List Action) × (out
      ≡ some (record s { idle_state = idle_state }, actions))
    × (all is_quiet actions ≡ true)

read_Kept :
    (lib : External) (s : Session) (opened error : Bool) (reply : HttpReply)
    → (error || not (reply.status == 200)) ≡ true
    → Kept s (on_http_read lib s opened error reply)
unfolding on_http_read
read_Kept lib s opened true reply h =
    (s.idle_state, Action.create Channel.http ∷ Action.connect Channel.http ∷ [], refl, refl)
read_Kept lib s opened false reply h = (
  s.idle_state,
  Action.show (int_to_string reply.status) ∷ Action.show reply.body ∷ [],
  rw (h, on_http_read) refl,
  refl,
)

idle_Kept :
    (lib : External) (s : Session) (error : Bool) (reply : HttpReply)
    → (error || not (reply.status == 200)) ≡ true
    → Kept s (on_http_idle_read lib s error reply)
unfolding on_http_idle_read
idle_Kept lib s error reply h = (
  false,
  Action.show (codes "connection is broken, please relogin")
      ∷ Action.create Channel.idle
      ∷ Action.create Channel.http
      ∷ Action.connect Channel.http
      ∷ [],
  rw (h, on_http_idle_read) refl,
  refl,
)

-- An operation that failed changes nothing of the session but the mark of the waiting connection: who is
-- logged in, the password and the chat are as before. No message is shown, no request is sent, and no
-- assertion of rapidjson can fail.
pub failure_keeps :
    (lib : External) (s : Session) (e : Event)
    → is_failure e ≡ true
    → (idle_state : Bool) × (actions : List Action) × (handle lib s e
        ≡ some (record s { idle_state = idle_state }, actions))
      × (all is_quiet actions ≡ true)
unfolding handle on_http_connect on_http_write on_http_idle_connect on_http_idle_write
failure_keeps lib s (Event.input msg) h = absurd (cc h)
failure_keeps lib s (Event.connected Channel.http error) h =
    (s.idle_state, Action.connect Channel.http ∷ [], rw (h, handle, on_http_connect) refl, refl)
failure_keeps lib s (Event.connected Channel.idle error) h = (
  s.idle_state,
  Action.connect Channel.idle ∷ [],
  rw (h, handle, on_http_idle_connect) refl,
  refl,
)
failure_keeps lib s (Event.written Channel.http error) h =
    (s.idle_state, [], rw (h, handle, on_http_write) refl, refl)
failure_keeps lib s (Event.written Channel.idle error) h =
    (s.idle_state, [], rw (h, handle, on_http_idle_write) refl, refl)
failure_keeps lib s (Event.answered Channel.http opened error reply) h =
    read_Kept lib s opened error reply h
failure_keeps lib s (Event.answered Channel.idle opened error reply) h =
    idle_Kept lib s error reply h
