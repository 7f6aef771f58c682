-- ===== src/Client/Session/Waiting.antt =====
-- client/src/client.cpp: the waiting connection of the client, from the acknowledgement on.
use o2chat.Prelude.{
  ℕ, ltb, Bool, true, false, List, [], ◌∷◌, ◌++◌, map, Bytes, c_str, all, some, u64_mod, ◌≡◌, refl,
  All,
}
use o2chat.Json.{External}
use o2chat.Responses.{ApiMessage, ok_body_messages, messages_json}
use o2chat.Http.Responses.{ok_reply}
use o2chat.Client.Answers.{parse_msg_response}
use o2chat.Client.Answers.RoundTrip.{messages_answered, shown}
use o2chat.Client.Session.{Session, Channel, Action}
use o2chat.Client.Session.Http.{Event, handle, handle_all, on_http_idle_read, show_messages}
use o2chat.Client.Session.Answered.{printed, show_shown}

-- An answer of the server to a poll, with the time at which it was built.
abbrev pub Batch : Type 0
Batch = ℕ × List ApiMessage

abbrev pub body_of : External → Batch → Bytes
body_of lib b = ok_body_messages lib b.0 b.1

-- The parser reads back what the writer wrote, and the times have 64 bits.
abbrev pub Readable : External → Batch → Type 0
Readable lib b =
    (lib.parse (c_str (body_of lib b)) ≡ some (messages_json b.0 b.1))
    × (all (λ m. ltb m.ts u64_mod) b.1 ≡ true)

abbrev pub arrived : External → Bool → Batch → Event
arrived lib opened b = Event.answered Channel.idle opened false (ok_reply (body_of lib b))

-- What the client does about answers: it shows the messages of each and reads on.
abbrev pub heard : List Batch → List Action
heard [] = []
heard (b ∷ batches) = (printed b.1 ++ (Action.read Channel.idle ∷ [])) ++ heard batches

batch_lem :
    (lib : External) (s : Session) (opened : Bool) (b : Batch)
    → s.idle_state ≡ true
    → Readable lib b
    → handle lib s (arrived lib opened b) ≡ some (s, printed b.1 ++ (Action.read Channel.idle ∷ []))
unfolding handle on_http_idle_read show_messages
batch_lem lib s opened b on (parsed, small) =
    let e : parse_msg_response lib (body_of lib b) ≡ some ([], map shown b.1) =
      messages_answered lib b.0 b.1 parsed small in
    rw on (rw e (rw (show_shown b.1) refl))

batches_lem :
    (lib : External) (s : Session) (opened : Bool) (batches : List Batch)
    → s.idle_state ≡ true
    → All (Readable lib) batches
    → handle_all lib s (map (arrived lib opened) batches) ≡ some (s, heard batches)
unfolding handle_all
batches_lem lib s opened [] on h = refl
batches_lem lib s opened (b ∷ batches) on h =
    rw (batch_lem lib s opened b on h.0) (rw (batches_lem lib s opened batches on h.1) refl)

-- After the connect, the first answer with status 200 is the acknowledgement and is not shown. From then
-- on the messages of every answer are shown, all of them, in the order of the answers and in the
-- order within each, and after each answer the client reads the next one.
pub idle_shows :
    (lib : External) (s : Session) (opened : Bool) (ack : Bytes) (batches : List Batch)
    → s.idle_state ≡ false
    → All (Readable lib) batches
    → handle_all lib s
        (Event.answered Channel.idle opened false (ok_reply ack) ∷ map (arrived lib opened) batches)
      ≡ some (record s { idle_state = true }, Action.read Channel.idle ∷ heard batches)
unfolding handle_all handle on_http_idle_read
idle_shows lib s opened ack batches off h =
    let rest = batches_lem lib (record s { idle_state = true }) opened batches refl h in
    rw off (rw rest refl)
