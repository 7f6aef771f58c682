-- ===== src/Client/Console.antt =====
-- client/src/ui.cpp, event_worker.cpp and main.cpp: from the lines of the console to the handler of the
-- session, over the queue of common/lock_queue.hpp, and the option `server`.
pub mod Order
use o2chat.Prelude.{
  ℕ, Bool, true, false, List, [], ◌∷◌, ◌++◌, Bytes, codes, is_empty, if◌then◌else◌, Option, none,
  some,
}
use o2chat.Json.{External}
use o2chat.Text.Strings.{trim, split}
use o2chat.Text.Number.{stoi}
use o2chat.Queue.{Queue, push, get_task}
use o2chat.Client.Session.{Session, Action, Step, on_user_input}

-- `event::type_t`; the name `none` is the library's.
pub data EventType : Type 0 where
  no_type peer interface : EventType

-- `Event`
pub record UiEvent : Type 0 where
  pub type : EventType
  pub from : Bytes
  pub to : Bytes
  pub msg : Bytes

-- One line of `pollingUserInput`.
unfoldable pub polling_user_input : Queue UiEvent → Bytes → Queue UiEvent
polling_user_input q line =
    let msg = trim line in
    if is_empty msg
    then q
    else push q
        (record { type = EventType.interface; from = codes "dummy"; to = codes "dummy"; msg = msg })

-- What is done with an event.
unfoldable pub on_event : External → Session → UiEvent → EventType → Step
on_event lib s event EventType.no_type = (s, [])
on_event lib s event EventType.peer = (s, [])
on_event lib s event EventType.interface = on_user_input lib s event.msg

-- One round of `processQueue`; without an event it sleeps.
unfoldable pub process_queue : External → Session → Queue UiEvent → Step × Queue UiEvent
unfolding on_event
process_queue lib s q = elim (get_task q) [
  | none ↦ ((s, []), q)
  | some (event, q') ↦ (on_event lib s event event.type, q')
]

-- `check_config_or_die` and the arguments of the client: the host and the port, or the end of the program.
unfoldable pub server_option : Bytes → Option (Bytes × ℕ)
server_option server = if is_empty server then none else elim (split server (codes ":")) [
  | host ∷ port ∷ [] ↦ elim (stoi port) [ none ↦ none | some n ↦ some (host, n) ]
  | _ ↦ none
]
