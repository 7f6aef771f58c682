-- ===== src/Client/Console/Order.antt =====
-- client/src: the order in which typed lines are handled.
use o2chat.Prelude.{
  true, false, List, [], ◌∷◌, ◌++◌, Bytes, codes, is_empty, if◌then◌else◌, ◌≡◌, refl, sym, ap, ◌∙◌,
  map, Bool-cases, inl, inr, append_assoc, append-nil,
}
use o2chat.Json.{External}
use o2chat.Text.Strings.{trim}
use o2chat.Queue.{Queue, empty, push, get_task, get_task_items}
use o2chat.Client.Session.{Session, Action, Step, on_user_input}
use o2chat.Client.Console.{UiEvent, EventType, polling_user_input, process_queue, on_event}

-- The two threads: a line is typed, or the worker makes a round.
pub data Turn : Type 0 where
  types : Bytes → Turn
  rounds : Turn

-- The session, what was done, and the queue, behind turns in some order.
abbrev pub run_console :
    External → Session → Queue UiEvent → List Turn → Session × List Action × Queue UiEvent
run_console lib s q [] = (s, [], q)
run_console lib s q (types line ∷ turns) = run_console lib s (polling_user_input q line) turns
run_console lib s q (rounds ∷ turns) =
    let (step, q') = process_queue lib s q in
    let rest = run_console lib step.0 q' turns in (rest.0, step.1 ++ rest.1, rest.2)

-- The lines that are typed, without spaces around and without blank ones.
abbrev pub typed : List Turn → List Bytes
typed [] = []
typed (types line ∷ turns) = if is_empty (trim line) then typed turns else trim line ∷ typed turns
typed (rounds ∷ turns) = typed turns

-- The handler on lines, one after the other.
abbrev pub in_order : External → Session → List Bytes → Step
in_order lib s [] = (s, [])
in_order lib s (line ∷ lines) =
    let step = on_user_input lib s line in
    let rest = in_order lib step.0 lines in (rest.0, step.1 ++ rest.1)

-- A queue with lines of the user.
abbrev event_of : Bytes → UiEvent
event_of line = record {
  type = EventType.interface;
  from = codes "dummy";
  to = codes "dummy";
  msg = line;
}

abbrev waiting : List Bytes → Queue UiEvent
waiting lines = record { items = map event_of lines }

map-append_one :
    (lines : List Bytes) (line : Bytes)
    → map event_of (lines ++ line ∷ []) ≡ map event_of lines ++ event_of line ∷ []
map-append_one [] line = refl
map-append_one (l ∷ lines) line = ap (λ es. event_of l ∷ es) (map-append_one lines line)

types_lem :
    (lines : List Bytes) (line : Bytes)
    → is_empty (trim line) ≡ false
    → polling_user_input (waiting lines) line ≡ waiting (lines ++ trim line ∷ [])
unfolding polling_user_input push
types_lem lines line h =
    rw (h, polling_user_input)
      (ap (λ es. record { items = es }) (sym (map-append_one lines (trim line))))

blank_lem :
    (lines : List Bytes) (line : Bytes)
    → is_empty (trim line) ≡ true
    → polling_user_input (waiting lines) line ≡ waiting lines
unfolding polling_user_input
blank_lem lines line h = rw (h, polling_user_input) refl

-- What turns leave to do: the lines that still wait, and the claim on the rest.
abbrev Goes :
    External → Session → List Bytes → List Turn → Session × List Action × Queue UiEvent → Type 0
Goes lib s lines turns out =
    (left : List Bytes) × (out.2 ≡ waiting left)
    × (in_order lib s (lines ++ typed turns)
        ≡ ((in_order lib out.0 left).0, out.1 ++ (in_order lib out.0 left).1))

console_Goes :
    (lib : External) (turns : List Turn) (s : Session) (lines : List Bytes)
    → Goes lib s lines turns (run_console lib s (waiting lines) turns)
unfolding process_queue get_task get_task_items on_event
console_Goes lib [] s lines = (lines, refl, ap (in_order lib s) (append-nil lines))
console_Goes lib (types line ∷ turns) s lines = elim (Bool-cases (is_empty (trim line))) [
  | inl blank ↦
      rw (blank_lem lines line blank, run_console)
        (rw (blank, typed) (console_Goes lib turns s lines))
  | inr filled ↦
      let (left, rest, same) = console_Goes lib turns s (lines ++ trim line ∷ []) in
      rw (types_lem lines line filled, run_console)
        (
          left,
          rest,
          rw (filled, typed)
              (ap (in_order lib s) (sym (append_assoc lines (trim line ∷ []) (typed turns)))
                ∙ same),
        )
]
console_Goes lib (rounds ∷ turns) s [] = console_Goes lib turns s []
console_Goes lib (rounds ∷ turns) s (line ∷ lines) =
    let step = on_user_input lib s line in
    let (left, rest, same) = console_Goes lib turns step.0 lines in
    (
      left,
      rest,
      ap (λ (r : Step). let out : Step = (r.0, step.1 ++ r.1) in out) same
          ∙ ap (λ l. ((in_order lib (run_console lib step.0 (waiting lines) turns).0 left).0, l))
              (sym (
                append_assoc step.1 (run_console lib step.0 (waiting lines) turns).1
                  (in_order lib (run_console lib step.0 (waiting lines) turns).0 left).1)),
    )

lines_of : (lines : List Bytes) → map (λ (e : UiEvent). e.msg) (map event_of lines) ≡ lines
lines_of [] = refl
lines_of (line ∷ lines) = ap (λ l. line ∷ l) (lines_of lines)

-- However the thread of the console and the worker take turns, the handler gets the lines that were typed,
-- without spaces around, in their order, and none twice; blank ones are left out. What is done up to some
-- turn, and then on the lines that still wait, is what the handler does on all lines one after the other,
-- if no answer comes between them.
pub console_order :
    (lib : External) (s : Session) (turns : List Turn)
    → let out = run_console lib s empty turns in
      (left : List Bytes) × (map (λ (e : UiEvent). e.msg) out.2.items ≡ left)
      × (in_order lib s (typed turns)
          ≡ ((in_order lib out.0 left).0, out.1 ++ (in_order lib out.0 left).1))
unfolding empty
console_order lib s turns =
    let (left, rest, same) = console_Goes lib turns s [] in
    (
      left,
      ap (λ (q : Queue UiEvent). map (λ (e : UiEvent). e.msg) q.items) rest ∙ lines_of left,
      same,
    )
