-- ===== src/Worker/Polls.antt =====
-- server/src/database_worker.cpp: which messages a poll hands out.

use mathlib.Core.List.{reverse}
use o2chat.Prelude.{
  ℕ, zero, suc, ◌<◌, List, [], ◌∷◌, map, ◌≡◌, arith, Bool-cases, inl, inr, take, select, All,
  All-append, All-map,
}
use o2chat.Common.{Cmd}
use o2chat.Json.{External}
use o2chat.Responses.{ApiMessage}
use o2chat.Db.{Chat, Message, Storage, default_opt, GetMsgOpt}
use o2chat.Db.Invariant.{IsValid}
use o2chat.Db.Messages.{get_messages, is_recent}
use o2chat.Db.Messages.Reference.{get_messages_lem, limited}
use o2chat.Worker.Tasks.{Task, Reply}
use o2chat.Worker.Format.{to_api_format, to_api_format_batch, api_message}
use o2chat.Worker.Auth.{with_user_cases}
use o2chat.Worker.Accounts.{at_cmd}
use o2chat.Worker.{process, process_task, poll, poll_chats, add_batch, idle_replies}

-- A reply with messages has only messages later than `ts`.
unfoldable pub IsLater : ℕ → Reply → Type 0
IsLater ts (Reply.idle_messages ms) = All (λ m. ts < m.ts) ms
IsLater ts _ = Unit

select_later :
    (chatid : ℕ) (opt : GetMsgOpt) (ms : List Message)
    → All (λ m. opt.ts < m.ts) (select (is_recent chatid opt) ms)
select_later chatid opt [] = tt
select_later chatid opt (m ∷ ms) = elim (Bool-cases (is_recent chatid opt m)) [
  | inl e ↦ rw e (ground arith, select_later chatid opt ms)
  | inr e ↦ rw e (select_later chatid opt ms)
]

pub All-take {ℓ κ} :
    {A : Type ℓ} (P : A → Type κ) (n : ℕ) (xs : List A) → All P xs → All P (take n xs)
All-take P zero xs h = tt
All-take P (suc n) [] h = tt
All-take P (suc n) (x ∷ xs) (p, h) = (p, All-take P n xs h)

pub All-limited {ℓ κ} :
    {A : Type ℓ} (P : A → Type κ) (n : ℕ) (xs : List A) → All P xs → All P (limited n xs)
All-limited P zero xs h = h
All-limited P (suc n) xs h = All-take P (suc n) xs h

fetched_later :
    (s : Storage) (chatid : ℕ) (opt : GetMsgOpt)
    → All (λ m. opt.ts < m.ts) (get_messages s chatid opt).0
fetched_later s chatid opt =
    rw ((get_messages_lem s chatid opt).0)
      (All-limited _ opt.max_count _ (select_later chatid opt (reverse s.messages)))

add_batch_later :
    (P : Message → Type 0) (msgs : List Message) (batch : List (List Message))
    → All P msgs
    → All (All P) batch
    → All (All P) (add_batch msgs batch)
unfolding add_batch
add_batch_later P [] batch h hs = hs
add_batch_later P (m ∷ msgs) batch h hs = (h, hs)

poll_chats_later :
    (ts : ℕ) (chats : List Chat) (s : Storage)
    → All (All (λ m. ts < m.ts)) (poll_chats ts chats s).0
unfolding poll_chats
poll_chats_later ts [] s = tt
poll_chats_later ts (chat ∷ chats) s =
    let opt = record default_opt { ts = ts } in
    add_batch_later (λ m. ts < m.ts) (get_messages s chat.id opt).0 _ (fetched_later s chat.id opt)
      (poll_chats_later ts chats (get_messages s chat.id opt).1)

format_later :
    (ts : ℕ) (s : Storage) (batch : List (List Message))
    → All (All (λ m. ts < m.ts)) batch
    → All (λ m. ts < m.ts) (to_api_format_batch s batch)
unfolding to_api_format_batch to_api_format
format_later ts s [] h = tt
format_later ts s (msgs ∷ batch) (h, hs) =
    All-append (λ (m : ApiMessage). ts < m.ts) (map (api_message s) msgs) _
      (All-map (λ m. ts < m.ts) (api_message s) msgs h) (format_later ts s batch hs)

replies-IsLater :
    (ts : ℕ) (task : Task) (s : Storage) (batch : List (List Message))
    → All (All (λ m. ts < m.ts)) batch
    → All (IsLater ts) (idle_replies task s batch)
unfolding idle_replies IsLater
replies-IsLater ts task s [] h = elim (Bool-cases task.ping) [
  | inl e ↦ rw e (tt, tt)
  | inr e ↦ rw e tt
]
replies-IsLater ts task s (msgs ∷ batch) h = (format_later ts s (msgs ∷ batch) h, tt)

-- A poll hands out only messages later than the time that it was asked with.
pub poll-IsLater :
    (lib : External) (now : ℕ) (task : Task) (s : Storage)
    → IsValid s
    → task.cmd ≡ Cmd.idle
    → All (IsLater task.request.ts) (process lib now task s).1
unfolding process_task poll IsLater
poll-IsLater lib now task s v is_idle = rw (at_cmd lib now task s is_idle) (
    with_user_cases (λ r. All (IsLater task.request.ts) r.1) lib task s _ v (tt, tt) (tt, tt)
      (λ u _. replies-IsLater task.request.ts task _ _ (poll_chats_later task.request.ts _ _)))
