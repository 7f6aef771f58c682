-- ===== src/Db/Messages.antt =====
-- server/src/inmemory_dbconn.cpp: the operations on messages. The loops run from the newest
-- message, the last of the vector, down to index 0; here they run over the vector reversed.
pub mod Reference
use mathlib.Core.List.{reverse}
use o2chat.Prelude.{ℕ, ltb, leb, Bool, not, ◌&&◌, List, [], ◌∷◌, ◌++◌, ◌==◌, if◌then◌else◌, length}
use o2chat.Db.{Flags, Message, GetMsgOpt, Storage}

unfoldable pub save_message : Storage → Message → Storage
save_message s msg = record s { messages = s.messages ++ msg ∷ [] }

-- `opt.max_count && ret.size() >= opt.max_count`
abbrev pub is_full : GetMsgOpt → List Message → Bool
is_full opt ret = not (opt.max_count == 0) && leb opt.max_count (length ret)

-- The two nested tests of `getMessages`.
abbrev pub is_recent : ℕ → GetMsgOpt → Message → Bool
is_recent chatid opt m = m.chat_to == chatid && ltb opt.ts m.ts

abbrev pub mark_read : Message → Message
mark_read m = record m { flags = Flags.read }

-- The loop of `getMessages` from some index down: the vector `ret`, and the messages from that
-- index down as the loop leaves them.
get_messages_loop :
    (Message → Bool) → GetMsgOpt → List Message → List Message → List Message × List Message
get_messages_loop p opt ret [] = (ret, [])
get_messages_loop p opt ret (m ∷ older) =
    let ret' = if p m then ret ++ m ∷ [] else ret in
    let m' = if p m then mark_read m else m in
    let rest = get_messages_loop p opt ret' older in
    if is_full opt ret' then (ret', m' ∷ older) else (rest.0, m' ∷ rest.1)

-- `getMessages`; the storage is a static member, so the `const` method changes the flags.
unfoldable pub get_messages : Storage → ℕ → GetMsgOpt → List Message × Storage
unfolding get_messages_loop
get_messages s chatid opt =
    let (ret, marked) = get_messages_loop (is_recent chatid opt) opt [] (reverse s.messages) in
    (ret, record s { messages = reverse marked })

-- The loop of `selectMessages`, which marks nothing.
select_messages_loop : (Message → Bool) → GetMsgOpt → List Message → List Message → List Message
select_messages_loop p opt ret [] = ret
select_messages_loop p opt ret (m ∷ older) =
    let ret' = if p m then ret ++ m ∷ [] else ret in
    let rest = select_messages_loop p opt ret' older in if is_full opt ret' then ret' else rest

pub select_messages : Storage → (Message → Bool) → GetMsgOpt → List Message
unfolding select_messages_loop
select_messages s p opt = select_messages_loop p opt [] (reverse s.messages)
