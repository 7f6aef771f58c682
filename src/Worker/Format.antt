-- ===== src/Worker/Format.antt =====
-- server/src/database_worker.cpp: from stored messages to those of an answer.
use o2chat.Prelude.{ℕ, leb, List, [], ◌∷◌, ◌++◌, map, if◌then◌else◌, length, take}
use o2chat.Responses.{ApiMessage}
use o2chat.Db.{Message, Storage}
use o2chat.Db.Users.{lookup_user_by_id}
use o2chat.Db.Chats.{lookup_chat_by_id}

-- The two overloads of `to_api_format`.
abbrev pub api_message : Storage → Message → ApiMessage
api_message s msg = record {
  ts = msg.ts;
  from = (lookup_user_by_id s msg.user_from).name;
  to = (lookup_chat_by_id s msg.chat_to).name;
  msg = msg.message;
}

unfoldable pub to_api_format : Storage → List Message → List ApiMessage
to_api_format s msgs = map (api_message s) msgs

unfoldable pub to_api_format_batch : Storage → List (List Message) → List ApiMessage
unfolding to_api_format
to_api_format_batch s [] = []
to_api_format_batch s (msgs ∷ batch) = to_api_format s msgs ++ to_api_format_batch s batch

-- `std::sort` by falling time. The order of messages of one second is not specified by the standard;
-- here the earlier entry stays in front.
unfoldable pub insert_newest : Message → List Message → List Message
insert_newest m [] = m ∷ []
insert_newest m (x ∷ xs) = if leb x.ts m.ts then m ∷ x ∷ xs else x ∷ insert_newest m xs

unfoldable pub sort_newest : List Message → List Message
unfolding insert_newest
sort_newest [] = []
sort_newest (m ∷ ms) = insert_newest m (sort_newest ms)

-- `mix_from_and_to_messages`
unfoldable pub mix_from_and_to_messages : List Message → List Message → ℕ → List Message
unfolding sort_newest
mix_from_and_to_messages from to max =
    let tmp = sort_newest (from ++ to) in if leb (length tmp) max then tmp else take max tmp
