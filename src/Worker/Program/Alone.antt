-- ===== src/Worker/Program/Alone.antt =====
-- server/src/database_worker.cpp: a branch that no other worker interrupts is the branch as one step.
use o2chat.Prelude.{
  ℕ, Bool, true, false, List, [], ◌∷◌, map, Bytes, ◌==◌, if◌then◌else◌, ◌≡◌, refl, ◌∙◌, inl, inr,
  Bool-cases, select,
}
use o2chat.Common.{Cmd}
use o2chat.Json.{External}
use o2chat.Responses.{ApiMessage}
use o2chat.Text.Decimal.{encrypted_pass}
use o2chat.Db.{User, Chat, Chatuser, Message, Storage}
use o2chat.Db.Users.{update_user_heart_bit, create_user, lookup_user_by_name}
use o2chat.Db.Chats.{create_chat, lookup_chat_by_name, lookup_chat_by_id, lookup_chats_for_user_id}
use o2chat.Db.Invariant.Preserved.{apply}
use o2chat.Worker.Tasks.{Task, Reply, lookup_check_pass_by_name}
use o2chat.Worker.Format.{to_api_format, to_api_format_batch}
use o2chat.Worker.{
  poll_chats, idle_replies, poll, user_status, user_history, history, message_send, message_send_to,
  message_send_chat, message_send_chat_to, user_create, user_login, chat_create, chat_adduser,
  chat_adduser_to, with_user, process, process_task,
}
use o2chat.Worker.Program.{
  Program, check_pass, check_name, chat_rows, chats_for_user, api_messages, api_batch, fetch_chats,
  poll_end, poll_program, status_program, history_program, save_program, send_to_program,
  send_program, send_chat_to_program, send_chat_program, add_to_program, add_program,
  create_program, create_chat_program, cmd_program, run_alone,
}

either_alone :
    (now : ℕ) (s : Storage) (b : Bool) (replies : List Reply) (p : Program)
    {r : Storage × List Reply}
    → run_alone now p s ≡ r
    → run_alone now (if b then Program.finished replies else p) s ≡ (if b then (s, replies) else r)
unfolding run_alone
either_alone now s true replies p h = refl
either_alone now s false replies p h = h

module _ (lib : External) (now : ℕ) (task : Task) (s : Storage) where
  check_pass_alone :
      (branch : ℕ → User → Program) (next : User → Storage × List Reply)
      → ((u : User) → run_alone now (branch now u) s ≡ next u)
      → run_alone now (check_pass lib task branch) s ≡ with_user lib task s next
  unfolding run_alone check_pass with_user
  check_pass_alone branch next h = either_alone now s _ _ _ (h _)

  check_name_alone :
      (name : Bytes) (check : Bool) (branch : ℕ → User → Program)
      (next : User → Storage × List Reply)
      → ((u : User) → run_alone now (branch now u) s ≡ next u)
      → let found = lookup_check_pass_by_name lib name task s check in
        run_alone now (check_name lib task name check branch) s
        ≡ (if found.0.id == 0 then (s, found.1) else next found.0)
  unfolding run_alone check_name
  check_name_alone name check branch next h = either_alone now s _ _ _ (h _)

module _ (now : ℕ) where
  api_messages_alone :
      (msgs : List Message) (next : List ApiMessage → Program) (s : Storage)
      → run_alone now (api_messages msgs next) s ≡ run_alone now (next (to_api_format s msgs)) s
  unfolding run_alone api_messages to_api_format
  api_messages_alone [] next s = refl
  api_messages_alone (m ∷ ms) next s = api_messages_alone ms _ s

  api_batch_alone :
      (batch : List (List Message)) (next : List ApiMessage → Program) (s : Storage)
      → run_alone now (api_batch batch next) s
        ≡ run_alone now (next (to_api_format_batch s batch)) s
  unfolding run_alone api_batch to_api_format_batch
  api_batch_alone [] next s = refl
  api_batch_alone (msgs ∷ batch) next s = api_messages_alone msgs _ s ∙ api_batch_alone batch _ s

  chat_rows_alone :
      (links : List Chatuser) (next : List Chat → Program) (s : Storage)
      → run_alone now (chat_rows (map (λ l. l.chatid) links) next) s
        ≡ run_alone now (next (map (λ l. lookup_chat_by_id s l.chatid) links)) s
  unfolding run_alone chat_rows
  chat_rows_alone [] next s = refl
  chat_rows_alone (l ∷ links) next s = chat_rows_alone links _ s

  fetch_chats_alone :
      (ts : ℕ) (chats : List Chat) (next : List (List Message) → Program) (s : Storage)
      → run_alone now (fetch_chats ts chats next) s
        ≡ run_alone now (next (poll_chats ts chats s).0) (poll_chats ts chats s).1
  unfolding run_alone fetch_chats poll_chats apply
  fetch_chats_alone ts [] next s = refl
  fetch_chats_alone ts (chat ∷ chats) next s = fetch_chats_alone ts chats _ _

  poll_end_alone :
      (task : Task) (batch : List (List Message)) (s : Storage)
      → run_alone now (poll_end task batch) s ≡ (s, idle_replies task s batch)
  unfolding run_alone poll_end idle_replies
  poll_end_alone task [] s = refl
  poll_end_alone task (msgs ∷ batch) s =
      api_batch_alone (msgs ∷ batch) (λ all. Program.finished (Reply.idle_messages all ∷ [])) s

module _ (lib : External) (now : ℕ) (task : Task) (s : Storage) where
  poll_alone : (u : User) → run_alone now (poll_program task now u) s ≡ poll now task u s
  unfolding run_alone poll_program poll chats_for_user lookup_chats_for_user_id apply
  poll_alone u =
      let seen = update_user_heart_bit s u now in
      let links = select (λ l. l.uid == u.id) seen.chatuser in
      let chats = map (λ l. lookup_chat_by_id seen l.chatid) links in
      let polled = poll_chats task.request.ts chats seen in
      chat_rows_alone now links (λ cs. fetch_chats task.request.ts cs (poll_end task)) seen
      ∙ fetch_chats_alone now task.request.ts chats (poll_end task) seen
      ∙ poll_end_alone now task polled.0 polled.1

  history_alone :
      (from to : User)
      → run_alone now (history_program task from to) s
        ≡ (s, Reply.messages (to_api_format s (history s from to task.request.count)) ∷ [])
  unfolding run_alone history_program history
  history_alone from to =
      api_messages_alone now (history s from to task.request.count)
        (λ all. Program.finished (Reply.messages all ∷ [])) s

  send_alone : (u : User) → run_alone now (send_program task u) s ≡ message_send now task u s
  unfolding run_alone send_program message_send send_to_program message_send_to save_program apply
  send_alone u = one (lookup_user_by_name s task.request.to_user)
    where
      one :
          (us : List User)
          → run_alone now (send_to_program task u now us) s ≡ message_send_to now task u s us
      one [] = refl
      one (w ∷ []) = refl
      one (_ ∷ _ ∷ _) = refl

  send_chat_alone :
      (u : User) → run_alone now (send_chat_program task u) s ≡ message_send_chat now task u s
  unfolding run_alone send_chat_program message_send_chat send_chat_to_program message_send_chat_to
      save_program apply
  send_chat_alone u = one (lookup_chat_by_name s task.request.chat_name)
    where
      one :
          (cs : List Chat)
          → run_alone now (send_chat_to_program task u now cs) s
            ≡ message_send_chat_to now task u s cs
      one [] = refl
      one (c ∷ []) = refl
      one (_ ∷ _ ∷ _) = refl

  add_alone :
      (u : User)
      → run_alone now (add_program task u) s
        ≡ chat_adduser_to u s (lookup_chat_by_name s task.request.chat_name)
  unfolding run_alone add_program add_to_program chat_adduser_to apply
  add_alone u = one (lookup_chat_by_name s task.request.chat_name)
    where
      one : (cs : List Chat) → run_alone now (add_to_program u cs) s ≡ chat_adduser_to u s cs
      one [] = refl
      one (c ∷ []) = refl
      one (_ ∷ _ ∷ _) = refl

  create_alone : run_alone now (create_program lib task) s ≡ user_create lib now task s
  unfolding run_alone create_program user_create apply
  create_alone =
      let digest = encrypted_pass lib task.request.password in
      elim (Bool-cases ((create_user s task.request.user digest task.storage).0.id == 0)) [
        | inl e ↦ rw e refl
        | inr e ↦ rw e refl
      ]

  create_chat_alone : run_alone now (create_chat_program lib task) s ≡ chat_create lib now task s
  unfolding run_alone create_chat_program chat_create apply
  create_chat_alone =
      elim (Bool-cases ((create_chat s task.request.chat_name task.request.uid).0.id == 0)) [
        | inl e ↦ rw e refl
        | inr e ↦ rw e refl
      ]

  -- The branches with a user behind the password and another one by name.
  checked_named :
      (name : Bytes) (branch : User → ℕ → User → Program)
      (next : User → User → Storage × List Reply)
      → ((u w : User) → run_alone now (branch u now w) s ≡ next u w)
      → let found = lookup_check_pass_by_name lib name task s false in
        run_alone now
          (check_pass lib task (λ _ u. check_name lib task name false (λ t w. branch u t w)))
          s
        ≡ with_user lib task s (λ u. if found.0.id == 0 then (s, found.1) else next u found.0)
  checked_named name branch next h =
      check_pass_alone lib now task s (λ _ u. check_name lib task name false (λ t w. branch u t w))
        _ (λ u. check_name_alone lib now task s name false (branch u) (next u) (h u))

  cmd_alone :
      (cmd : Cmd) → run_alone now (cmd_program lib task cmd) s ≡ process_task lib now cmd task s
  unfolding cmd_program process_task user_status user_history user_login chat_adduser status_program
      run_alone
  cmd_alone Cmd.idle = check_pass_alone lib now task s (poll_program task) _ (λ u. poll_alone u)
  cmd_alone Cmd.user_status =
      checked_named task.request.user (λ u. status_program lib) _ (λ u w. refl)
  cmd_alone Cmd.user_history =
      checked_named task.request.user (λ u t w. history_program task u w) _
        (λ u w. history_alone u w)
  cmd_alone Cmd.message_send =
      check_pass_alone lib now task s (λ _. send_program task) _ (λ u. send_alone u)
  cmd_alone Cmd.user_create = create_alone
  cmd_alone Cmd.user_login =
      check_name_alone lib now task s task.request.user true (status_program lib) _ (λ w. refl)
  cmd_alone Cmd.chat_create =
      check_pass_alone lib now task s (λ _ u. create_chat_program lib task) _
        (λ u. create_chat_alone)
  cmd_alone Cmd.chat_adduser =
      checked_named task.request.chat_adduser (λ u t w. add_program task w) _ (λ u w. add_alone w)
  cmd_alone Cmd.message_send_chat =
      check_pass_alone lib now task s (λ _. send_chat_program task) _ (λ u. send_chat_alone u)
  cmd_alone Cmd.chat_history = refl
  cmd_alone Cmd.chat_status = refl
  cmd_alone Cmd.message_recent = refl
  cmd_alone Cmd.cmd_last = refl

-- A task whose calls of the storage no other worker interrupts leaves the storage and gives the replies of
-- `process`, which takes the task in one step.
run_alone-process :
    (lib : External) (now : ℕ) (task : Task) (s : Storage)
    → run_alone now (cmd_program lib task task.cmd) s ≡ process lib now task s
unfolding process
run_alone-process lib now task s = cmd_alone lib now task s task.cmd
