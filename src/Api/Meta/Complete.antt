-- ===== src/Api/Meta/Complete.antt =====
-- server/src/apiclient.cpp: which bodies `parse_meta` accepts and what it reads from them.
use o2chat.Prelude.{
  ℕ, Bool, true, false, [], Bytes, codes, is_empty, ◌&&◌, none, some, ◌⊎◌, inl, inr, ◌≡◌, refl,
  Bool-cases,
}
use o2chat.Common.{Cmd}
use o2chat.Json.{Members, find_member}
use o2chat.Request.{Params, RequestDetails}
use o2chat.Responses.{password_check}
use o2chat.Api.Meta.{
  parse_members, parse_command, parse_uid, parse_own, parse_send, parse_about, parse_chat,
  parse_account, require, find_required_string_param, min_len, set_params,
}
use o2chat.Api.Meta.Table.{text, number, filled, is_complete}
use o2chat.Api.Meta.Steps.{Verdict, string_step, uint_step, optional_step, accept, refuse}

and_false : (b : Bool) → (b && false) ≡ false
and_false true = refl
and_false false = refl

module _ (pass_len : ℕ) (ms : Members) (d : RequestDetails) where
  abbrev Correct : Cmd → Type 0
  Correct c =
      Verdict (is_complete pass_len c ms) d (filled c ms d.params) (parse_members pass_len c ms d)

  create_verdict : Correct Cmd.user_create
  unfolding is_complete filled parse_members parse_command parse_account
  create_verdict =
      string_step ms d _ _ (codes "password") _ _ (λ t. rw t refl)
        (λ p t. rw t (
          string_step ms d _ _ (codes "user") _ _ (λ t'. rw t' refl)
            (λ u t'. rw t' (elim (Bool-cases (password_check p (min_len pass_len))) [
              | inl e ↦ rw e (accept _ _)
              | inr e ↦ rw e (refuse _ _ _ refl)
            ]))))

  login_verdict : Correct Cmd.user_login
  unfolding is_complete filled parse_members parse_command parse_account
  login_verdict =
      string_step ms d _ _ (codes "password") _ _ (λ t. rw t refl)
        (λ p t.
          rw t (
            string_step ms d _ _ (codes "user") _ _ (λ t'. rw t' refl)
              (λ u t'. rw t' (accept _ _))))

  -- The commands that want a password and an identifier first.
  own-Verdict :
      (ok : Bool) (p : Params) (command : Cmd)
      → (text (find_member (codes "password") ms) ≡ none → ok ≡ false)
      → (number (find_member (codes "uid") ms) ≡ none → ok ≡ false)
      → ((password : Bytes) (uid : ℕ)
          → text (find_member (codes "password") ms) ≡ some password
          → number (find_member (codes "uid") ms) ≡ some uid
          → Verdict ok d p (
              parse_own command ms
                (set_params d (record d.params { password = password; uid = uid }))))
      → Verdict ok d p (
          require (find_required_string_param ms (codes "password")) d (λ password.
            parse_uid command ms (set_params d (record d.params { password = password }))))
  unfolding parse_uid
  own-Verdict ok p command no_password no_uid own =
      string_step ms d ok p (codes "password") _ _ no_password (λ password t.
        uint_step ms d ok p (codes "uid") _ _ no_uid (λ uid t'. own password uid t t'))

  send_verdict : Correct Cmd.message_send
  unfolding is_complete filled parse_members parse_command parse_own parse_send
  send_verdict =
      own-Verdict _ _ Cmd.message_send (λ t. rw t refl) (λ t. rw t (and_false _))
        (λ password uid t t'. rw t (
          rw t' (
            string_step ms d _ _ (codes "message") _ _ (λ u. rw u refl)
              (λ m u. rw u (
                string_step ms d _ _ (codes "to") _ _ (λ u'. rw u' refl)
                  (λ to u'. rw u' (accept _ _)))))))

  history_verdict : Correct Cmd.user_history
  unfolding is_complete filled parse_members parse_command parse_own parse_about
  history_verdict =
      own-Verdict _ _ Cmd.user_history (λ t. rw t refl) (λ t. rw t (and_false _))
        (λ password uid t t'. rw t (
          rw t' (
            string_step ms d _ _ (codes "user") _ _ (λ u. rw u refl)
              (λ m u. rw u (
                optional_step ms d _ _ (codes "count") _ _ refl (λ u'. rw u' refl)
                  (λ to u'. rw u' refl))))))

  status_verdict : Correct Cmd.user_status
  unfolding is_complete filled parse_members parse_command parse_own parse_about
  status_verdict =
      own-Verdict _ _ Cmd.user_status (λ t. rw t refl) (λ t. rw t (and_false _))
        (λ password uid t t'. rw t (
          rw t' (
            string_step ms d _ _ (codes "user") _ _ (λ u. rw u refl)
              (λ m u. rw u (
                optional_step ms d _ _ (codes "count") _ _ refl (λ u'. rw u' refl)
                  (λ to u'. rw u' refl))))))

  idle_verdict : Correct Cmd.idle
  unfolding is_complete filled parse_members parse_command parse_own
  idle_verdict =
      own-Verdict _ _ Cmd.idle (λ t. rw t refl) (λ t. rw t (and_false _))
        (λ password uid t t'. rw t (
          rw t' (
            optional_step ms d _ _ (codes "heartbit") _ _ refl (λ u'. rw u' refl)
              (λ to u'. rw u' refl))))

  send_chat_verdict : Correct Cmd.message_send_chat
  unfolding is_complete filled parse_members parse_command parse_own parse_send
  send_chat_verdict =
      own-Verdict _ _ Cmd.message_send_chat (λ t. rw t refl) (λ t. rw t (and_false _))
        (λ password uid t t'. rw t (
          rw t' (
            string_step ms d _ _ (codes "message") _ _ (λ u. rw u refl)
              (λ m u. rw u (
                string_step ms d _ _ (codes "chatname") _ _ (λ u'. rw u' refl)
                  (λ to u'. rw u' (accept _ _)))))))

  adduser_verdict : Correct Cmd.chat_adduser
  unfolding is_complete filled parse_members parse_command parse_own parse_chat
  adduser_verdict =
      own-Verdict _ _ Cmd.chat_adduser (λ t. rw t refl) (λ t. rw t (and_false _))
        (λ password uid t t'. rw t (
          rw t' (
            string_step ms d _ _ (codes "chatname") _ _ (λ u. rw u refl)
              (λ m u. rw u (
                string_step ms d _ _ (codes "adduser") _ _ (λ u'. rw u' refl)
                  (λ to u'. rw u' (accept _ _)))))))

  chat_verdict : Correct Cmd.chat_create
  unfolding is_complete filled parse_members parse_command parse_own parse_chat
  chat_verdict =
      own-Verdict _ _ Cmd.chat_create (λ t. rw t refl) (λ t. rw t (and_false _))
        (λ password uid t t'. rw t (
          rw t' (
            string_step ms d _ _ (codes "chatname") _ _ (λ u. rw u refl)
              (λ m u. rw u (accept _ _)))))

  group_verdict : Correct Cmd.chat_history
  unfolding is_complete filled parse_members parse_command parse_own
  group_verdict =
      own-Verdict _ _ Cmd.chat_history (λ t. rw t refl) (λ t. rw t (and_false _))
        (λ password uid t t'. rw t (rw t' (accept _ _)))

  chat_status_verdict : Correct Cmd.chat_status
  unfolding is_complete filled parse_members parse_command parse_own
  chat_status_verdict =
      own-Verdict _ _ Cmd.chat_status (λ t. rw t refl) (λ t. rw t (and_false _))
        (λ password uid t t'. rw t (rw t' (accept _ _)))

  recent_verdict : Correct Cmd.message_recent
  unfolding is_complete filled parse_members parse_command parse_own
  recent_verdict =
      own-Verdict _ _ Cmd.message_recent (λ t. rw t refl) (λ t. rw t (and_false _))
        (λ password uid t t'. rw t (rw t' (accept _ _)))

  last_verdict : Correct Cmd.cmd_last
  unfolding is_complete filled parse_members parse_command parse_own
  last_verdict =
      own-Verdict _ _ Cmd.cmd_last (λ t. rw t refl) (λ t. rw t (and_false _))
        (λ password uid t t'. rw t (rw t' (accept _ _)))

  verdict : (command : Cmd) → Correct command
  verdict Cmd.user_create = create_verdict
  verdict Cmd.user_login = login_verdict
  verdict Cmd.user_history = history_verdict
  verdict Cmd.user_status = status_verdict
  verdict Cmd.idle = idle_verdict
  verdict Cmd.message_send = send_verdict
  verdict Cmd.message_send_chat = send_chat_verdict
  verdict Cmd.chat_adduser = adduser_verdict
  verdict Cmd.chat_create = chat_verdict
  verdict Cmd.chat_history = group_verdict
  verdict Cmd.chat_status = chat_status_verdict
  verdict Cmd.message_recent = recent_verdict
  verdict Cmd.cmd_last = last_verdict

-- A body that is a JSON object is accepted exactly if it has what its command wants; the parameters
-- that the command reads then have the values of the body, and all others keep their old ones.
pub parse_members_lem :
    (pass_len : ℕ) (command : Cmd) (ms : Members) (d : RequestDetails)
    → ((is_complete pass_len command ms ≡ true)
        × (parse_members pass_len command ms d
            ≡ ([], record d { params = filled command ms d.params })))
      ⊎ ((is_complete pass_len command ms ≡ false)
          × (is_empty (parse_members pass_len command ms d).0 ≡ false))
unfolding Verdict
parse_members_lem pass_len command ms d = verdict pass_len ms d command
