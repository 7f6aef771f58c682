-- ===== src/Client/Accepted.antt =====
-- client/src/apiclient_utils.cpp and server/src/apiclient.cpp: the server accepts the bodies that the
-- client builds. The hypothesis on rapidjson is that its parser reads back what its writer wrote.
use o2chat.Prelude.{
  ℕ, ltb, true, false, [], Bytes, codes, c_str, is_empty, some, ◌≡◌, refl, ap, ◌∙◌, inl, inr, ◌=?◌,
  u32_mod,
}
use o2chat.Text.Strings.Cstr.{c_str_twice}
use o2chat.Common.{Cmd}
use o2chat.Json.{uint, string, Members, end, member, External, find_member}
use o2chat.Request.{Params, RequestDetails}
use o2chat.Api.Meta.{parse_meta, parse_document, parse_members}
use o2chat.Api.Meta.Table.{is_complete, filled, text, number}
use o2chat.Api.Meta.Complete.{parse_members_lem}
use o2chat.Client.Bodies.{build_user_pass_body, user_pass_json}

text-c_str :
    (s : Bytes) → is_empty (c_str s) ≡ false → text (some (string (c_str s))) ≡ some (c_str s)
unfolding text
text-c_str s h = rw (c_str_twice s) (rw h refl)

number_u32 : (n : ℕ) → ltb n u32_mod ≡ true → number (some (uint n)) ≡ some n
unfolding number
number_u32 n h = rw h refl

-- A complete body is read into the parameters of the table.
complete_read :
    (pass_len : ℕ) (command : Cmd) (ms : Members) (d : RequestDetails)
    → is_complete pass_len command ms ≡ true
    → parse_members pass_len command ms d ≡ ([], record d { params = filled command ms d.params })
complete_read pass_len command ms d ok = elim (parse_members_lem pass_len command ms d) [
  | inl (_, e) ↦ e
  | inr (bad, _) ↦ absurd (cc (ok, bad))
]

-- The body of a login is read as the login's name and password, if neither is empty.
login_accepted :
    (lib : External) (pass_len : ℕ) (d : RequestDetails) (user pass : Bytes)
    → lib.parse (c_str (build_user_pass_body lib user pass)) ≡ some (user_pass_json user pass)
    → is_empty (c_str user) ≡ false
    → is_empty (c_str pass) ≡ false
    → parse_meta lib pass_len d (build_user_pass_body lib user pass) Cmd.user_login
      ≡ some
          ([], record d { params = record d.params { user = c_str user; password = c_str pass } })
unfolding parse_meta parse_document user_pass_json find_member is_complete filled ◌=?◌
login_accepted lib pass_len d user pass parsed hu hp =
    let ms =
      member (codes "user") (string (c_str user))
        (member (codes "password") (string (c_str pass)) end) in
    let ok : is_complete pass_len Cmd.user_login ms ≡ true =
      rw (text-c_str user hu) (rw (text-c_str pass hp) refl) in
    rw (parsed, parse_meta)
      (ap some (complete_read pass_len Cmd.user_login ms d ok)
        ∙ rw (text-c_str user hu) (rw (text-c_str pass hp) refl))

-- Members with the four fields of a message are what the command wants, and are read as these.
pub send_filled :
    (pass_len : ℕ) (p : Params) (ms : Members) (from : ℕ) (to msg pass : Bytes)
    → find_member (codes "uid") ms ≡ some (uint from)
    → find_member (codes "to") ms ≡ some (string (c_str to))
    → find_member (codes "message") ms ≡ some (string (c_str msg))
    → find_member (codes "password") ms ≡ some (string (c_str pass))
    → ltb from u32_mod ≡ true
    → is_empty (c_str to) ≡ false
    → is_empty (c_str msg) ≡ false
    → is_empty (c_str pass) ≡ false
    → (is_complete pass_len Cmd.message_send ms ≡ true)
      × (filled Cmd.message_send ms p
          ≡ record p { uid = from; message = c_str msg; to_user = c_str to; password = c_str pass })
unfolding is_complete filled ◌=?◌
send_filled pass_len p ms from to msg pass fu ft fm fp small ht hm hp =
    let u = ap number fu ∙ number_u32 from small in
    let t = ap text ft ∙ text-c_str to ht in
    let m = ap text fm ∙ text-c_str msg hm in
    let w = ap text fp ∙ text-c_str pass hp in
    (rw w (rw u (rw m (rw t refl))), rw w (rw u (rw m (rw t refl))))
