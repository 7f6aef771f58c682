-- ===== src/Worker/Accounts.antt =====
-- Accounts and messages from one request to the next, over the branches of `processQueue` in
-- server/src/database_worker.cpp.
use o2chat.Prelude.{
  if◌then◌else◌, Bool-cases, ℕ, [], ◌∷◌, Bytes, codes, ◌≡◌, ◌≢◌, ap, ◌∙◌, ◌⊎◌, inl, inr, ◌=?◌,
  =?_refl,
}
use o2chat.Common.{Cmd, ApiStatusCode}
use o2chat.Json.{External}
use o2chat.Text.Decimal.{encrypted_pass}
use o2chat.Responses.{ok_body_user}
use o2chat.Db.{User, Storage}
use o2chat.Db.Users.{create_user, lookup_user_by_name}
use o2chat.Db.Invariant.{IsValid}
use o2chat.Db.Lookup.{Created, create_user_lem}
use o2chat.Worker.Tasks.{Task, Reply, lookup_check_pass_by_name, check_found, err_password}
use o2chat.Worker.Replies.{found_nonzero}
use o2chat.Worker.{process, process_task, user_create, user_login}

abbrev pub err_taken : Reply
err_taken = Reply.error 409 ApiStatusCode.err_constraint (codes "user already exists")

pub at_cmd :
    (lib : External) (now : ℕ) (task : Task) (s : Storage) {cmd : Cmd}
    → task.cmd ≡ cmd
    → process lib now task s ≡ process_task lib now cmd task s
unfolding process
at_cmd lib now task s e = ap (λ c. process_task lib now c task s) e

module _ (lib : External) (now later : ℕ) (create login : Task) (s : Storage) where
  abbrev pub digest : Bytes
  digest = encrypted_pass lib create.request.password

  -- The outcome of the branch `USER_CREATE`.
  create_cases :
      IsValid s
      → ((lookup_user_by_name s create.request.user ≢ [])
          × (user_create lib now create s ≡ (s, err_taken ∷ [])))
        ⊎ ((lookup_user_by_name s create.request.user ≡ [])
            × ((u : User) × (t : Storage) × Created s create.request.user digest create.storage u t
                × (user_create lib now create s ≡ (t, Reply.ok (ok_body_user lib now u) ∷ []))))
  unfolding user_create
  create_cases v = elim (create_user_lem s create.request.user digest create.storage v) [
    | inl (taken, e) ↦ inl (taken, rw (e, user_create))
    | inr (free, c) ↦
        let created = create_user s create.request.user digest create.storage in
        inr (free, (created.0, created.1, c, rw (found_nonzero created.0 c.numbered)))
  ]

  -- The outcome of the branch `USER_LOGIN` behind a registration.
  login_cases :
      (u : User) (t : Storage)
      → login.request.user ≡ create.request.user
      → Created s create.request.user digest create.storage u t
      → user_login lib later login t ≡ (
        t,
        (if encrypted_pass lib login.request.password =? digest
              then Reply.ok (ok_body_user lib later u)
              else err_password)
            ∷ [],
      )
  unfolding user_login lookup_check_pass_by_name check_found
  login_cases u t same c =
      let by_name : lookup_user_by_name t login.request.user ≡ u ∷ [] =
        rw (same, c.by_name create.request.user, =?_refl create.request.user) in
      elim (Bool-cases (encrypted_pass lib login.request.password =? digest)) [
        | inl e ↦ rw (by_name, check_found, c.secret, e, found_nonzero u c.numbered)
        | inr e ↦ rw (by_name, check_found, c.secret, e)
      ]

  -- A registration under a taken name changes nothing and is answered with the error 409. Under a
  -- free name it stores a new user and answers with that user's row; a login by that name then
  -- succeeds with the same row if its password has the same digest, fails with the error 403 if not,
  -- and changes nothing in either case.
  pub register_login :
      IsValid s
      → create.cmd ≡ Cmd.user_create
      → login.cmd ≡ Cmd.user_login
      → login.request.user ≡ create.request.user
      → ((lookup_user_by_name s create.request.user ≢ [])
          × (process lib now create s ≡ (s, err_taken ∷ [])))
        ⊎ ((lookup_user_by_name s create.request.user ≡ [])
            × ((u : User) × (t : Storage) × Created s create.request.user digest create.storage u t
                × (process lib now create s ≡ (t, Reply.ok (ok_body_user lib now u) ∷ []))
                × (process lib later login t ≡ (
                  t,
                  (if encrypted_pass lib login.request.password =? digest
                        then Reply.ok (ok_body_user lib later u)
                        else err_password)
                      ∷ [],
                ))))
  unfolding process_task
  register_login v is_create is_login same = elim (create_cases v) [
    | inl (taken, e) ↦ inl (taken, at_cmd lib now create s is_create ∙ e)
    | inr (free, (u, t, c, e)) ↦ inr (
      free,
      (
        u,
        t,
        c,
        at_cmd lib now create s is_create ∙ e,
        at_cmd lib later login t is_login ∙ login_cases u t same c,
      ),
    )
  ]
