-- ===== src/Db/Invariant/UserRows.antt =====
-- The operations of server/src/inmemory_dbconn.cpp on users keep the invariant of the storage.
use mathlib.Core.List.{map-append}
use o2chat.Prelude.{
  ◌&&◌, ℕ, ◌+◌, ◌<◌, Bool, true, false, List, [], ◌∷◌, ◌++◌, map, Bytes, ◌≡◌, ◌≢◌, refl, ap, ◌∙◌,
  inl, inr, arith, ◌==◌, ==_refl, ◌=?◌, Bool-cases, any, All, All-append, All-mono, All-map,
  Distinct-concat, any-append_left, any-concat_self, All-of_any-false, =?_false, inc64_lem, u64_mod,
}
use o2chat.Db.{Chat, User, Storage, has_chat}
use o2chat.Db.Users.{update_user_heart_bit, set_heartbit, create_user, store_user}
use o2chat.Db.Invariant.{
  IsValid, Extends, links_mono, messages_mono, self_chats_mono, ids_grow, chat_ids_grow, fresh_user,
  fresh_chat,
}

module _ {ℓ} {B : Type ℓ} (f : User → B) (uid ts : ℕ) where
  -- A projection that does not read the heartbit does not see the update.
  map-set_heartbit :
      ((u : User) → f (record u { heartbit = ts }) ≡ f u)
      → (us : List User) → map f (set_heartbit uid ts us) ≡ map f us
  unfolding set_heartbit
  map-set_heartbit h [] = refl
  map-set_heartbit h (u ∷ us) = elim (Bool-cases (u.id == uid)) [
    | inl e ↦ rw e (ap (λ b. b ∷ map f us) (h u))
    | inr e ↦ rw e (ap (◌∷◌ (f u)) (map-set_heartbit h us))
  ]

pub any-set_heartbit :
    (p : ℕ → Bool) (uid ts : ℕ) (us : List User)
    → any (λ u. p u.id) (set_heartbit uid ts us) ≡ any (λ u. p u.id) us
unfolding set_heartbit
any-set_heartbit p uid ts [] = refl
any-set_heartbit p uid ts (u ∷ us) = ground (arith, any-set_heartbit p uid ts us)

All-set_heartbit {κ} :
    (P : User → Type κ) (uid ts : ℕ)
    → ((u : User) → P u → P (record u { heartbit = ts }))
    → (us : List User) → All P us
    → All P (set_heartbit uid ts us)
unfolding set_heartbit
All-set_heartbit P uid ts h [] a = tt
All-set_heartbit P uid ts h (u ∷ us) (p, a) = elim (Bool-cases (u.id == uid)) [
  | inl e ↦ rw e (h u p, a)
  | inr e ↦ rw e (p, All-set_heartbit P uid ts h us a)
]

pub heart_bit-IsValid :
    (s : Storage) (user : User) (ts : ℕ) → IsValid s → IsValid (update_user_heart_bit s user ts)
unfolding update_user_heart_bit
heart_bit-IsValid s user ts v = record {
  user_ids = All-set_heartbit _ user.id ts (λ u p. p) s.users v.user_ids;
  chat_ids = v.chat_ids;
  user_counter = v.user_counter;
  user_ids_distinct =
      rw (map-set_heartbit (λ u. u.id) user.id ts (λ u. refl) s.users) v.user_ids_distinct;
  chat_ids_distinct = v.chat_ids_distinct;
  user_names_distinct =
      rw (map-set_heartbit (λ u. u.name) user.id ts (λ u. refl) s.users) v.user_names_distinct;
  links = links_mono kept s.chatuser v.links;
  self_chats = All-set_heartbit _ user.id ts (λ u p. p) s.users v.self_chats;
  message_keys = messages_mono kept s.messages v.message_keys;
}
  where
    kept : Extends s (record s { users = set_heartbit user.id ts s.users })
    kept = record {
      chat_kept = λ n h. h;
      user_kept = λ n h. any-set_heartbit (λ k. k == n) user.id ts s.users ∙ h;
      link_kept = λ c u h. h;
    }

-- Rows are only appended.
pub chats_appended :
    (s : Storage) (c : Chat) (n : ℕ)
    → has_chat s n ≡ true
    → any (λ x. x.id == n) (s.chats ++ c ∷ []) ≡ true
chats_appended s c n h = any-append_left (λ x. x.id == n) s.chats (c ∷ []) h

module _ (s : Storage) (name pass stpath : Bytes) (v : IsValid s) where
  pub store_user-Extends : Extends s (store_user s name pass stpath).1
  unfolding store_user
  store_user-Extends = record {
    chat_kept = λ n h. chats_appended s _ n h;
    user_kept = λ n h. any-append_left (λ u. u.id == n) s.users _ h;
    link_kept = λ c u h. any-append_left (λ l. l.chatid == c && l.uid == u) s.chatuser _ h;
  }

  store_user-IsValid :
      any (λ u. u.name =? name) s.users ≡ false
      → s.user_autoincrement + 1 < u64_mod
      → s.chat_autoincrement + 1 < u64_mod
      → IsValid (store_user s name pass stpath).1
  unfolding store_user
  store_user-IsValid new hu hc =
      let eu = inc64_lem s.user_autoincrement hu in
      let ec = inc64_lem s.chat_autoincrement hc in
      let t = (store_user s name pass stpath).1 in
      let has_new_chat =
        any-concat_self (λ c. c.id == s.chat_autoincrement) s.chats
          (record { id = s.chat_autoincrement; name = name }) (==_refl s.chat_autoincrement) in
      record {
        user_ids =
            All-append _ s.users _ (ids_grow (omega (arith, eu)) s.users v.user_ids)
              ((v.user_counter.0, omega (arith, eu)), tt);
        chat_ids =
            All-append _ s.chats _ (chat_ids_grow (omega (arith, ec)) s.chats v.chat_ids)
              ((v.user_counter.1, omega (arith, ec)), tt);
        user_counter = (omega (arith, eu), omega (arith, ec));
        user_ids_distinct = rw (map-append (λ (u : User). u.id)) (
            Distinct-concat _ _ v.user_ids_distinct
              (fresh_user s.user_autoincrement s.users v.user_ids));
        chat_ids_distinct = rw (map-append (λ (c : Chat). c.id)) (
            Distinct-concat _ _ v.chat_ids_distinct
              (fresh_chat s.chat_autoincrement s.chats v.chat_ids));
        user_names_distinct = rw (map-append (λ (u : User). u.name)) (
            Distinct-concat _ _ v.user_names_distinct (
              All-map (λ m. m ≢ name) (λ u. u.name) s.users
                (All-mono (λ u h. =?_false u.name name h) s.users
                  (All-of_any-false (λ u. u.name =? name) s.users new))));
        links = All-append _ s.chatuser _ (links_mono store_user-Extends s.chatuser v.links) (
          (
            has_new_chat,
            any-concat_self (λ u. u.id == s.user_autoincrement) s.users _
                (==_refl s.user_autoincrement),
          ),
          tt,
        );
        self_chats =
            All-append _ s.users _ (self_chats_mono store_user-Extends s.users v.self_chats) (
              (
                has_new_chat,
                any-concat_self
                    (λ l. l.chatid == s.chat_autoincrement && l.uid == s.user_autoincrement)
                    s.chatuser _ (rw (==_refl s.chat_autoincrement, ==_refl s.user_autoincrement)),
              ),
              tt,
            );
        message_keys = messages_mono store_user-Extends s.messages v.message_keys;
      }

  pub create_user-IsValid :
      s.user_autoincrement + 1 < u64_mod
      → s.chat_autoincrement + 1 < u64_mod
      → IsValid (create_user s name pass stpath).1
  unfolding create_user
  create_user-IsValid hu hc = elim (Bool-cases (any (λ u. u.name =? name) s.users)) [
    | inl taken ↦ rw taken v
    | inr new ↦ rw new (store_user-IsValid new hu hc)
  ]
