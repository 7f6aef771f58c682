-- ===== src/Db/Lookup.antt =====
-- What the lookups of server/src/inmemory_dbconn.cpp find in a storage that keeps the invariant.
use o2chat.Prelude.{
  if◌then◌else◌, ℕ, ◌<◌, true, false, List, [], ◌∷◌, map, Bytes, ◌≡◌, ◌≢◌, refl, sym, ap, ◌⊎◌, inl,
  inr, arith, ◌==◌, ==_refl, ◌=?◌, =?_refl, =?_eq, =?_ne, Bool-cases, any, select, All, All-both,
  Distinct, find?-concat_miss, select-concat_miss, find?-append_right, find?-none, find?-some,
  select_none, select-ne-nil, select-append,
}
use o2chat.Db.{Chat, User, Chatuser, Storage, no_user, has_user, has_chat}
use o2chat.Db.Users.{create_user, store_user, lookup_user_by_name, lookup_user_by_id, or_no_user}
use o2chat.Db.Chats.{lookup_chat_by_id, lookup_chats_for_user_id, or_no_chat}
use o2chat.Db.Invariant.{OwnsChat, IsValid}

-- No stored row has the next identifier.
next_user_free :
    (n : ℕ) (us : List User)
    → All (λ u. (0 < u.id) × (u.id < n)) us
    → any (λ u. u.id == n) us ≡ false
next_user_free n [] h = refl
next_user_free n (u ∷ us) (hu, h) = ground (arith, next_user_free n us h)

-- Behind a row with some name, distinct names leave no other row of that name.
name_once :
    (name : Bytes) (us : List User)
    → All (λ m. name ≢ m) (map (λ u. u.name) us)
    → any (λ u. u.name =? name) us ≡ false
name_once name [] h = refl
name_once name (u ∷ us) (hu, h) = rw (=?_ne u.name name (λ e. hu (sym e))) (name_once name us h)

select_name {κ} :
    (P : User → Type κ) (name : Bytes) (us : List User)
    → All P us
    → Distinct (map (λ u. u.name) us)
    → (select (λ u. u.name =? name) us ≡ [])
      ⊎ ((u : User) × (select (λ u. u.name =? name) us ≡ u ∷ [])
          × (u.name ≡ name)
          × (any (λ w. w.id == u.id) us ≡ true)
          × P u)
select_name P name [] h d = inl refl
select_name P name (u ∷ us) (p, h) (hu, d) = elim (Bool-cases (u.name =? name)) [
  | inl hit ↦
      let e = =?_eq u.name name hit in
      let rest = select_none (λ u. u.name =? name) us (name_once name us (rw e at hu)) in
      rw (hit, rest) (inr (u, refl, e, rw (==_refl u.id), p))
  | inr miss ↦ rw miss (elim (select_name P name us h d) [
    | inl none_there ↦ inl none_there
    | inr (w, found, named, stored, q) ↦ inr (w, found, named, ground arith, q)
  ])
]

-- A lookup by name finds one stored row at most, so the answer "more than one user with that name"
-- is not reached; a row that it finds has the name, and its positive identifier and its chat are
-- stored.
pub lookup_user_by_name_once :
    (s : Storage) (name : Bytes)
    → IsValid s
    → (lookup_user_by_name s name ≡ [])
      ⊎ ((u : User) × (lookup_user_by_name s name ≡ u ∷ [])
          × (u.name ≡ name)
          × (has_user s u.id ≡ true)
          × (0 < u.id)
          × (OwnsChat s u))
unfolding lookup_user_by_name
lookup_user_by_name_once s name v =
    elim (select_name (λ u. ((0 < u.id) × (u.id < s.user_autoincrement)) × (OwnsChat s u)) name
      s.users (All-both _ _ s.users v.user_ids v.self_chats) v.user_names_distinct) [
        | inl absent ↦ inl absent
        | inr (u, found, named, stored, facts) ↦ inr (u, found, named, stored, facts.0.0, facts.1)
      ]

-- A lookup by identifier gives the row with that identifier, which is positive, and the row's own
-- chat is stored; with no such row it gives the row with identifier 0.
pub lookup_user_by_id_cases :
    (s : Storage) (uid : ℕ)
    → IsValid s
    → ((has_user s uid ≡ false) × (lookup_user_by_id s uid ≡ no_user))
      ⊎ ((has_user s uid ≡ true)
          × ((lookup_user_by_id s uid).id ≡ uid)
          × (0 < uid)
          × (OwnsChat s (lookup_user_by_id s uid)))
unfolding lookup_user_by_id
lookup_user_by_id_cases s uid v = elim (Bool-cases (has_user s uid)) [
  | inl there ↦
      let (u, f, t, p) =
        find?-some (λ u. ((0 < u.id) × (u.id < s.user_autoincrement)) × (OwnsChat s u))
          (λ u. u.id == uid) s.users (All-both _ _ s.users v.user_ids v.self_chats) there in
      inr (there, rw (f, or_no_user) (ground arith), ground arith, rw (f, or_no_user) p.1)
  | inr absent ↦ inl (absent, rw (find?-none (λ u. u.id == uid) s.users absent, or_no_user))
]

-- What `createUser` leaves behind when no stored user has the name.
pub record Created (s : Storage) (name pass stpath : Bytes) (u : User) (t : Storage) : Type 0 where
  pub named : u.name ≡ name
  pub secret : u.password ≡ pass
  pub stored_at : u.stpath ≡ stpath
  pub numbered : 0 < u.id
  pub was_free : has_user s u.id ≡ false
  pub by_id : (n : ℕ) → lookup_user_by_id t n ≡ (if u.id == n then u else lookup_user_by_id s n)
  pub by_name :
      (m : Bytes)
      → lookup_user_by_name t m ≡ (if name =? m then u ∷ [] else lookup_user_by_name s m)
  pub own_chat : lookup_chat_by_id t u.self_chat_id ≡ record { id = u.self_chat_id; name = name }
  pub chats_of : lookup_chats_for_user_id t u.id ≡ lookup_chat_by_id t u.self_chat_id ∷ []

next_chat_free :
    (n : ℕ) (cs : List Chat)
    → All (λ c. (0 < c.id) × (c.id < n)) cs
    → any (λ c. c.id == n) cs ≡ false
next_chat_free n [] h = refl
next_chat_free n (c ∷ cs) (hc, h) = ground (arith, next_chat_free n cs h)

-- No link names a user that is not stored.
no_links :
    (s : Storage) (uid : ℕ) (ls : List Chatuser)
    → has_user s uid ≡ false
    → All (λ l. (has_chat s l.chatid ≡ true) × (has_user s l.uid ≡ true)) ls
    → any (λ l. l.uid == uid) ls ≡ false
no_links s uid [] free h = refl
no_links s uid (l ∷ ls) free ((_, stored), h) = elim (Bool-cases (l.uid == uid)) [
  | inl e ↦ let same : l.uid ≡ uid = ground arith in cc (free, stored, ap (has_user s) same)
  | inr e ↦ rw e (no_links s uid ls free h)
]

store_user-Created :
    (s : Storage) (name pass stpath : Bytes)
    → IsValid s
    → any (λ u. u.name =? name) s.users ≡ false
    → Created s name pass stpath (store_user s name pass stpath).0 (store_user s name pass stpath).1
unfolding store_user lookup_user_by_id lookup_user_by_name lookup_chats_for_user_id
    lookup_chat_by_id or_no_user or_no_chat
store_user-Created s name pass stpath v new = record {
  named = refl;
  secret = refl;
  stored_at = refl;
  numbered = v.user_counter.0;
  was_free = free;
  by_id = λ n. elim (Bool-cases (s.user_autoincrement == n)) [
    | inl e ↦
        let same : s.user_autoincrement ≡ n = ground arith in
        rw (← same) (
          rw (
            find?-append_right (λ u. u.id == s.user_autoincrement) s.users _ free,
            ==_refl s.user_autoincrement,
          ))
    | inr e ↦ rw e (ap or_no_user (find?-concat_miss (λ u. u.id == n) s.users _ e))
  ];
  by_name = λ m. elim (Bool-cases (name =? m)) [
    | inl e ↦ rw (← =?_eq name m e) (
        rw (
          select-append (λ u. u.name =? name) s.users,
          select_none (λ u. u.name =? name) s.users new,
          =?_refl name,
        ))
    | inr e ↦ rw e (select-concat_miss (λ u. u.name =? m) s.users _ e)
  ];
  own_chat = rw (
    find?-append_right (λ c. c.id == s.chat_autoincrement) s.chats _
        (next_chat_free s.chat_autoincrement s.chats v.chat_ids),
    ==_refl s.chat_autoincrement,
  );
  chats_of = rw (
    select-append (λ l. l.uid == s.user_autoincrement) s.chatuser _,
    select_none (λ l. l.uid == s.user_autoincrement) s.chatuser
        (no_links s s.user_autoincrement s.chatuser free v.links),
    ==_refl s.user_autoincrement,
  );
}
  where
    free : has_user s s.user_autoincrement ≡ false
    free = next_user_free s.user_autoincrement s.users v.user_ids

-- `createUser` refuses a name that is taken, with the row `{}` and no change; any other name it
-- stores under a new positive identifier with a chat of the same name that the user alone is in.
-- Both lookups then find the new row, and all other lookups of users answer as before.
pub create_user_lem :
    (s : Storage) (name pass stpath : Bytes)
    → IsValid s
    → ((lookup_user_by_name s name ≢ []) × (create_user s name pass stpath ≡ (no_user, s)))
      ⊎ ((lookup_user_by_name s name ≡ [])
          × Created s name pass stpath
              (create_user s name pass stpath).0
              (create_user s name pass stpath).1)
unfolding create_user lookup_user_by_name
create_user_lem s name pass stpath v = elim (Bool-cases (any (λ u. u.name =? name) s.users)) [
  | inl taken ↦ rw taken (inl (select-ne-nil (λ u. u.name =? name) s.users taken, refl))
  | inr new ↦ rw new (
      inr (
        select_none (λ u. u.name =? name) s.users new,
        store_user-Created s name pass stpath v new,
      ))
]
