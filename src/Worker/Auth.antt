-- ===== src/Worker/Auth.antt =====
-- The password check that begins the branches of `processQueue` in server/src/database_worker.cpp.
use o2chat.Prelude.{
  ℕ, ◌<◌, Bool, true, false, List, [], ◌∷◌, Bytes, ◌≡◌, ◌≢◌, refl, inl, inr, arith, ◌==◌, ◌=?◌,
  =?_eq, =?_iff, sym, =?_false, Bool-cases,
}
use o2chat.Json.{External}
use o2chat.Text.Decimal.{encrypted_pass}
use o2chat.Db.{User, no_user, Storage, has_user}
use o2chat.Db.Users.{lookup_user_by_name, lookup_user_by_id}
use o2chat.Db.Invariant.{OwnsChat, IsValid}
use o2chat.Db.Lookup.{lookup_user_by_id_cases, lookup_user_by_name_once}
use o2chat.Worker.Tasks.{
  Task, Reply, err_no_user, err_password, err_unknown_name, lookup_check_pass, check_found,
  lookup_check_pass_by_name,
}
use o2chat.Worker.{with_user}

-- What a branch knows of the user behind the check.
pub record IsAccepted (lib : External) (task : Task) (s : Storage) (u : User) : Type 0 where
  pub looked_up : u ≡ lookup_user_by_id s task.request.uid
  pub numbered : u.id ≡ task.request.uid
  pub positive : 0 < u.id
  pub is_stored : has_user s u.id ≡ true
  pub own_chat : OwnsChat s u
  pub secret : encrypted_pass lib task.request.password ≡ u.password

-- The outcome of `lookup_check_pass`.
pub data Checked (lib : External) (task : Task) (s : Storage) : Type 0 where
  unknown :
      has_user s task.request.uid ≡ false
      → lookup_check_pass lib task s ≡ (no_user, err_no_user ∷ [])
      → Checked lib task s
  refused :
      has_user s task.request.uid ≡ true
      → encrypted_pass lib task.request.password ≢ (lookup_user_by_id s task.request.uid).password
      → lookup_check_pass lib task s ≡ (no_user, err_password ∷ [])
      → Checked lib task s
  accepted :
      IsAccepted lib task s (lookup_user_by_id s task.request.uid)
      → lookup_check_pass lib task s ≡ (lookup_user_by_id s task.request.uid, [])
      → Checked lib task s

pub not_zero : (n : ℕ) → 0 < n → (n == 0) ≡ false
not_zero n h = ground arith

pub checked : (lib : External) (task : Task) (s : Storage) → IsValid s → Checked lib task s
unfolding lookup_check_pass
checked lib task s v = elim (lookup_user_by_id_cases s task.request.uid v) [
  | inl (absent, e) ↦ Checked.unknown absent (rw (e, lookup_check_pass))
  | inr (there, numbered, positive, own) ↦
      let user = lookup_user_by_id s task.request.uid in
      let found : (user.id == 0) ≡ false = ground arith in
      elim (Bool-cases (encrypted_pass lib task.request.password =? user.password)) [
        | inl same ↦
            Checked.accepted
              (record {
                looked_up = refl;
                numbered = numbered;
                positive = omega arith;
                is_stored = rw numbered there;
                own_chat = own;
                secret = =?_eq _ _ same;
              })
              (rw (found, same))
        | inr differs ↦ Checked.refused there (=?_false _ _ differs) (rw (found, differs))
      ]
]

-- What holds of both refusals and of the branch holds of a branch behind the check.
pub with_user_cases {ℓ} :
    (P : Storage × List Reply → Type ℓ) (lib : External) (task : Task) (s : Storage)
    (branch : User → Storage × List Reply)
    → IsValid s
    → P (s, err_no_user ∷ [])
    → P (s, err_password ∷ [])
    → ((u : User) → IsAccepted lib task s u → P (branch u))
    → P (with_user lib task s branch)
unfolding with_user
with_user_cases P lib task s branch v absent wrong right = elim (checked lib task s v) [
  | Checked.unknown _ e ↦ rw (e, with_user) absent
  | Checked.refused _ _ e ↦ rw (e, with_user) wrong
  | Checked.accepted a e ↦
      let nonzero = not_zero (lookup_user_by_id s task.request.uid).id a.positive in
      rw (e, with_user, nonzero) (right (lookup_user_by_id s task.request.uid) a)
]

-- Behind an accepted check the branch runs on the user's row.
pub with_user_accepted :
    (lib : External) (task : Task) (s : Storage) (branch : User → Storage × List Reply) {u : User}
    → IsAccepted lib task s u
    → with_user lib task s branch ≡ branch u
unfolding with_user lookup_check_pass
with_user_accepted lib task s branch {u} a =
    let found : lookup_user_by_id s task.request.uid ≡ u = sym a.looked_up in
    let nonzero : (u.id == 0) ≡ false = not_zero u.id a.positive in
    let same : (encrypted_pass lib task.request.password =? u.password) ≡ true =
      (=?_iff _ _).1 a.secret in
    rw (found, nonzero, same, nonzero)

-- What a branch knows of a user that it found by name.
pub record IsFound (s : Storage) (name : Bytes) (u : User) : Type 0 where
  pub alone : lookup_user_by_name s name ≡ u ∷ []
  pub named : u.name ≡ name
  pub is_stored : has_user s u.id ≡ true
  pub positive : 0 < u.id
  pub own_chat : OwnsChat s u

-- The outcome of `lookup_check_pass_by_name`.
pub data CheckedName (lib : External) (name : Bytes) (task : Task) (s : Storage) (check : Bool)
    : Type 0 where
  missing :
      lookup_user_by_name s name ≡ []
      → lookup_check_pass_by_name lib name task s check ≡ (no_user, err_unknown_name ∷ [])
      → CheckedName lib name task s check
  refused :
      (u : User)
      → IsFound s name u
      → check ≡ true
      → encrypted_pass lib task.request.password ≢ u.password
      → lookup_check_pass_by_name lib name task s check ≡ (no_user, err_password ∷ [])
      → CheckedName lib name task s check
  found :
      (u : User)
      → IsFound s name u
      → (check ≡ true → encrypted_pass lib task.request.password ≡ u.password)
      → lookup_check_pass_by_name lib name task s check ≡ (u, [])
      → CheckedName lib name task s check

check_found_one :
    (lib : External) (name : Bytes) (task : Task) (s : Storage) (check : Bool) (u : User)
    → IsFound s name u
    → CheckedName lib name task s check
unfolding lookup_check_pass_by_name check_found
check_found_one lib name task s false u f =
    CheckedName.found u f (λ e. cc) (rw (f.alone, check_found))
check_found_one lib name task s true u f =
    elim (Bool-cases (encrypted_pass lib task.request.password =? u.password)) [
      | inl same ↦ CheckedName.found u f (λ _. =?_eq _ _ same) (rw (f.alone, check_found, same))
      | inr differs ↦
          CheckedName.refused u f refl (=?_false _ _ differs) (rw (f.alone, check_found, differs))
    ]

pub checked_name :
    (lib : External) (name : Bytes) (task : Task) (s : Storage) (check : Bool)
    → IsValid s
    → CheckedName lib name task s check
unfolding lookup_check_pass_by_name check_found
checked_name lib name task s check v = elim (lookup_user_by_name_once s name v) [
  | inl absent ↦ CheckedName.missing absent (rw (absent, check_found))
  | inr (u, alone, named, stored, positive, own) ↦ check_found_one lib name task s check u (record {
    alone = alone;
    named = named;
    is_stored = stored;
    positive = positive;
    own_chat = own;
  })
]
