-- ===== src/Server/Main.antt =====
-- server/src/main.cpp, and `change_process_privileges` of common/utils.cpp: from the command line to the running
-- server. What the options parse to, whether the server can be made, and the answers of the system are
-- parameters.
pub mod Rights
use o2chat.Prelude.{
  ℕ, Bool, true, false, not, ◌&&◌, ◌||◌, List, [], ◌∷◌, ◌++◌, Bytes, is_empty, if◌then◌else◌,
  Option, none, some, ◌≡◌, ◌≢◌, refl, sym, ap, ◌⊎◌, inl, inr, Bool-cases, any, any-append,
}

-- The options that `main` reads.
pub record Options : Type 0 where
  pub help : Bool
  pub port : ℕ
  pub sert : Bytes
  pub run_as : Bytes
  pub io_workers : ℕ

-- The calls that give up the rights of root.
pub data SystemCall : Type 0 where
  initgroups : Bytes → ℕ → SystemCall
  setgid setegid setuid seteuid : ℕ → SystemCall

-- What `main` does that others see. `refuses` is the exit of `check_config_or_die`.
pub data Deed : Type 0 where
  prints_usage refuses makes_server runs_server logs_exception : Deed
  calls : SystemCall → Deed

-- What the system gives: the numbers of a user and their group, and whether a call succeeds; and whether the
-- constructor of `Server` throws no exception.
pub record Host : Type 0 where
  pub getpwnam : Bytes → Option (ℕ × ℕ)
  pub succeeds : SystemCall → Bool
  pub server_made : Bool

-- Calls until one fails; `false` is an exception.
unfoldable pub try_calls : Host → List SystemCall → List Deed × Bool
try_calls h [] = ([], true)
try_calls h (c ∷ cs) =
    let rest = try_calls h cs in
    if h.succeeds c then (Deed.calls c ∷ rest.0, rest.1) else (Deed.calls c ∷ [], false)

-- The five calls of `change_process_privileges`, in its order.
abbrev pub privilege_calls : Bytes → ℕ → ℕ → List SystemCall
privilege_calls name uid gid =
    SystemCall.initgroups name gid
    ∷ SystemCall.setgid gid
    ∷ SystemCall.setegid gid
    ∷ SystemCall.setuid uid
    ∷ SystemCall.seteuid uid
    ∷ []

unfoldable pub change_to : Host → Bytes → Option (ℕ × ℕ) → List Deed × Bool
unfolding try_calls
change_to h in_username none = ([], false)
change_to h in_username (some (uid, gid)) = try_calls h (privilege_calls in_username uid gid)

-- `change_process_privileges`
unfoldable pub change_process_privileges : Host → Bytes → List Deed × Bool
unfolding change_to
change_process_privileges h in_username = change_to h in_username (h.getpwnam in_username)

-- `drop_privileges`
unfoldable pub drop_privileges : Host → Bytes → List Deed × Bool
unfolding change_process_privileges
drop_privileges h run_as =
    if is_empty run_as then ([], true) else change_process_privileges h run_as

-- The second block of `try` with its handler, behind `drop_privileges`.
abbrev pub behind_drop : List Deed × Bool → List Deed
behind_drop (deeds, dropped) =
    deeds ++ (if dropped then Deed.runs_server ∷ [] else Deed.logs_exception ∷ [])

unfoldable pub serve_or_log : Host → Bytes → List Deed
unfolding drop_privileges
serve_or_log h run_as =
    let behind = behind_drop (drop_privileges h run_as) in
    if h.server_made then Deed.makes_server ∷ behind else Deed.logs_exception ∷ []

-- `main`: what it does, and its exit status. The options are `none` if they do not parse; -1 is 255.
unfoldable pub main : Host → Option Options → List Deed × ℕ
unfolding serve_or_log
main h none = ([], 255)
main h (some opt) =
    if opt.help
    then (Deed.prints_usage ∷ [], 0)
    else if is_empty opt.sert
    then (Deed.refuses ∷ [], 255)
    else (serve_or_log h opt.run_as, 0)
