-- ===== src/Server/Main/Rights.antt =====
-- server/src/main.cpp: when the server runs, and with which rights.
use mathlib.Core.Path.{subst}
use o2chat.Prelude.{
  ℕ, Bool, true, false, List, [], ◌∷◌, Bytes, is_empty, if◌then◌else◌, Option, none, some, ◌≡◌,
  refl, sym, arith, ap, ◌∙◌, ◌⊎◌, inl, inr, Bool-cases, all, any, any-append,
}
use o2chat.Server.Main.{
  Options, SystemCall, Deed, Host, try_calls, privilege_calls, change_to, change_process_privileges,
  drop_privileges, behind_drop, serve_or_log, main,
}

-- Whether the server runs.
abbrev pub is_run : Deed → Bool
is_run Deed.runs_server = true
is_run _ = false

all_called : (h : Host) (cs : List SystemCall) → any is_run (try_calls h cs).0 ≡ false
unfolding try_calls
all_called h [] = refl
all_called h (c ∷ cs) = elim (Bool-cases (h.succeeds c)) [
  | inl e ↦ rw e (all_called h cs)
  | inr e ↦ rw e refl
]

-- The deeds of a list of calls that all succeed.
abbrev pub called : List SystemCall → List Deed
called [] = []
called (c ∷ cs) = Deed.calls c ∷ called cs

calls_done :
    (h : Host) (cs : List SystemCall)
    → (try_calls h cs).1 ≡ true
    → ((try_calls h cs).0 ≡ called cs) × (all h.succeeds cs ≡ true)
unfolding try_calls
calls_done h [] ok = (refl, refl)
calls_done h (c ∷ cs) ok = elim (Bool-cases (h.succeeds c)) [
  | inl e ↦
      let (deeds, each) = calls_done h cs (rw e at ok) in
      rw e (ap (λ l. Deed.calls c ∷ l) deeds, each)
  | inr e ↦ absurd (cc (rw e at ok))
]

else_eq {ℓ} : {A : Type ℓ} (b : Bool) (x y : A) → b ≡ false → (if b then x else y) ≡ y
else_eq true x y e = absurd (cc e)
else_eq false x y e = refl

failed_quiet :
    (r : List Deed × Bool)
    → r.1 ≡ false
    → any is_run r.0 ≡ false
    → any is_run (behind_drop r) ≡ false
failed_quiet (deeds, dropped) failed quiet =
    rw failed (rw (any-append is_run deeds (Deed.logs_exception ∷ []), quiet) refl)

changed_lem :
    (h : Host) (name : Bytes) (found : Option (ℕ × ℕ))
    → ((change_to h name found).1 ≡ false) × (any is_run (change_to h name found).0 ≡ false)
      ⊎ ((change_to h name found).1 ≡ true)
        × ((uid gid : ℕ) × (found ≡ some (uid, gid))
            × ((change_to h name found).0 ≡ called (privilege_calls name uid gid))
            × (all h.succeeds (privilege_calls name uid gid) ≡ true))
unfolding change_to
changed_lem h name none = inl (refl, refl)
changed_lem h name (some (uid, gid)) =
    let cs = privilege_calls name uid gid in
    elim (Bool-cases (try_calls h cs).1) [
      | inl ok ↦ let (deeds, each) = calls_done h cs ok in inr (ok, (uid, gid, refl, deeds, each))
      | inr failed ↦ inl (failed, all_called h cs)
    ]

-- What was done before the server runs: nothing but to make it, or to make it and to become the named user by
-- five calls, each of which succeeded.
abbrev pub Serves : Host → Bytes → List Deed → Type 0
Serves h run_as deeds =
    ((is_empty run_as ≡ true) × (deeds ≡ Deed.makes_server ∷ Deed.runs_server ∷ []))
    ⊎ ((uid gid : ℕ) × (h.getpwnam run_as ≡ some (uid, gid))
        × (deeds
            ≡ Deed.makes_server
              ∷ Deed.calls (SystemCall.initgroups run_as gid)
              ∷ Deed.calls (SystemCall.setgid gid)
              ∷ Deed.calls (SystemCall.setegid gid)
              ∷ Deed.calls (SystemCall.setuid uid)
              ∷ Deed.calls (SystemCall.seteuid uid)
              ∷ Deed.runs_server
              ∷ [])
        × (h.succeeds (SystemCall.initgroups run_as gid) ≡ true)
        × (h.succeeds (SystemCall.setgid gid) ≡ true)
        × (h.succeeds (SystemCall.setegid gid) ≡ true)
        × (h.succeeds (SystemCall.setuid uid) ≡ true)
        × (h.succeeds (SystemCall.seteuid uid) ≡ true))

each_lem :
    (h : Host) (name : Bytes) (uid gid : ℕ)
    → all h.succeeds (privilege_calls name uid gid) ≡ true
    → (h.succeeds (SystemCall.initgroups name gid) ≡ true)
      × (h.succeeds (SystemCall.setgid gid) ≡ true)
      × (h.succeeds (SystemCall.setegid gid) ≡ true)
      × (h.succeeds (SystemCall.setuid uid) ≡ true)
      × (h.succeeds (SystemCall.seteuid uid) ≡ true)
each_lem h name uid gid each = (
  ground (arith, each),
  ground (arith, each),
  ground (arith, each),
  ground (arith, each),
  ground (arith, each),
)

serve_lem :
    (h : Host) (run_as : Bytes)
    → any is_run (serve_or_log h run_as) ≡ true
    → Serves h run_as (serve_or_log h run_as)
unfolding serve_or_log drop_privileges change_process_privileges
serve_lem h run_as ran = elim (Bool-cases h.server_made) [
  | inr unmade ↦ absurd (cc (rw (unmade, serve_or_log) at ran))
  | inl made ↦
      let whole : serve_or_log h run_as
          ≡ Deed.makes_server ∷ behind_drop (drop_privileges h run_as) =
        rw (made, serve_or_log) refl in
      elim (Bool-cases (is_empty run_as)) [
        | inl nobody ↦ inl (nobody, whole ∙ rw (nobody, drop_privileges) refl)
        | inr named ↦
            let change = change_to h run_as (h.getpwnam run_as) in
            let chosen : drop_privileges h run_as ≡ change = else_eq _ _ _ named in
            let all_deeds = whole ∙ ap (λ r. Deed.makes_server ∷ behind_drop r) chosen in
            elim (changed_lem h run_as (h.getpwnam run_as)) [
              | inl (failed, quiet) ↦
                  absurd (cc (ran, ap (any is_run) all_deeds, failed_quiet change failed quiet))
              | inr (changed, (uid, gid, found, deeds, each)) ↦
                  let (a, b, c, d, e) = each_lem h run_as uid gid each in
                  inr (
                    uid,
                    gid,
                    found,
                    all_deeds
                        ∙ ap (λ b. Deed.makes_server ∷ behind_drop (change.0, b)) changed
                        ∙ ap (λ l. Deed.makes_server ∷ behind_drop (l, true)) deeds,
                    a,
                    b,
                    c,
                    d,
                    e,
                  )
            ]
      ]
]

-- The server runs only with a certificate, and if the options name a user, only if the system knows the user, and
-- after the five calls that make the process that user's, the groups before the user, each of which succeeded:
-- a server that was to give up the rights of root does not run with them.
pub main-Serves :
    (h : Host) (opt : Options)
    → any is_run (main h (some opt)).0 ≡ true
    → (is_empty opt.sert ≡ false) × (Serves h opt.run_as (main h (some opt)).0)
unfolding main
main-Serves h opt ran = elim (Bool-cases opt.help) [
  | inl e ↦ absurd (cc (rw (e, main) at ran))
  | inr e ↦ elim (Bool-cases (is_empty opt.sert)) [
    | inl f ↦ absurd (cc (rw (e, main) at ran, f))
    | inr f ↦ (
      f,
      (let last : main h (some opt) ≡ (serve_or_log h opt.run_as, 0) =
            else_eq _ _ _ e ∙ else_eq _ _ _ f in
          subst (λ r. Serves h opt.run_as r.0) (sym last)
            (serve_lem h opt.run_as (ap (λ r. any is_run r.0) (sym last) ∙ ran))),
    )
  ]
]
