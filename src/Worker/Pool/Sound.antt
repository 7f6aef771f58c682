-- ===== src/Worker/Pool/Sound.antt =====
-- server/src/database_worker.cpp: what holds of the storage however the workers take turns.
use o2chat.Prelude.{
  ℕ, zero, suc, ◌+◌, ◌<◌, Bool, true, false, List, [], ◌∷◌, ◌++◌, length, Option, none, some, ◌≡◌,
  refl, sym, arith, All, All-mono, All-append, u64_mod,
}
use mathlib.Core.Path.{subst}
use o2chat.Common.{Cmd}
use o2chat.Json.{External}
use o2chat.Queue.{Queue, get_task}
use o2chat.Db.{Storage}
use o2chat.Db.Invariant.{IsValid}
use o2chat.Db.Invariant.Preserved.{apply-IsValid}
use o2chat.Db.Invariant.Grows.{CountersNear, apply-CountersNear}
use o2chat.Db.Invariant.Later.{Later, Later-refl, Later-trans, apply-Later}
use o2chat.Worker.Keeps.{HasRoom}
use o2chat.Worker.Tasks.{Task, status_ok}
use o2chat.Worker.Program.{Program, cmd_program, advance}
use o2chat.Worker.Program.Safe.{IsSafe, IsSafe-later, cmd-IsSafe}
use o2chat.Worker.Program.Acked.{HasSent, IsAcked, IsAcked-Later, send_message-IsAcked}
use o2chat.Worker.Pool.{
  Thread, Pool, PoolEvent, Output, run_threads, new_pool, next_task, take_turn, turn_at, pool_step,
  run_pool,
}

-- What is left of the branch that a thread is in asks for nothing that the storage does not allow, and keeps
-- the promise of its answer.
abbrev pub IsSound : Thread → Storage → Type 0
IsSound Thread.waiting s = Unit
IsSound Thread.ended s = Unit
IsSound (Thread.working task p) s = IsSafe p s × (task.cmd ≡ Cmd.message_send → IsAcked task p s)

-- The promise of an answer that was given.
abbrev pub IsKept : Storage → Output → Type 0
IsKept s (Output.took task) = Unit
IsKept s (Output.replied task replies) =
    task.cmd ≡ Cmd.message_send → replies ≡ status_ok ∷ [] → HasSent task s

-- What a step keeps: the storage is in order and only grows.
pub record Stepped (s t : Storage) : Type 0 where
  pub later : Later s t
  pub in_order : IsValid t
  pub near : CountersNear s t

IsSound-Later : (th : Thread) {s t : Storage} → Later s t → IsSound th s → IsSound th t
IsSound-Later Thread.waiting e h = tt
IsSound-Later Thread.ended e h = tt
IsSound-Later (Thread.working task p) e h =
    (IsSafe-later p e.extended h.0, λ c. IsAcked-Later task p e (h.1 c))

IsKept-Later : (o : Output) {s t : Storage} → Later s t → IsKept s o → IsKept t o
IsKept-Later (Output.took task) e h = tt
IsKept-Later (Output.replied task replies) e h = λ c ok.
    let (chatid, owner, sent) = h c ok in
    (
      chatid,
      e.owner_kept task.request.to_user chatid owner,
      e.message_kept task.request.uid chatid task.request.message sent,
    )

unmoved : (s : Storage) → IsValid s → Stepped s s
unmoved s v = record { later = Later-refl s; in_order = v; near = (omega arith, omega arith) }

begins-IsSound :
    (lib : External) (task : Task) (s : Storage)
    → IsSound (Thread.working task (cmd_program lib task task.cmd)) s
begins-IsSound lib task s = (
  cmd-IsSafe lib task task.cmd s,
  λ c.
      subst (λ cmd. IsAcked task (cmd_program lib task cmd) s) (sym c)
        (send_message-IsAcked lib task s),
)

module _ (lib : External) (now : ℕ) (need_stop : Bool) where
  next_task-IsSound :
      (stop : Bool) (found : Option (Task × Queue Task)) (q : Queue Task) (s : Storage)
      → IsValid s
      → let (th', q', s', out) = next_task lib stop found q s in
        (Stepped s s') × (IsSound th' s') × (All (IsKept s') out)
  unfolding next_task
  next_task-IsSound true found q s v = (unmoved s v, tt, tt)
  next_task-IsSound false none q s v = (unmoved s v, tt, tt)
  next_task-IsSound false (some (task, q')) q s v =
      (unmoved s v, begins-IsSound lib task s, (tt, tt))

  take_turn-IsSound :
      (th : Thread) (q : Queue Task) (s : Storage)
      → IsValid s
      → HasRoom s
      → IsSound th s
      → let (th', q', s', out) = take_turn lib now need_stop th q s in
        (Stepped s s') × (IsSound th' s') × (All (IsKept s') out)
  unfolding take_turn advance IsSafe IsAcked
  take_turn-IsSound Thread.ended q s v r h = (unmoved s v, tt, tt)
  take_turn-IsSound Thread.waiting q s v r h = next_task-IsSound need_stop (get_task q) q s v
  take_turn-IsSound (Thread.working task (Program.finished replies)) q s v r h =
      (unmoved s v, tt, (h.1, tt))
  take_turn-IsSound (Thread.working task (Program.looks next)) q s v r h =
      (unmoved s v, (h.0 now s (Later-refl s).extended v, λ c. h.1 c now s (Later-refl s) v), tt)
  take_turn-IsSound (Thread.working task (Program.changes op next)) q s v r h =
      let (allowed, rest) = h.0 now s (Later-refl s).extended v in
      (
        record {
          later = apply-Later s op v;
          in_order = apply-IsValid s op v (allowed r);
          near = apply-CountersNear s op;
        },
        (rest, λ c. h.1 c now s (Later-refl s) v),
        tt,
      )

  turn_at-IsSound :
      (i : ℕ) (ths : List Thread) (q : Queue Task) (s : Storage)
      → IsValid s
      → HasRoom s
      → All (λ th. IsSound th s) ths
      → let (ths', q', s', out) = turn_at lib now need_stop i ths q s in
        (Stepped s s') × (All (λ th. IsSound th s') ths') × (All (IsKept s') out)
  unfolding turn_at
  turn_at-IsSound i [] q s v r h = (unmoved s v, tt, tt)
  turn_at-IsSound zero (th ∷ ths) q s v r (ht, h) =
      let (stepped, sound, kept) = take_turn-IsSound th q s v r ht in
      (stepped, (sound, All-mono (λ th'. IsSound-Later th' stepped.later) ths h), kept)
  turn_at-IsSound (suc i) (th ∷ ths) q s v r (ht, h) =
      let (stepped, sound, kept) = turn_at-IsSound i ths q s v r h in
      (stepped, (IsSound-Later th stepped.later ht, sound), kept)

-- The counters of a storage are far from wrapping even after some number of calls.
pub record HasRoomFor (n : ℕ) (s : Storage) : Type 0 where
  pub users_left : s.user_autoincrement + n < u64_mod
  pub chats_left : s.chat_autoincrement + n < u64_mod

less : (n : ℕ) (s : Storage) → HasRoomFor (suc n) s → HasRoomFor n s
less n s r = record {
  users_left = omega (arith, r.users_left);
  chats_left = omega (arith, r.chats_left);
}

room : (n : ℕ) (s : Storage) → HasRoomFor (suc n) s → HasRoom s
room n s r = record {
  users_left = omega (arith, r.users_left);
  chats_left = omega (arith, r.chats_left);
}

nearer : (n : ℕ) {s t : Storage} → CountersNear s t → HasRoomFor (suc n) s → HasRoomFor n t
nearer n near r = record {
  users_left = omega (arith, near, r.users_left);
  chats_left = omega (arith, near, r.chats_left);
}

abbrev Ran : Storage → Pool × List Output → Type 0
Ran s r = (Later s r.0.storage) × (IsValid r.0.storage) × (All (IsKept r.0.storage) r.1)

run_sound :
    (lib : External) (events : List PoolEvent) (p : Pool)
    → IsValid p.storage
    → HasRoomFor (length events) p.storage
    → All (λ th. IsSound th p.storage) p.threads
    → Ran p.storage (run_pool lib p events)
unfolding run_pool pool_step
run_sound lib [] p v r h = (Later-refl p.storage, v, tt)
run_sound lib (PoolEvent.puts task ∷ events) p v r h =
    run_sound lib events _ v (less (length events) p.storage r) h
run_sound lib (PoolEvent.turns i now ∷ events) p v r h =
    let (stepped, sound, kept) =
      turn_at-IsSound lib now p.need_stop i p.threads p.queue p.storage v
        (room (length events) p.storage r) h in
    let (later, in_order, more) =
      run_sound lib events _ stepped.in_order (nearer (length events) stepped.near r) sound in
    (
      Later-trans stepped.later later,
      in_order,
      All-append _ _ _ (All-mono (λ o. IsKept-Later o later) _ kept) more,
    )
run_sound lib (PoolEvent.stops ∷ events) p v r h =
    run_sound lib events _ v (less (length events) p.storage r) h

new_threads-IsSound : (workers : ℕ) (s : Storage) → All (λ th. IsSound th s) (run_threads workers)
unfolding run_threads
new_threads-IsSound zero s = tt
new_threads-IsSound (suc workers) s = (tt, new_threads-IsSound workers s)

new_pool_sound :
    (lib : External) (workers : ℕ) (s : Storage) (events : List PoolEvent)
    → IsValid s
    → HasRoomFor (length events) s
    → Ran s (run_pool lib (new_pool workers s) events)
unfolding new_pool
new_pool_sound lib workers s events v r =
    run_sound lib events (new_pool workers s) v r (new_threads-IsSound workers s)

-- However many workers take turns, in any order, call by call, and whatever tasks come in between, a storage
-- that is in order stays in order, if its counters are not about to wrap.
pub run_pool-IsValid :
    (lib : External) (workers : ℕ) (s : Storage) (events : List PoolEvent)
    → IsValid s
    → HasRoomFor (length events) s
    → IsValid (run_pool lib (new_pool workers s) events).0.storage
run_pool-IsValid lib workers s events v r = (new_pool_sound lib workers s events v r).1

IsKept-split :
    (s : Storage) (before : List Output) (o : Output) (after : List Output)
    → All (IsKept s) (before ++ o ∷ after)
    → IsKept s o
IsKept-split s [] o after h = h.0
IsKept-split s (_ ∷ before) o after h = IsKept-split s before o after h.1

-- Whatever the workers do at the same time: when a task to send a message was answered with success, its
-- message is stored, from its user to the own chat of a user with the name that the task gives, and stays so.
pub run_pool_sent :
    (lib : External) (workers : ℕ) (s : Storage) (events : List PoolEvent) (task : Task)
    (before after : List Output)
    → IsValid s
    → HasRoomFor (length events) s
    → (run_pool lib (new_pool workers s) events).1
      ≡ before ++ Output.replied task (status_ok ∷ []) ∷ after
    → task.cmd ≡ Cmd.message_send
    → HasSent task (run_pool lib (new_pool workers s) events).0.storage
run_pool_sent lib workers s events task before after v r given cmd =
    let kept = (new_pool_sound lib workers s events v r).2 in
    IsKept-split (run_pool lib (new_pool workers s) events).0.storage before _ after
      (rw given at kept) cmd refl
