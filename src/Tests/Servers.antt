-- ===== src/Tests/Servers.antt =====
-- server/src/server.cpp and server/src/main.cpp at a small server.
use o2chat.Prelude.{
  ℕ, ◌+◌, true, false, [], ◌∷◌, codes, is_empty, some, ◌≡◌, refl, arith, length, ◌==◌,
}
use o2chat.Server.{Server, new_server, run_server, on_accepts, returns, run_stopped}
use o2chat.Server.Accepts.{Serves, connected, serves_lem}
use o2chat.Server.Stopping.{returns_lem}
use o2chat.Server.Main.{Options, Host, main}
use o2chat.Server.Main.Rights.{is_run, main-Serves}
use o2chat.Server.Main.Rights

abbrev rand : ℕ → ℕ × ℕ
rand seed = (seed + 5, seed + 1)

serves_lem_example :
    (s s' : Server) × (run_server rand (new_server 8) ≡ some s)
    × (on_accepts rand s ((false, false) ∷ (true, false) ∷ (false, true) ∷ []) ≡ some s')
    × (Serves 8 s')
    × (length s'.served ≡ connected ((false, false) ∷ (true, false) ∷ (false, true) ∷ []))
serves_lem_example =
    serves_lem rand 8 ((false, false) ∷ (true, false) ∷ (false, true) ∷ []) (omega arith)

returns_lem_example :
    (s : Server) × (run_stopped rand 3 5 (new_server (3 + 5)) ≡ some s) × (returns s ≡ (5 == 0))
returns_lem_example = returns_lem rand 3 5 (omega arith)

abbrev options : Options
options = record {
  help = false;
  port = 7788;
  sert = codes "server.pem";
  run_as = codes "chat";
  io_workers = 8;
}

abbrev host : Host
host = record { getpwnam = λ name. some (1001, 100); succeeds = λ call. true; server_made = true }

main-Serves_example :
    (is_empty (codes "server.pem") ≡ false)
    × (Rights.Serves host (codes "chat") (main host (some options)).0)
unfolding main
main-Serves_example = main-Serves host options refl
