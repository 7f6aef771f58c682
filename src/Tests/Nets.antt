-- ===== src/Tests/Nets.antt =====
-- net at two addresses, the first of which refuses, and at lines that come in two parts.
use o2chat.Prelude.{ℕ, suc, zero, true, false, [], ◌∷◌, Bytes, codes, Option, some, ◌≡◌, refl}
use o2chat.Text.Strings.{cut}
use o2chat.Net.Connect.{ErrorCode, async_connect}
use o2chat.Net.First.{Ends, async_connect_lem}
use o2chat.Net.Setup.{System, TcpClient, resolve, async_connect_client}
use o2chat.Net.Setup.Endings.{Ending, async_connect_client_lem}
use o2chat.Net.Buffer.{Buffer, read_until}
use o2chat.Net.Buffer.Lines.{Divides, read_until_lem}

-- The first connect is refused, the second one is made.
abbrev refused_first : ℕ → ErrorCode
refused_first zero = ErrorCode.failed 111
refused_first (suc n) = ErrorCode.success

async_connect_lem_example :
    (ec : ErrorCode) × (o : Option ℕ) × (async_connect
        (λ (e : ℕ). ErrorCode.success)
        refused_first
        (7 ∷ 8 ∷ [])
      ≡ some (ec, o))
    × Ends (λ (e : ℕ). ErrorCode.success) refused_first 0 (7 ∷ 8 ∷ []) ec o
async_connect_lem_example =
    async_connect_lem (λ (e : ℕ). ErrorCode.success) refused_first 7 (8 ∷ [])

test_async_connect :
    async_connect (λ (e : ℕ). ErrorCode.success) refused_first (7 ∷ 8 ∷ [])
    ≡ some (ErrorCode.success, some 8)
unfolding async_connect
test_async_connect = refl

abbrev system : System ℕ
system = record {
  addresses = some (7 ∷ 8 ∷ []);
  shuffle = λ endpoints. endpoints;
  open_socket = λ e. ErrorCode.success;
  result = refused_first;
  remote = ErrorCode.success;
  remote_text = (codes "10.0.0.8", ErrorCode.success);
  local = ErrorCode.success;
  local_text = (codes "10.0.0.1", ErrorCode.success);
  handshake = ErrorCode.failed 1;
  socket_open = true;
}

abbrev client : TcpClient
client = record { is_open_mark = false; ssl = true; remote_addr = []; local_addr = [] }

async_connect_client_lem_example :
    (c' : TcpClient) × (code : ErrorCode) × (async_connect_client system client ≡ some (c', code))
    × Ending system client (resolve system) c' code
async_connect_client_lem_example =
    async_connect_client_lem system client (λ e endpoints. (e, endpoints, refl))

abbrev got : Bytes → Bytes → Option (Bytes × ℕ)
got old delimiter = some (codes "ab\r\ncd", 4)

read_until_lem_example :
    (n : ℕ) × (b' : Buffer) × (read_until got
        (codes "\r\n")
        (record { streambuf = codes "ab\r"; response = [] })
      ≡ some (n, b'))
    × Divides (codes "\r\n") (codes "ab\r") (codes "ab\r\ncd") n b'
unfolding cut
read_until_lem_example =
    read_until_lem got (codes "\r\n") (record { streambuf = codes "ab\r"; response = [] })
      (codes "ab\r\ncd") 4 refl (codes "\ncd", codes "ab", codes "cd", refl, refl, refl)
