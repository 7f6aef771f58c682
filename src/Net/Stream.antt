-- ===== src/Net/Stream.antt =====
-- net/client.cpp: `asyncRead` of `BasicTcpClient` and the conditions that it is given. `async_read_until` of
-- boost is a parameter: it appends what comes to the buffer, some bytes at a time, tries the condition on
-- the buffer, and gives up at the end or at an error of the connection.
pub mod Waits
use o2chat.Prelude.{
  ℕ, leb, Bool, true, false, [], ◌++◌, Bytes, Option, none, some, length, ◌≡◌, if◌then◌else◌,
}
use o2chat.Text.Strings.{cut}
use o2chat.Net.Buffer.{Buffer, read, read_until}

-- What a condition gives for a range: the offset of the iterator that it returns, and whether it is met.
abbrev pub Condition : Type 0
Condition = Bytes → ℕ × Bool

-- A condition that is not met gives the beginning of the range, so the next trial is from there.
abbrev pub Restarts : Condition → Type 0
Restarts condition = (s : Bytes) → (condition s).1 ≡ false → (condition s).0 ≡ 0

-- What the code relies on of `async_read_until`. `S` is the state of a connection and `pending` all bytes
-- that still come on it.
pub record Transport {ℓ} (S : Type ℓ) : Type ℓ where
  pub pending : S → Bytes
  -- The buffer and the connection when the condition is met; `none` is an error.
  pub async_read_until : Condition → Bytes → S → Option (Bytes × S)
  pub completed :
      (condition : Condition) (streambuf : Bytes) (s : S) {streambuf' : Bytes} {s' : S}
      → Restarts condition
      → async_read_until condition streambuf s ≡ some (streambuf', s')
      → (streambuf' ++ pending s' ≡ streambuf ++ pending s) × ((condition streambuf').1 ≡ true)
  pub gives_up :
      (condition : Condition) (streambuf : Bytes) (s : S)
      → Restarts condition
      → async_read_until condition streambuf s ≡ none
      → (condition (streambuf ++ pending s)).1 ≡ false

-- `contains_t`
unfoldable pub contains_t : Bytes → Condition
contains_t delimiter s = elim (cut delimiter s) [
  | none ↦ (0, false)
  | some (front, rest) ↦ (length front, true)
]

-- `exactly_t`, which nothing uses.
unfoldable pub exactly_t : ℕ → Condition
exactly_t size s = if leb size (length s) then (length s, true) else (0, false)

-- The conditions on the number of bytes in `handleHeaders` and `startProcessChunk`.
unfoldable pub has_bytes : ℕ → Condition
has_bytes size s = if leb size (length s) then (size, true) else (0, false)

-- A client with its connection.
pub record Socket {ℓ} (S : Type ℓ) : Type ℓ where
  pub buffer : Buffer
  pub connection : S

-- What a handler of `asyncRead` comes to behind its first reads: an error, an exception, or a text.
pub data Waited {ℓ} (S : Type ℓ) : Type ℓ where
  error thrown : Waited S
  text : Bytes → Socket S → Waited S

-- `until` and `exactly` are the blocking reads of the connection.
module _ {ℓ} {S : Type ℓ} (t : Transport S) (until : Bytes → Bytes → Option (Bytes × ℕ))
    (exactly : ℕ → Option Bytes) where
  -- All bytes that the client has and will have.
  abbrev pub left : Socket S → Bytes
  left c = c.buffer.streambuf ++ t.pending c.connection

  -- `asyncRead`: the client when the handler is called without an error.
  unfoldable pub async_read : Condition → Socket S → Option (Socket S)
  async_read condition c = elim (t.async_read_until condition c.buffer.streambuf c.connection) [
    | none ↦ none
    | some (streambuf, s) ↦ some (record {
      buffer = record { streambuf = streambuf; response = c.buffer.response };
      connection = s;
    })
  ]

  -- `swapResponse` with an empty string, which gets the response.
  abbrev pub swap_response : Socket S → Socket S
  swap_response c = record {
    buffer = record { streambuf = c.buffer.streambuf; response = [] };
    connection = c.connection;
  }

  -- `read_until` and `swapResponse` with an empty string.
  unfoldable pub take_line : Bytes → Socket S → Waited S
  take_line delimiter c = elim (read_until until delimiter c.buffer) [
    | none ↦ Waited.thrown
    | some (n, b) ↦
        Waited.text b.response (swap_response (record { buffer = b; connection = c.connection }))
  ]

  -- `read`, and the response.
  unfoldable pub take_bytes : ℕ → Socket S → Waited S
  take_bytes size c = elim (read exactly size c.buffer) [
    | none ↦ Waited.thrown
    | some (n, b) ↦ Waited.text b.response (record { buffer = b; connection = c.connection })
  ]

  -- The reads of `asyncResponse` and `handleHeaders`, and those of `startProcessChunk`: wait for a
  -- delimiter, then take the text in front of it.
  unfoldable pub wait_line : Bytes → Socket S → Waited S
  unfolding async_read take_line contains_t
  wait_line delimiter c = elim (async_read (contains_t delimiter) c) [
    | none ↦ Waited.error
    | some c' ↦ take_line delimiter c'
  ]

  -- The reads of a body or a chunk: wait for a number of bytes, then take them.
  unfoldable pub wait_bytes : ℕ → Socket S → Waited S
  unfolding async_read take_bytes has_bytes
  wait_bytes size c = elim (async_read (has_bytes size) c) [
    | none ↦ Waited.error
    | some c' ↦ take_bytes size c'
  ]
