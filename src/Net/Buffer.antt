-- ===== src/Net/Buffer.antt =====
-- net/client.cpp: the blocking reads and the write of `BasicTcpClient`. The results of the calls of the
-- system are parameters. An exception, for an error or a timeout, is `none`; what the buffer has then is
-- not modelled.
pub mod Lines
use o2chat.Prelude.{
  ℕ, zero, suc, ◌+◌, ◌-◌, ltb, Bool, true, false, not, List, [], ◌∷◌, ◌++◌, Bytes, is_empty, ◌==◌,
  if◌then◌else◌, Option, none, some, length, take, drop,
}
use o2chat.Text.Strings.{cut}
use o2chat.Net.Connect.{ErrorCode, is_error}

-- `m_Streambuf` and `m_Response`.
pub record Buffer : Type 0 where
  pub streambuf : Bytes
  pub response : Bytes

-- `read`: the result and the buffer. `exactly` is what a read of that many bytes from the connection gives.
unfoldable pub read : (ℕ → Option Bytes) → ℕ → Buffer → Option (ℕ × Buffer)
read exactly need_bytes b =
    let already = take need_bytes b.streambuf in
    let rest = drop need_bytes b.streambuf in
    if length already == need_bytes
    then some (need_bytes, record { streambuf = rest; response = already })
    else elim (exactly (need_bytes - length already)) [
      | none ↦ none
      | some more ↦ some (need_bytes, record { streambuf = rest; response = already ++ more })
    ]

-- The part of `read_until` behind the search in the buffer. `until` is what the read of the connection up
-- to a delimiter makes of the buffer, and the number of bytes up to the end of the delimiter.
unfoldable pub read_more :
    (Bytes → Bytes → Option (Bytes × ℕ)) → Bytes → Buffer → Option (ℕ × Buffer)
read_more until delimiter b = elim (until b.streambuf delimiter) [
  | none ↦ none
  | some (streambuf, bytes) ↦ some (
    bytes,
    record {
      streambuf = drop bytes streambuf;
      response = take (bytes - length delimiter) streambuf;
    },
  )
]

-- `read_until`
unfoldable pub read_until :
    (Bytes → Bytes → Option (Bytes × ℕ)) → Bytes → Buffer → Option (ℕ × Buffer)
unfolding cut read_more
read_until until delimiter b =
    let found : Option (Bytes × Bytes) =
      if is_empty b.streambuf then none else cut delimiter b.streambuf in
    elim found [
      | none ↦ read_more until delimiter b
      | some (line, rest) ↦ some (length line, record { streambuf = rest; response = line })
    ]

-- The loop of `write`, on what is left and what was written. `write_some` is the call of the system on the
-- bytes at an offset.
unfoldable pub write_loop : (ℕ → Bytes → ErrorCode × ℕ) → ℕ → ℕ → Bytes → Bytes → Option (ℕ × Bytes)
write_loop write_some zero bytes [] sent = some (bytes, sent)
write_loop write_some zero bytes (c ∷ str) sent = none
write_loop write_some (suc fuel) bytes [] sent = some (bytes, sent)
write_loop write_some (suc fuel) bytes (c ∷ str) sent =
    let (ec, w) = write_some bytes (c ∷ str) in
    let rest =
      write_loop write_some fuel (bytes + w) (drop w (c ∷ str)) (sent ++ take w (c ∷ str)) in
    if is_error ec then none else rest

-- `write`, with the bytes that were written.
unfoldable pub write : (ℕ → Bytes → ErrorCode × ℕ) → Bytes → Option (ℕ × Bytes)
unfolding write_loop
write write_some str = write_loop write_some (length str) 0 str []
