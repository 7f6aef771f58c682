-- ===== src/Http/Socket.antt =====
-- net/client.cpp: `AsyncHttpClient` on a socket, read by read. Each handler is given the client that its read
-- leaves, and what a handler of the caller gets is the result.
pub mod Whole
use o2chat.Prelude.{
  ℕ, zero, suc, ◌+◌, ◌%◌, Bool, true, false, not, ◌&&◌, List, [], ◌∷◌, ◌++◌, Bytes, codes, is_empty,
  ◌=?◌, ◌==◌, if◌then◌else◌, Option, none, some, length, take, u64_mod,
}
use o2chat.Text.Strings.{split}
use o2chat.Text.Number.{stoul}
use o2chat.Net.Stream.{Transport, Socket, Waited, left, swap_response, wait_line, wait_bytes}
use o2chat.Http.Reply.{HttpReply, no_reply, has_header, get_header}
use o2chat.Http.Reading.{Outcome, content_zipped, first_line, parse_header_lines}

-- What the handler of the caller gets, or an exception in its place; `stuck` is for a loop that runs out of
-- fuel.
pub data ReadEnd {ℓ} (S : Type ℓ) : Type ℓ where
  failed protocol_error : HttpReply → ReadEnd S
  received : HttpReply → Socket S → ReadEnd S
  thrown stuck : ReadEnd S

-- `until` and `exactly` are the blocking reads of the connection, `inflate` is `gzipInflate`.
module _ {ℓ} {S : Type ℓ} (t : Transport S) (until : Bytes → Bytes → Option (Bytes × ℕ))
    (exactly : ℕ → Option Bytes) (inflate : Bytes → Option Bytes) where
  unfoldable pub unzipped_on : HttpReply → Socket S → Option Bytes → ReadEnd S
  unzipped_on reply c none = ReadEnd.protocol_error reply
  unzipped_on reply c (some r) = ReadEnd.received (record reply { body = r }) c

  -- `processReply`
  unfoldable pub process_reply_on : HttpReply → Socket S → ReadEnd S
  unfolding unzipped_on content_zipped
  process_reply_on reply c =
      if content_zipped reply && not (is_empty reply.body)
      then unzipped_on reply c (inflate reply.body)
      else ReadEnd.received reply c

  -- `startProcessChunk` and `processChunk` in turn, each from the wait that calls it.
  unfoldable pub process_chunks_on : ℕ → HttpReply → Socket S → ReadEnd S
  unfolding process_reply_on
  process_chunks_on zero reply c = ReadEnd.stuck
  process_chunks_on (suc fuel) reply c = elim (wait_line t until exactly (codes "\r\n") c) [
    | Waited.error ↦ ReadEnd.failed no_reply
    | Waited.thrown ↦ ReadEnd.thrown
    | Waited.text chunk_size_string c' ↦ elim (stoul 16 chunk_size_string) [
      | none ↦ ReadEnd.protocol_error reply
      | some (chunk_size, parsed) ↦
          let chunk : ReadEnd S =
            elim (wait_bytes t until exactly ((chunk_size + 2) % u64_mod) c') [
              | Waited.error ↦ ReadEnd.failed reply
              | Waited.thrown ↦ ReadEnd.thrown
              | Waited.text response c'' ↦
                  let reply' = record reply { body = reply.body ++ take chunk_size response } in
                  let more = process_chunks_on fuel reply' c'' in
                  if chunk_size == 0 then process_reply_on reply' c'' else more
            ] in
          if not (parsed == length chunk_size_string) then ReadEnd.protocol_error reply else chunk
    ]
  ]

  -- The part of `handleHeaders` behind the headers: the body.
  unfoldable pub read_body_on : HttpReply → Socket S → ReadEnd S
  unfolding process_chunks_on process_reply_on
  read_body_on reply c =
      let sized : ReadEnd S = elim (stoul 10 (get_header reply (codes "Content-Length"))) [
        | none ↦ ReadEnd.protocol_error reply
        | some (body_len, parsed) ↦ elim (wait_bytes t until exactly body_len c) [
          | Waited.error ↦ ReadEnd.failed reply
          | Waited.thrown ↦ ReadEnd.thrown
          | Waited.text response c' ↦
              process_reply_on (record reply { body = response }) (swap_response t until exactly c')
        ]
      ] in
      let chunked = process_chunks_on (suc (length (left t until exactly c))) reply c in
      if has_header reply (codes "Content-Length")
      then sized
      else if get_header reply (codes "Transfer-Encoding") =? codes "chunked"
      then chunked
      else ReadEnd.received reply c

  -- `handleHeaders` behind its reads.
  unfoldable pub handle_headers_on : Bytes → Socket S → ReadEnd S
  unfolding first_line read_body_on parse_header_lines
  handle_headers_on text c =
      let reply = record no_reply { headers = text } in
      elim (split text (codes "\r\n")) [
        | [] ↦ ReadEnd.protocol_error reply
        | [] ∷ lines ↦ ReadEnd.protocol_error reply
        | (b ∷ line) ∷ lines ↦ elim (first_line (b ∷ line) reply) [
          | none ↦ ReadEnd.protocol_error reply
          | some reply' ↦
              read_body_on
                (record reply' { parsed_headers = parse_header_lines lines reply'.parsed_headers })
                c
        ]
      ]

  -- `asyncResponse`
  unfoldable pub async_response_on : Socket S → ReadEnd S
  unfolding handle_headers_on
  async_response_on c = elim (wait_line t until exactly (codes "\r\n\r\n") c) [
    | Waited.error ↦ ReadEnd.failed no_reply
    | Waited.thrown ↦ ReadEnd.thrown
    | Waited.text text c' ↦ handle_headers_on text c'
  ]

  -- The outcome on the whole input: a message, and all bytes that are left behind it. An exception has none.
  unfoldable pub whole_outcome : ReadEnd S → Option Outcome
  whole_outcome (ReadEnd.failed reply) = some (Outcome.failed reply)
  whole_outcome (ReadEnd.protocol_error reply) = some (Outcome.protocol_error reply)
  whole_outcome (ReadEnd.received reply c) = some (Outcome.received reply (left t until exactly c))
  whole_outcome ReadEnd.thrown = none
  whole_outcome ReadEnd.stuck = some Outcome.stuck
