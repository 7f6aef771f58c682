-- ===== src/Http/Reading.antt =====
-- net/client.cpp: how `AsyncHttpClient` reads a message. A read of the connection is given all bytes
-- that the other side sends before the connection ends or fails; the conditions of `asyncRead` are
-- met by a part of them or never, and what is behind a message stays in the buffer.
use o2chat.Prelude.{
  ℕ, zero, suc, ◌+◌, ◌%◌, leb, Bool, true, false, not, ◌&&◌, List, [], ◌∷◌, ◌++◌, Bytes, codes,
  is_empty, ◌=?◌, ◌==◌, if◌then◌else◌, Option, none, some, length, take, drop, u64_mod,
}
use o2chat.Text.Strings.{lowercased, starts_with, cut, split, ltrim}
use o2chat.Text.Number.{stoul, stoi}
use o2chat.Http.Reply.{HttpReply, no_reply, Headers, set_header, has_header, get_header}

-- What the handler of the caller gets: an error of the connection or of the protocol, or a message
-- and the bytes behind it. `stuck` is for a loop that runs out of fuel.
pub data Outcome : Type 0 where
  failed : HttpReply → Outcome
  protocol_error : HttpReply → Outcome
  received : HttpReply → Bytes → Outcome
  stuck : Outcome

-- The value of a header line, from what is behind the colon.
header_value : Bytes → Bytes
header_value [] = []
header_value (c ∷ s) = ltrim (c ∷ s)

-- `parseHeaderLine`
unfoldable pub parse_header_line : Bytes → Headers → Bool × Headers
unfolding header_value
parse_header_line line parsed_headers = elim (cut (codes ":") line) [
  | none ↦ (false, parsed_headers)
  | some ([], rest) ↦ (false, parsed_headers)
  | some (c ∷ key, rest) ↦ (true, set_header (c ∷ key) (header_value rest) parsed_headers)
]

unfoldable pub parse_header_lines : List Bytes → Headers → Headers
unfolding parse_header_line
parse_header_lines [] parsed_headers = parsed_headers
parse_header_lines (line ∷ lines) parsed_headers =
    parse_header_lines lines (parse_header_line line parsed_headers).1

-- `content_zipped` in `processReply`.
unfoldable pub content_zipped : HttpReply → Bool
content_zipped reply =
    let found : Bool = elim (cut (codes "gzip") (get_header reply (codes "Content-Encoding"))) [
      | none ↦ false
      | some parts ↦ true
    ] in
    has_header reply (codes "Content-Encoding") && found

-- What is made of the result of `gzipInflate`.
unfoldable pub unzipped : HttpReply → Bytes → Option Bytes → Outcome
unzipped reply rest none = Outcome.protocol_error reply
unzipped reply rest (some r) = Outcome.received (record reply { body = r }) rest

-- `processReply`; `inflate` is `gzipInflate`, that is zlib.
unfoldable pub process_reply : (Bytes → Option Bytes) → HttpReply → Bytes → Outcome
unfolding content_zipped unzipped
process_reply inflate reply rest =
    if content_zipped reply && not (is_empty reply.body)
    then unzipped reply rest (inflate reply.body)
    else Outcome.received reply rest

-- `startProcessChunk` and `processChunk` in turn. `chunk_size + 2` is a `size_t`.
unfoldable pub process_chunks : (Bytes → Option Bytes) → ℕ → HttpReply → Bytes → Outcome
unfolding process_reply
process_chunks inflate zero reply s = Outcome.stuck
process_chunks inflate (suc fuel) reply s = elim (cut (codes "\r\n") s) [
  | none ↦ Outcome.failed no_reply
  | some (chunk_size_string, s') ↦ elim (stoul 16 chunk_size_string) [
    | none ↦ Outcome.protocol_error reply
    | some (chunk_size, parsed) ↦
        let need = (chunk_size + 2) % u64_mod in
        let reply' = record reply { body = reply.body ++ take chunk_size (take need s') } in
        let more = process_chunks inflate fuel reply' (drop need s') in
        if not (parsed == length chunk_size_string)
        then Outcome.protocol_error reply
        else if not (leb need (length s'))
        then Outcome.failed reply
        else if chunk_size == 0
        then process_reply inflate reply' (drop need s')
        else more
  ]
]

-- The part of `handleHeaders` behind the headers: the body.
unfoldable pub read_body : (Bytes → Option Bytes) → HttpReply → Bytes → Outcome
unfolding process_reply
read_body inflate reply s =
    let sized : Outcome = elim (stoul 10 (get_header reply (codes "Content-Length"))) [
      | none ↦ Outcome.protocol_error reply
      | some (body_len, parsed) ↦
          if leb body_len (length s)
          then process_reply inflate (record reply { body = take body_len s }) (drop body_len s)
          else Outcome.failed reply
    ] in
    let chunked = process_chunks inflate (suc (length s)) reply s in
    if has_header reply (codes "Content-Length")
    then sized
    else if get_header reply (codes "Transfer-Encoding") =? codes "chunked"
    then chunked
    else Outcome.received reply s

-- The first line: a status line, or a method and a resource. `none` is a protocol error.
unfoldable pub first_line : Bytes → HttpReply → Option HttpReply
first_line line reply = elim (split line (codes " ")) [
  | [] ↦ none
  | first ∷ [] ↦ none
  | first ∷ second ∷ more ↦
      let lc = lowercased first in
      let with_status : Option HttpReply = elim (stoi second) [
        | none ↦ none
        | some status ↦ some (record reply { status = status })
      ] in
      if starts_with lc (codes "http/")
      then with_status
      else some (record reply { method = lc; resource = second })
]

-- `handleHeaders` on the text of the headers and the bytes behind it.
unfoldable pub handle_headers : (Bytes → Option Bytes) → Bytes → Bytes → Outcome
unfolding first_line read_body parse_header_lines
handle_headers inflate text s =
    let reply = record no_reply { headers = text } in
    elim (split text (codes "\r\n")) [
      | [] ↦ Outcome.protocol_error reply
      | [] ∷ lines ↦ Outcome.protocol_error reply
      | (c ∷ line) ∷ lines ↦ elim (first_line (c ∷ line) reply) [
        | none ↦ Outcome.protocol_error reply
        | some reply' ↦
            read_body inflate
              (record reply' { parsed_headers = parse_header_lines lines reply'.parsed_headers }) s
      ]
    ]

-- `asyncResponse`, from the bytes that come.
unfoldable pub async_response : (Bytes → Option Bytes) → Bytes → Outcome
unfolding handle_headers
async_response inflate s = elim (cut (codes "\r\n\r\n") s) [
  | none ↦ Outcome.failed no_reply
  | some (text, rest) ↦ handle_headers inflate text rest
]
