-- ===== src/Http/Socket/Whole.antt =====
-- net/client.cpp: how the bytes of a message are divided on their way does not matter.
use o2chat.Prelude.{
  ℕ, zero, suc, ◌+◌, ◌%◌, not, ◌&&◌, Bytes, codes, is_empty, ◌=?◌, ◌==◌, Option, none, some, length,
  u64_mod, ◌≡◌, refl, inl, inr, Bool-cases, Option-cases, [], ◌∷◌, List,
}
use o2chat.Text.Strings.{split}
use o2chat.Text.Number.{stoul}
use o2chat.Net.Stream.{Transport, Socket, left, swap_response}
use o2chat.Net.Stream.Waits.{wait_line_lem, wait_bytes_lem}
use o2chat.Http.Reply.{HttpReply, no_reply, has_header, get_header}
use o2chat.Http.Reading.{
  Outcome, content_zipped, unzipped, process_reply, process_chunks, first_line, read_body,
  handle_headers, async_response,
}
use o2chat.Http.Socket.{
  ReadEnd, unzipped_on, process_reply_on, process_chunks_on, read_body_on, handle_headers_on,
  async_response_on, whole_outcome,
}

module _ {ℓ} {S : Type ℓ} (t : Transport S) (until : Bytes → Bytes → Option (Bytes × ℕ))
    (exactly : ℕ → Option Bytes) (inflate : Bytes → Option Bytes) where
  abbrev all_left : Socket S → Bytes
  all_left c = left t until exactly c

  abbrev view : ReadEnd S → Option Outcome
  view a = whole_outcome t until exactly inflate a

  unzipped_whole :
      (reply : HttpReply) (c : Socket S) (o : Option Bytes)
      → view (unzipped_on t until exactly inflate reply c o) ≡ some (unzipped reply (all_left c) o)
  unfolding unzipped_on unzipped whole_outcome
  unzipped_whole reply c none = refl
  unzipped_whole reply c (some r) = refl

  reply_whole :
      (reply : HttpReply) (c : Socket S)
      → view (process_reply_on t until exactly inflate reply c)
        ≡ some (process_reply inflate reply (all_left c))
  unfolding process_reply_on process_reply whole_outcome
  reply_whole reply c = elim (Bool-cases (content_zipped reply && not (is_empty reply.body))) [
    | inl e ↦ rw (e, process_reply_on, process_reply) (unzipped_whole reply c (inflate reply.body))
    | inr e ↦ rw (e, process_reply_on, process_reply) refl
  ]

  chunks_whole :
      (fuel : ℕ) (reply : HttpReply) (c : Socket S)
      → view (process_chunks_on t until exactly inflate fuel reply c)
        ≡ some (process_chunks inflate fuel reply (all_left c))
  unfolding process_chunks_on process_chunks whole_outcome
  chunks_whole zero reply c = refl
  chunks_whole (suc fuel) reply c = elim (wait_line_lem t until exactly 13 (codes "\n") c) [
    | inl (ends, absent) ↦ rw (ends, process_chunks_on, absent, process_chunks) refl
    | inr (line, c', waited, found) ↦
        rw (waited, process_chunks_on, found, process_chunks)
          (elim (Option-cases (stoul 16 line)) [
            | inl e ↦ rw e refl
            | inr ((size, parsed), e) ↦ rw e (elim (Bool-cases (parsed == length line)) [
              | inr f ↦ rw f refl
              | inl f ↦ rw f (elim (wait_bytes_lem t until exactly ((size + 2) % u64_mod) c') [
                | inl (ends', short) ↦ rw (ends', short) refl
                | inr (c'', waited', enough, behind) ↦
                    rw (waited', enough, behind)
                      (elim (Bool-cases (size == 0)) [
                        | inl z ↦ rw z (reply_whole _ c'')
                        | inr z ↦ rw z (chunks_whole fuel _ c'')
                      ])
              ])
            ])
          ])
  ]

  body_whole :
      (reply : HttpReply) (c : Socket S)
      → view (read_body_on t until exactly inflate reply c)
        ≡ some (read_body inflate reply (all_left c))
  unfolding read_body_on read_body whole_outcome
  body_whole reply c = elim (Bool-cases (has_header reply (codes "Content-Length"))) [
    | inl e ↦
        rw (e, read_body_on, read_body)
          (elim (Option-cases (stoul 10 (get_header reply (codes "Content-Length")))) [
            | inl e' ↦ rw e' refl
            | inr ((size, parsed), e') ↦ rw e' (elim (wait_bytes_lem t until exactly size c) [
              | inl (ends, short) ↦ rw (ends, short) refl
              | inr (c', waited, enough, behind) ↦
                  rw (waited, enough, behind) (reply_whole _ (swap_response t until exactly c'))
            ])
          ])
    | inr e ↦
        rw (e, read_body_on, read_body)
          (elim (Bool-cases (get_header reply (codes "Transfer-Encoding") =? codes "chunked")) [
            | inl f ↦ rw f (chunks_whole (suc (length (all_left c))) reply c)
            | inr f ↦ rw f refl
          ])
  ]

  headers_whole :
      (text : Bytes) (c : Socket S)
      → view (handle_headers_on t until exactly inflate text c)
        ≡ some (handle_headers inflate text (all_left c))
  unfolding handle_headers_on handle_headers whole_outcome
  headers_whole text c = lines_whole (split text (codes "\r\n")) refl
    where
      lines_whole :
          (lines : List Bytes)
          → split text (codes "\r\n") ≡ lines
          → view (handle_headers_on t until exactly inflate text c)
            ≡ some (handle_headers inflate text (all_left c))
      lines_whole [] e = rw (e, handle_headers_on, handle_headers) refl
      lines_whole ([] ∷ lines) e = rw (e, handle_headers_on, handle_headers) refl
      lines_whole ((b ∷ line) ∷ lines) e =
          rw (e, handle_headers_on, handle_headers)
            (elim (Option-cases (first_line (b ∷ line) (record no_reply { headers = text }))) [
              | inl f ↦ rw f refl
              | inr (reply, f) ↦ rw f (body_whole _ c)
            ])

-- On any connection that gives its bytes in order, in pieces of any sizes, a read of a message ends as the
-- read of all bytes at once does, the ones already in the buffer in front, and leaves the same bytes behind
-- it. None of the blocking reads between the waits goes to the connection or throws an exception.
pub async_response_on_lem {ℓ} :
    {S : Type ℓ} (t : Transport S) (until : Bytes → Bytes → Option (Bytes × ℕ))
    (exactly : ℕ → Option Bytes) (inflate : Bytes → Option Bytes) (c : Socket S)
    → whole_outcome t until exactly inflate (async_response_on t until exactly inflate c)
      ≡ some (async_response inflate (left t until exactly c))
unfolding async_response_on async_response whole_outcome
async_response_on_lem t until exactly inflate c =
    elim (wait_line_lem t until exactly 13 (codes "\n\r\n") c) [
      | inl (ends, absent) ↦ rw (ends, async_response_on, absent, async_response) refl
      | inr (text, c', waited, found) ↦
          rw (waited, async_response_on, found, async_response)
            (headers_whole t until exactly inflate text c')
    ]
