-- ===== src/Http/Total.antt =====
-- net/client.cpp: a read of a message ends; the loop over chunks has enough fuel.
use o2chat.Prelude.{
  ℕ, zero, suc, ◌+◌, ◌%◌, ◌<◌, ◌≤◌, leb, Bool, true, false, not, ◌&&◌, ◌==◌, List, [], ◌∷◌, ◌++◌,
  Bytes, codes, Option, none, some, length, drop, take, is_empty, ◌≡◌, refl, arith, Bool-cases,
  Option-cases, inl, inr, u64_mod, ◌=?◌, if◌then◌else◌,
}
use o2chat.Text.Strings.{cut, split}
use o2chat.Text.Strings.Shorter.{cut-IsShorter, IsShorter}
use o2chat.Text.Number.{stoul}
use o2chat.Http.Reply.{HttpReply, no_reply, has_header, get_header}
use o2chat.Http.Reading.{
  Outcome, process_reply, content_zipped, unzipped, process_chunks, read_body, first_line,
  handle_headers, async_response,
}

abbrev pub is_stuck : Outcome → Bool
is_stuck Outcome.stuck = true
is_stuck _ = false

reply_total :
    (inflate : Bytes → Option Bytes) (reply : HttpReply) (rest : Bytes)
    → is_stuck (process_reply inflate reply rest) ≡ false
unfolding process_reply unzipped
reply_total inflate reply rest =
    elim (Bool-cases (content_zipped reply && not (is_empty reply.body))) [
      | inl e ↦ rw (e, process_reply) (unzipped_total (inflate reply.body))
      | inr e ↦ rw (e, process_reply) refl
    ]
  where
    unzipped_total : (o : Option Bytes) → is_stuck (unzipped reply rest o) ≡ false
    unzipped_total none = refl
    unzipped_total (some r) = refl

length-drop_le : (n : ℕ) (s : Bytes) → length (drop n s) ≤ length s
length-drop_le zero s = omega arith
length-drop_le (suc n) [] = omega arith
length-drop_le (suc n) (c ∷ s) = let h = length-drop_le n s in omega arith

below :
    {n : ℕ} {o : Option (Bytes × Bytes)} {line rest : Bytes}
    → o ≡ some (line, rest)
    → IsShorter n o
    → length rest < n
below e h = rw e at h

-- One chunk is not stuck if the next ones are not.
chunk_total :
    (inflate : Bytes → Option Bytes) (fuel : ℕ) (reply : HttpReply) (line s : Bytes)
    (size parsed : ℕ)
    → ((reply' : HttpReply)
        → is_stuck (process_chunks inflate fuel reply' (drop ((size + 2) % u64_mod) s)) ≡ false)
    → let need = (size + 2) % u64_mod in
      let reply' = record reply { body = reply.body ++ take size (take need s) } in
      is_stuck (
        if not (parsed == length line)
        then Outcome.protocol_error reply
        else if not (leb need (length s))
        then Outcome.failed reply
        else if size == 0
        then process_reply inflate reply' (drop need s)
        else process_chunks inflate fuel reply' (drop need s))
      ≡ false
chunk_total inflate fuel reply line s size parsed more =
    let need = (size + 2) % u64_mod in
    elim (Bool-cases (parsed == length line)) [
      | inr e ↦ rw e refl
      | inl e ↦ rw e (elim (Bool-cases (leb need (length s))) [
        | inr e' ↦ rw e' refl
        | inl e' ↦ rw e' (elim (Bool-cases (size == 0)) [
          | inl z ↦ rw z (reply_total inflate _ _)
          | inr z ↦ rw z (more _)
        ])
      ])
    ]

chunks_total :
    (inflate : Bytes → Option Bytes) (fuel : ℕ) (reply : HttpReply) (s : Bytes)
    → length s < fuel
    → is_stuck (process_chunks inflate fuel reply s) ≡ false
unfolding process_chunks
chunks_total inflate zero reply s h = absurd (omega arith)
chunks_total inflate (suc fuel) reply s h = elim (Option-cases (cut (codes "\r\n") s)) [
  | inl e ↦ rw (e, process_chunks) refl
  | inr ((line, s'), e) ↦
      let shorter : length s' < length s = below e (cut-IsShorter 13 (codes "\n") s) in
      rw (e, process_chunks)
        (elim (Option-cases (stoul 16 line)) [
          | inl e' ↦ rw e' refl
          | inr ((size, parsed), e') ↦ rw e' (
              let less = length-drop_le ((size + 2) % u64_mod) s' in
              chunk_total inflate fuel reply line s' size parsed
                (λ reply'. chunks_total inflate fuel reply' _ (omega arith)))
        ])
]

body_total :
    (inflate : Bytes → Option Bytes) (reply : HttpReply) (s : Bytes)
    → is_stuck (read_body inflate reply s) ≡ false
unfolding read_body
body_total inflate reply s = elim (Bool-cases (has_header reply (codes "Content-Length"))) [
  | inl e ↦
      rw (e, read_body)
        (elim (Option-cases (stoul 10 (get_header reply (codes "Content-Length")))) [
          | inl e' ↦ rw e' refl
          | inr ((size, parsed), e') ↦ rw e' (elim (Bool-cases (leb size (length s))) [
            | inl f ↦ rw f (reply_total inflate _ _)
            | inr f ↦ rw f refl
          ])
        ])
  | inr e ↦
      rw (e, read_body)
        (elim (Bool-cases (get_header reply (codes "Transfer-Encoding") =? codes "chunked")) [
          | inl f ↦ rw f (chunks_total inflate (suc (length s)) reply s (omega arith))
          | inr f ↦ rw f refl
        ])
]

headers_total :
    (inflate : Bytes → Option Bytes) (text s : Bytes)
    → is_stuck (handle_headers inflate text s) ≡ false
unfolding handle_headers
headers_total inflate text s = lines_total (split text (codes "\r\n")) refl
  where
    lines_total :
        (lines : List Bytes)
        → split text (codes "\r\n") ≡ lines
        → is_stuck (handle_headers inflate text s) ≡ false
    lines_total [] e = rw (e, handle_headers) refl
    lines_total ([] ∷ lines) e = rw (e, handle_headers) refl
    lines_total ((c ∷ line) ∷ lines) e =
        rw (e, handle_headers)
          (elim (Option-cases (first_line (c ∷ line) (record no_reply { headers = text }))) [
            | inl f ↦ rw f refl
            | inr (reply, f) ↦ rw f (body_total inflate _ s)
          ])

-- Whatever bytes come, the read of a message ends with an error or a message: the rounds of the loop
-- over chunks that the model allows are enough.
pub async_response_total :
    (inflate : Bytes → Option Bytes) (s : Bytes) → is_stuck (async_response inflate s) ≡ false
unfolding async_response
async_response_total inflate s = elim (Option-cases (cut (codes "\r\n\r\n") s)) [
  | inl e ↦ rw (e, async_response) refl
  | inr ((text, rest), e) ↦ rw (e, async_response) (headers_total inflate text rest)
]
