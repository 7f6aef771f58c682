-- ===== src/Http/Lengths.antt =====
-- net/client.cpp: a body behind a header `Content-Length`.
use o2chat.Prelude.{
  ◌<◌, true, false, [], ◌∷◌, ◌++◌, Bytes, codes, all, Option, length, ◌≡◌, refl, ap, arith, u64_mod,
  leb, take-append, drop-append, length-append,
}
use o2chat.Text.Strings.{cut, ltrim}
use o2chat.Text.Strings.Parts.{free_of}
use o2chat.Text.Decimal.{to_string}
use o2chat.Text.Decimal.RoundTrip.{is_dec, stoul-to_string, ltrim_dec, all_dec-to_string}
use o2chat.Http.Reply.{HttpReply, Headers, set_header, has_header, get_header}
use o2chat.Http.Reading.{Outcome, read_body, parse_header_line, process_reply, content_zipped}
use o2chat.Http.Framing.{is_line}

-- The header that both sides put in front of a body.
abbrev pub length_line : Bytes → Bytes
length_line body = codes "Content-Length: " ++ to_string (length body)

dec_free : (s : Bytes) → all is_dec s ≡ true → free_of 13 s ≡ true
dec_free [] h = refl
dec_free (c ∷ s) h = let rest = dec_free s (ground (arith, h)) in ground (arith, h, rest)

pub length_IsLine : (body : Bytes) → is_line (length_line body) ≡ true
length_IsLine body = dec_free (to_string (length body)) (all_dec-to_string (length body))

pub parse_length :
    (body : Bytes) (headers : Headers)
    → (parse_header_line (length_line body) headers).1
      ≡ set_header (codes "Content-Length") (to_string (length body)) headers
unfolding parse_header_line ltrim cut
parse_length body headers =
    ap (λ v. set_header (codes "Content-Length") v headers)
      (ltrim_dec (to_string (length body)) (all_dec-to_string (length body)))

leb-length : (body rest : Bytes) → leb (length body) (length (body ++ rest)) ≡ true
leb-length body rest = ground (arith, length-append body rest)

-- A body of the announced length is read whole, and nothing behind it.
pub read_body_lem :
    (inflate : Bytes → Option Bytes) (reply : HttpReply) (body rest : Bytes)
    → length body < u64_mod
    → has_header reply (codes "Content-Length") ≡ true
    → get_header reply (codes "Content-Length") ≡ to_string (length body)
    → has_header (record reply { body = body }) (codes "Content-Encoding") ≡ false
    → read_body inflate reply (body ++ rest) ≡ Outcome.received (record reply { body = body }) rest
unfolding read_body process_reply content_zipped
read_body_lem inflate reply body rest small sized value plain =
    rw (sized, read_body)
      (rw value (
        rw (stoul-to_string (length body) small) (
          rw (leb-length body rest) (
            rw (take-append body rest)
              (rw (drop-append body rest) (rw (plain, process_reply, content_zipped) refl))))))
