-- ===== src/Http/Requests.antt =====
-- client/src/apiclient_utils.cpp and net/client.cpp: the server reads what the client sends.
use o2chat.Prelude.{
  ◌<◌, true, [], ◌∷◌, ◌++◌, Bytes, codes, all, Option, some, length, ◌≡◌, refl, ◌∙◌, ap, arith,
  append_assoc, u64_mod,
}
use o2chat.Text.Strings.{cut, lowercased, starts_with, join, join_rest, ltrim}
use o2chat.Text.Strings.Parts.{free_of}
use o2chat.Text.Decimal.{to_string}
use o2chat.Http.Reply.{HttpReply, no_reply, set_header, find_header, has_header, get_header}
use o2chat.Http.Reading.{
  Outcome, first_line, parse_header_lines, async_response, read_body, parse_header_line,
}
use o2chat.Http.Framing.{async_response_lem, after_headers, is_line, crlf, blank_line}
use o2chat.Http.Lengths.{length_line, length_IsLine, parse_length, read_body_lem}
use o2chat.Text.Strings.Parts.{split-join, free_append}
use o2chat.Client.Bodies.{build_request}

abbrev pub request_line : Bytes → Bytes
request_line resource = join (codes "POST" ∷ resource ∷ codes "HTTP/1.1" ∷ []) (codes " ")

abbrev pub type_line : Bytes → Bytes
type_line content_type = codes "Content-Type: " ++ content_type

request_lines :
    (resource content_type body rest : Bytes)
    → build_request resource content_type body ++ rest
      ≡ join (request_line resource ∷ length_line body ∷ type_line content_type ∷ []) crlf
        ++ (blank_line ++ (body ++ rest))
unfolding build_request join join_rest
request_lines resource content_type body rest = simp append_assoc refl

request_IsLine :
    (resource : Bytes) → free_of 13 resource ≡ true → is_line (request_line resource) ≡ true
unfolding join join_rest
request_IsLine resource h = rw (free_append 13 resource (codes " HTTP/1.1")) (rw h refl)

parse_request_lines :
    (content_type body : Bytes)
    → ltrim content_type ≡ content_type
    → parse_header_lines (length_line body ∷ type_line content_type ∷ []) []
      ≡ (codes "Content-Length", to_string (length body))
        ∷ (codes "Content-Type", content_type)
        ∷ []
unfolding parse_header_lines parse_header_line set_header cut ltrim
parse_request_lines content_type body h =
    ap (parse_header_lines (type_line content_type ∷ [])) (parse_length body [])
    ∙ ap (λ v. (codes "Content-Length", to_string (length body)) ∷ (codes "Content-Type", v) ∷ []) h

-- The message that the server makes of a request of the client.
abbrev pub request_reply : Bytes → Bytes → Bytes → HttpReply
request_reply resource content_type body = record {
  status = 0;
  headers = join (request_line resource ∷ length_line body ∷ type_line content_type ∷ []) crlf;
  body = body;
  method = codes "post";
  resource = resource;
  parsed_headers =
      (codes "Content-Length", to_string (length body)) ∷ (codes "Content-Type", content_type) ∷ [];
}

first_request_line :
    (resource text : Bytes)
    → free_of 32 resource ≡ true
    → first_line (request_line resource) (record no_reply { headers = text })
      ≡ some (record no_reply { headers = text; method = codes "post"; resource = resource })
unfolding first_line lowercased starts_with
first_request_line resource text h =
    let free : all (free_of 32) (codes "POST" ∷ resource ∷ codes "HTTP/1.1" ∷ []) ≡ true =
      rw h refl in
    rw
      (
        split-join 32 [] (codes "POST") (resource ∷ codes "HTTP/1.1" ∷ []) free (omega arith),
        first_line,
      )
      refl

-- What the client sends is received by the server as a request for that resource with that content
-- type and that body, and the bytes behind it stay for the next request, if the resource has no space
-- and no carriage return, and the content type no carriage return and no space in front.
pub request_received :
    (inflate : Bytes → Option Bytes) (resource content_type body rest : Bytes)
    → free_of 13 resource ≡ true
    → free_of 32 resource ≡ true
    → free_of 13 content_type ≡ true
    → ltrim content_type ≡ content_type
    → length body < u64_mod
    → async_response inflate (build_request resource content_type body ++ rest)
      ≡ Outcome.received (request_reply resource content_type body) rest
unfolding after_headers has_header get_header find_header
request_received inflate resource content_type body rest line word type plain small =
    let lines = length_line body ∷ type_line content_type ∷ [] in
    let text = join (request_line resource ∷ lines) crlf in
    let good : all is_line (request_line resource ∷ lines) ≡ true =
      rw (request_IsLine resource line) (rw (length_IsLine body) (rw type refl)) in
    ap (async_response inflate) (request_lines resource content_type body rest)
    ∙ async_response_lem inflate (request_line resource) lines (body ++ rest) good (omega arith)
    ∙ rw (first_request_line resource text word, after_headers)
        (ap
            (λ h.
              read_body inflate
                (record (request_reply resource content_type body) {
                  body = [];
                  parsed_headers = h;
                })
                (body ++ rest))
            (parse_request_lines content_type body plain)
          ∙ read_body_lem inflate (record (request_reply resource content_type body) { body = [] })
              body rest small refl refl refl)
