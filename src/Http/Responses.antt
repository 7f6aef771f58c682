-- ===== src/Http/Responses.antt =====
-- server/src/apiclient.cpp and net/client.cpp: the client reads what the server sends.
use o2chat.Prelude.{
  ◌<◌, true, [], ◌∷◌, ◌++◌, Bytes, codes, all, Option, length, ◌≡◌, refl, ◌∙◌, ap, arith,
  append_assoc, u64_mod,
}
use o2chat.Text.Strings.{cut, split, lowercased, starts_with, join, join_rest, ltrim}
use o2chat.Text.Decimal.{to_string}
use o2chat.Http.Reply.{HttpReply, set_header, find_header, has_header, get_header}
use o2chat.Text.Number.{stoi}
use o2chat.Http.Reading.{
  Outcome, first_line, parse_header_lines, async_response, read_body, parse_header_line,
}
use o2chat.Http.Framing.{async_response_lem, after_headers, is_line, crlf, blank_line}
use o2chat.Api.Respond.{build_api_ok_response}
use o2chat.Http.Lengths.{length_line, length_IsLine, parse_length, read_body_lem}

abbrev pub json_line : Bytes
json_line = codes "Content-Type: application/json"

abbrev pub origin_line : Bytes
origin_line = codes "Access-Control-Allow-Origin: *"

ok_lines :
    (body rest : Bytes)
    → build_api_ok_response body ++ rest
      ≡ join (codes "HTTP/1.1 200 OK" ∷ length_line body ∷ json_line ∷ origin_line ∷ []) crlf
        ++ (blank_line ++ (body ++ rest))
unfolding build_api_ok_response join join_rest
ok_lines body rest = simp append_assoc refl

-- The reply that the client makes of a response of the server.
abbrev pub ok_reply : Bytes → HttpReply
ok_reply body = record {
  status = 200;
  headers = join (codes "HTTP/1.1 200 OK" ∷ length_line body ∷ json_line ∷ origin_line ∷ []) crlf;
  body = body;
  method = [];
  resource = [];
  parsed_headers =
      ((codes "Content-Length", to_string (length body))
        ∷ (codes "Content-Type", codes "application/json")
        ∷ (codes "Access-Control-Allow-Origin", codes "*")
        ∷ []);
}

parse_lines :
    (body : Bytes)
    → parse_header_lines (length_line body ∷ json_line ∷ origin_line ∷ []) []
      ≡ (ok_reply body).parsed_headers
unfolding parse_header_lines parse_header_line set_header cut ltrim
parse_lines body = ap (parse_header_lines (json_line ∷ origin_line ∷ [])) (parse_length body [])

-- What the server sends as a success is received by the client as status 200 with that body, and
-- the bytes behind it stay for the next response.
pub ok_response_received :
    (inflate : Bytes → Option Bytes) (body rest : Bytes)
    → length body < u64_mod
    → async_response inflate (build_api_ok_response body ++ rest)
      ≡ Outcome.received (ok_reply body) rest
unfolding after_headers first_line split stoi lowercased starts_with ltrim cut has_header get_header
    find_header
ok_response_received inflate body rest small =
    let lines = length_line body ∷ json_line ∷ origin_line ∷ [] in
    let good : all is_line (codes "HTTP/1.1 200 OK" ∷ lines) ≡ true =
      rw (length_IsLine body) refl in
    ap (async_response inflate) (ok_lines body rest)
    ∙ async_response_lem inflate (codes "HTTP/1.1 200 OK") lines (body ++ rest) good (omega arith)
    ∙ ap
        (λ h.
          read_body inflate (record (ok_reply body) { body = []; parsed_headers = h })
            (body ++ rest))
        (parse_lines body)
    ∙ read_body_lem inflate (record (ok_reply body) { body = [] }) body rest small refl refl refl
