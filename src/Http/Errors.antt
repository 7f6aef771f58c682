-- ===== src/Http/Errors.antt =====
-- server/src/apiclient.cpp and net/client.cpp: the client reads the errors that the server sends.
use o2chat.Prelude.{
  ℕ, ◌<◌, Bool, true, ◌||◌, [], ◌∷◌, ◌++◌, Bytes, codes, all, Option, some, length, ◌==◌, ◌≡◌, refl,
  ◌∙◌, ap, arith, append_assoc, u64_mod, ◌⊎◌, inl, inr,
}
use o2chat.Common.{ApiStatusCode}
use o2chat.Json.{External}
use o2chat.Responses.{make_api_error}
use o2chat.Text.Strings.{cut, split, lowercased, starts_with, join, join_rest, ltrim}
use o2chat.Text.Decimal.{to_string}
use o2chat.Text.Number.{stoi}
use o2chat.Http.Reply.{HttpReply, no_reply, set_header, find_header, has_header, get_header}
use o2chat.Http.Reading.{
  Outcome, first_line, parse_header_lines, async_response, read_body, parse_header_line,
}
use o2chat.Http.Framing.{async_response_lem, after_headers, is_line, crlf, blank_line}
use o2chat.Http.Lengths.{length_line, length_IsLine, parse_length, read_body_lem}
use o2chat.Http.Responses.{json_line, origin_line}
use o2chat.Api.Respond.{build_api_error_rsponse, http_code_to_string}

-- The codes of errors that have a text.
abbrev pub is_error_code : ℕ → Bool
is_error_code code =
    code == 400
    || code == 403
    || code == 404
    || code == 409
    || code == 429
    || code == 500
    || code == 503

abbrev status_line : ℕ → Bytes
status_line code = codes "HTTP/1.1 " ++ http_code_to_string code

-- The status line of a code is a line, and gives the code.
abbrev IsRead : ℕ → Type 0
IsRead code =
    (is_line (status_line code) ≡ true)
    × ((reply : HttpReply)
        → first_line (status_line code) reply ≡ some (record reply { status = code }))

is_error_code-cases :
    (code : ℕ)
    → is_error_code code ≡ true
    → (code ≡ 400)
      ⊎ (code ≡ 403)
      ⊎ (code ≡ 404)
      ⊎ (code ≡ 409)
      ⊎ (code ≡ 429)
      ⊎ (code ≡ 500)
      ⊎ (code ≡ 503)
is_error_code-cases code named = ground (arith, named)

status_line-IsRead : (code : ℕ) → is_error_code code ≡ true → IsRead code
unfolding http_code_to_string first_line split stoi lowercased starts_with ltrim
status_line-IsRead code named = elim (is_error_code-cases code named) [
  | inl e ↦ rw e (refl, λ reply. refl)
  | inr (inl e) ↦ rw e (refl, λ reply. refl)
  | inr (inr (inl e)) ↦ rw e (refl, λ reply. refl)
  | inr (inr (inr (inl e))) ↦ rw e (refl, λ reply. refl)
  | inr (inr (inr (inr (inl e)))) ↦ rw e (refl, λ reply. refl)
  | inr (inr (inr (inr (inr (inl e))))) ↦ rw e (refl, λ reply. refl)
  | inr (inr (inr (inr (inr (inr e))))) ↦ rw e (refl, λ reply. refl)
]

error_lines :
    (lib : External) (code : ℕ) (api_code : ApiStatusCode) (desc rest : Bytes)
    → let body = make_api_error lib api_code desc in
      build_api_error_rsponse lib code api_code desc ++ rest
      ≡ join (status_line code ∷ length_line body ∷ origin_line ∷ json_line ∷ []) crlf
        ++ (blank_line ++ (body ++ rest))
unfolding build_api_error_rsponse join join_rest
error_lines lib code api_code desc rest = simp append_assoc refl

-- The reply that the client makes of an error of the server.
abbrev pub error_reply : ℕ → Bytes → HttpReply
error_reply code body = record {
  status = code;
  headers = join (status_line code ∷ length_line body ∷ origin_line ∷ json_line ∷ []) crlf;
  body = body;
  method = [];
  resource = [];
  parsed_headers =
      ((codes "Content-Length", to_string (length body))
        ∷ (codes "Access-Control-Allow-Origin", codes "*")
        ∷ (codes "Content-Type", codes "application/json")
        ∷ []);
}

parse_lines :
    (body : Bytes)
    → parse_header_lines (length_line body ∷ origin_line ∷ json_line ∷ []) []
      ≡ (error_reply 0 body).parsed_headers
unfolding parse_header_lines parse_header_line set_header cut ltrim
parse_lines body = ap (parse_header_lines (origin_line ∷ json_line ∷ [])) (parse_length body [])

-- An error that the server sends with one of the codes that have a text, and a body of less than 2 ^ 64 bytes,
-- is received by the client with this code as its status and `make_api_error` as its body, and the bytes
-- behind it stay for the next response.
pub error_received :
    (inflate : Bytes → Option Bytes) (lib : External) (code : ℕ) (api_code : ApiStatusCode)
    (desc rest : Bytes)
    → is_error_code code ≡ true
    → length (make_api_error lib api_code desc) < u64_mod
    → async_response inflate (build_api_error_rsponse lib code api_code desc ++ rest)
      ≡ Outcome.received (error_reply code (make_api_error lib api_code desc)) rest
unfolding after_headers has_header get_header find_header
error_received inflate lib code api_code desc rest named small =
    let body = make_api_error lib api_code desc in
    let lines = length_line body ∷ origin_line ∷ json_line ∷ [] in
    let (whole, status) = status_line-IsRead code named in
    let good : all is_line (status_line code ∷ lines) ≡ true =
      rw whole (rw (length_IsLine body) refl) in
    ap (async_response inflate) (error_lines lib code api_code desc rest)
    ∙ async_response_lem inflate (status_line code) lines (body ++ rest) good (omega arith)
    ∙ rw
        (status (record no_reply { headers = join (status_line code ∷ lines) crlf }), after_headers)
        (ap
          (λ h.
            read_body inflate (record (error_reply code body) { body = []; parsed_headers = h })
              (body ++ rest))
          (parse_lines body))
    ∙ read_body_lem inflate (record (error_reply code body) { body = [] }) body rest small refl refl
        refl
