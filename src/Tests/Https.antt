-- ===== src/Tests/Https.antt =====
-- common/utils.cpp and net/client.cpp at small texts.
use o2chat.Http.Total.{is_stuck, async_response_total}
use o2chat.Http.Reply.{no_reply, set_header, has_header, get_header, find_header}
use o2chat.Prelude.{Bytes, ◌=?◌, false, [], ◌∷◌, ◌++◌, codes, ◌≡◌, refl, arith, none}
use o2chat.Text.Strings.{split, ltrim, cut, lowercased, starts_with, to_lower, split_parts, join}
use o2chat.Text.Strings.Parts.{split-join}
use o2chat.Text.Strings.Whole.{join-split_parts}
use o2chat.Text.Number.{stoul, stoi}
use o2chat.Http.Reading.{
  Outcome, async_response, handle_headers, read_body, process_chunks, parse_header_lines,
  parse_header_line, first_line, process_reply, content_zipped,
}
use o2chat.Http.Responses.{ok_reply, ok_response_received}
use o2chat.Http.Requests.{request_reply, request_received}
use o2chat.Api.Respond.{build_api_ok_response}
use o2chat.Client.Bodies.{build_request}

ok_response_received_example :
    async_response (λ s. none) (build_api_ok_response (codes "{}") ++ codes "HTTP")
    ≡ Outcome.received (ok_reply (codes "{}")) (codes "HTTP")
ok_response_received_example =
    ok_response_received (λ s. none) (codes "{}") (codes "HTTP") (omega arith)

request_received_example :
    async_response
      (λ s. none)
      (build_request (codes "/v1/user/login") (codes "application/json") (codes "{}")
        ++ codes "POST")
    ≡ Outcome.received
        (request_reply (codes "/v1/user/login") (codes "application/json") (codes "{}"))
        (codes "POST")
unfolding ltrim
request_received_example =
    request_received (λ s. none) (codes "/v1/user/login") (codes "application/json") (codes "{}")
      (codes "POST") refl refl refl refl (omega arith)

abbrev chunked : Bytes
chunked =
    codes "HTTP/1.1 200 OK\r\nTransfer-Encoding: chunked\r\n\r\n2\r\nhi\r\n1\r\n!\r\n0\r\n\r\n"

async_response_total_example : is_stuck (async_response (λ s. none) chunked) ≡ false
async_response_total_example = async_response_total (λ s. none) chunked

test_chunked :
    async_response (λ s. none) chunked
    ≡ Outcome.received
        (record no_reply {
          status = 200;
          headers = codes "HTTP/1.1 200 OK\r\nTransfer-Encoding: chunked";
          body = codes "hi!";
          parsed_headers = (codes "Transfer-Encoding", codes "chunked") ∷ [];
        })
        []
unfolding async_response handle_headers read_body process_chunks parse_header_lines
    parse_header_line stoul cut split first_line lowercased starts_with stoi ltrim set_header
    has_header get_header find_header process_reply content_zipped ◌=?◌ to_lower
test_chunked = refl

split-join_example :
    split (join (codes "a" ∷ codes "bc" ∷ []) (codes ":;")) (codes ":;")
    ≡ codes "a" ∷ codes "bc" ∷ []
split-join_example = split-join b':' (codes ";") (codes "a") (codes "bc" ∷ []) refl (omega arith)

join-split_parts_example :
    join (split_parts (codes "a::b::c") (codes "::") 2) (codes "::") ≡ codes "a::b::c"
join-split_parts_example = join-split_parts b':' (codes ":") (codes "a::b::c") 2
