-- ===== src/Api/Respond.antt =====
-- server/src/apiclient.cpp: the texts of the HTTP responses.
use o2chat.Prelude.{ℕ, Bytes, codes, ◌++◌, length, ◌==◌, if◌then◌else◌}
use o2chat.Common.{ApiStatusCode}
use o2chat.Json.{External}
use o2chat.Responses.{make_api_error}
use o2chat.Text.Decimal.{to_string}

-- `http_code_to_string`
unfoldable pub http_code_to_string : ℕ → Bytes
http_code_to_string code =
    if code == 200
    then codes "200 OK"
    else if code == 400
    then codes "400 Bad Request"
    else if code == 403
    then codes "403 Forbidden"
    else if code == 404
    then codes "404 Not Found"
    else if code == 409
    then codes "409 Conflict"
    else if code == 429
    then codes "429 Too Many Requests"
    else if code == 500
    then codes "500 Internal Server Error"
    else if code == 503
    then codes "503 Service Unavailable"
    else codes "200 OK"

-- `build_api_error_rsponse`
unfoldable pub build_api_error_rsponse : External → ℕ → ApiStatusCode → Bytes → Bytes
build_api_error_rsponse lib http_code api_code desc =
    let api_response = make_api_error lib api_code desc in
    codes "HTTP/1.1 "
    ++ http_code_to_string http_code
    ++ codes "\r\n"
    ++ codes "Content-Length: "
    ++ to_string (length api_response)
    ++ codes "\r\n"
    ++ codes "Access-Control-Allow-Origin: *\r\n"
    ++ codes "Content-Type: application/json\r\n"
    ++ codes "\r\n"
    ++ api_response

-- `ApiClient::buildApiOkResponse`
unfoldable pub build_api_ok_response : Bytes → Bytes
build_api_ok_response body =
    codes "HTTP/1.1 200 OK\r\n"
    ++ codes "Content-Length: "
    ++ to_string (length body)
    ++ codes "\r\n"
    ++ codes "Content-Type: application/json\r\n"
    ++ codes "Access-Control-Allow-Origin: *\r\n"
    ++ codes "\r\n"
    ++ body
