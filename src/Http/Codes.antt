-- ===== src/Http/Codes.antt =====
-- include/http.h: buffer sizes, status codes and parser codes; src/http.c: their texts.
use rpiweatherd.Base.{ℕ, ℤ, Bytes, Option, none, some, codes, ◌==◌, eq_ℤ, if◌then◌else◌}
use rpiweatherd.Http.Error

abbrev pub http_response_header_size : ℕ
http_response_header_size = 512

abbrev pub http_command_max_size : ℕ
http_command_max_size = 1024

abbrev pub http_proto_max_size : ℕ
http_proto_max_size = 16

abbrev pub http_args_max_size : ℕ
http_args_max_size = 512

abbrev pub response_buffer_size : ℕ
response_buffer_size = 4096

-- NULL for a code that the switch does not name.
unfoldable pub http_code_str : ℕ → Option Bytes
http_code_str code =
    if code == 200
    then some (codes "200 OK")
    else if code == 204
    then some (codes "204 No Content")
    else if code == 400
    then some (codes "400 Bad Request")
    else if code == 403
    then some (codes "403 Forbidden")
    else if code == 404
    then some (codes "404 Not Found")
    else if code == 429
    then some (codes "429 Too Many Requests")
    else if code == 408
    then some (codes "408 Request Timeout")
    else if code == 413
    then some (codes "413 Payload Too Large")
    else if code == 414
    then some (codes "414 URI Too Long")
    else if code == 500
    then some (codes "500 Internal Server Error")
    else if code == 505
    then some (codes "505 HTTP Version Not Supported")
    else if code == 507
    then some (codes "507 Insufficient Storage")
    else none

unfoldable pub http_parser_strerror : ℤ → Bytes
http_parser_strerror errcode =
    if eq_ℤ errcode Error.success
    then codes "Success"
    else if eq_ℤ errcode Error.unknown_param
    then codes "Unknown parameter"
    else if eq_ℤ errcode Error.request_too_long
    then codes "HTTP request line is too long"
    else if eq_ℤ errcode Error.params_required
    then codes "HTTP command requires parameters"
    else if eq_ℤ errcode Error.bad_request_format
    then codes "HTTP request is malformed."
    else if eq_ℤ errcode Error.wrong_protocol
    then codes "rpiweatherd only supports HTTP/1.0 or HTTP/1.1"
    else if eq_ℤ errcode Error.duplicate_params
    then codes "Duplicate parameters in HTTP query string"
    else codes "Unknown error"
