-- ===== src/Http/Response.antt =====
-- src/http.c: make_response. The server's name and the text of ctime_r are parameters.
pub mod Bounds
use rpiweatherd.Base.{
  ℕ, ◌+◌, Bool, Option, none, some, [], ◌∷◌, ◌++◌, ◌==◌, Bytes, codes, length, take, if◌then◌else◌,
  Outcome, ret, fault, null_pointer, write_overflow, ◌>>=◌,
}
use rpiweatherd.CLib.Decimal.{decimal}
use rpiweatherd.CLib.Text.{Malloc, strcpy}
use rpiweatherd.Http.Codes.{http_response_header_size, http_code_str}
use rpiweatherd.Util.Lines.{crlf}

-- Half of HTTP_RESPONSE_HEADER_SIZE, and the size that ctime_r asks for.
abbrev pub resp_string_size : ℕ
resp_string_size = 256

abbrev pub date_buffer_size : ℕ
date_buffer_size = 26

-- The line for the length of the data, if there is data.
unfoldable pub content_length_line : Bytes → Bytes
unfolding decimal
content_length_line [] = []
content_length_line (c ∷ body) = codes "Content-Length: " ++ (decimal (length (c ∷ body)) ++ crlf)

-- The text without its last byte. That of an empty text stands in front of the buffer.
unfoldable pub chop : Bytes → Outcome Bytes
chop [] = fault write_overflow
chop (c ∷ s) = ret (take (length s) (c ∷ s))

-- HTTP_RESPONSE_TEMPLATE.
unfoldable pub response_text : Bytes → Bytes → Bytes → Bytes → Bytes → Bytes
response_text status date server content_length body =
    codes "HTTP/1.1 "
    ++ (status
        ++ (crlf
            ++ (codes "Date: "
                ++ (date
                    ++ (crlf
                        ++ (codes "Server: "
                            ++ (server
                                ++ (crlf
                                    ++ (codes "Cache-control: no-store"
                                        ++ (crlf
                                            ++ (codes "Content-Type: text/html"
                                                ++ (crlf
                                                    ++ (content_length
                                                        ++ (crlf ++ body))))))))))))))

abbrev pub or_empty : Option Bytes → Bytes
or_empty none = []
or_empty (some body) = body

-- The text of a status. A code that is unknown gives NULL for the format.
abbrev pub status_text : ℕ → Outcome Bytes
status_text code = elim (http_code_str code) [
  | none ↦ fault null_pointer
  | some status ↦ strcpy resp_string_size status
]

-- The response, or NULL.
unfoldable pub make_response : Malloc → Bytes → Bytes → ℕ → Option Bytes → Outcome (Option Bytes)
unfolding response_text content_length_line chop strcpy
make_response malloc server_id ctime code body =
    let size = http_response_header_size + length (or_empty body) in
    if malloc size
    then (do
      status ← status_text code
      content_length ← strcpy resp_string_size (content_length_line (or_empty body))
      date_buffer ← strcpy date_buffer_size ctime
      date ← chop date_buffer
      response ← strcpy size (response_text status date server_id content_length (or_empty body))
      ret (some response))
    else ret none
