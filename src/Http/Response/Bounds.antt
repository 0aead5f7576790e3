-- ===== src/Http/Response/Bounds.antt =====
-- A response fits its buffers.
use rpiweatherd.Base.{
  ℕ, suc, ◌+◌, ◌≤◌, ◌<◌, ◌^◌, ◌≡◌, refl, pos, true, Option, some, [], ◌∷◌, ◌++◌, Bytes, codes,
  length, length-append, length-take-le, take, lt→ltb, ret, arith,
}
use rpiweatherd.CLib.Decimal.{decimal, decimal_ℤ}
use rpiweatherd.CLib.Decimal.Laws.{length-decimal_ℤ}
use rpiweatherd.CLib.Text.{Malloc, strcpy}
use rpiweatherd.Http.Codes.{http_code_str}
use rpiweatherd.Http.Response.{
  content_length_line, chop, response_text, or_empty, status_text, make_response,
}
use rpiweatherd.Util.Lines.{crlf}

strcpy_fits : (size : ℕ) (s : Bytes) → length s < size → strcpy size s ≡ ret s
unfolding strcpy
strcpy_fits size s h = rw (lt→ltb (length s) size h) refl

length-http_code_str :
    (code : ℕ) {status : Bytes} → http_code_str code ≡ some status → length status ≤ 30
unfolding http_code_str
length-http_code_str code h = ground arith

length-content_length_line :
    (body : Bytes) → length body < 2 ^ 31 → length (content_length_line body) ≤ 29
unfolding content_length_line decimal_ℤ
length-content_length_line [] h = omega arith
length-content_length_line (c ∷ body) h = omega (
  arith,
  length-append (decimal (suc (length body))) crlf,
  length-decimal_ℤ (pos (suc (length body))) h,
)

length-response_text :
    (status date server content_length body : Bytes)
    → length (response_text status date server content_length body)
      ≡ 81
        + (length status + (length date + (length server + (length content_length + length body))))
unfolding response_text
length-response_text status date server content_length body =
    let after_length = crlf ++ body in
    let after_server =
      crlf
      ++ (codes "Cache-control: no-store"
          ++ (crlf
              ++ (codes "Content-Type: text/html"
                  ++ (crlf ++ (content_length ++ after_length))))) in
    let after_date = crlf ++ (codes "Server: " ++ (server ++ after_server)) in
    omega (
      arith,
      length-append content_length after_length,
      length-append server after_server,
      length-append date after_date,
      length-append status (crlf ++ (codes "Date: " ++ (date ++ after_date))),
    )

-- If memory is available, the code is one that has a text, the date is a line of at most 25 bytes,
-- the server's name has at most 300, and the data are shorter than 2 ^ 31, then no buffer of the
-- response is written past its end, and the response is the template filled with the text of the
-- code, the line of the date without its last byte, the name, the line of the length and the data.
pub make_response_fits :
    (malloc : Malloc) (server_id : Bytes) (c : ℕ) (day : Bytes) (code : ℕ) (body : Option Bytes)
    {status : Bytes}
    → malloc (512 + length (or_empty body)) ≡ true
    → http_code_str code ≡ some status
    → length day ≤ 24
    → length server_id ≤ 300
    → length (or_empty body) < 2 ^ 31
    → make_response malloc server_id (c ∷ day) code body
      ≡ ret (
          some (
            response_text status
              (take (length day) (c ∷ day))
              server_id
              (content_length_line (or_empty body))
              (or_empty body)))
unfolding make_response chop
make_response_fits malloc server_id c day code body {status} m named short name small =
    let line = content_length_line (or_empty body) in
    let text = response_text status (take (length day) (c ∷ day)) server_id line (or_empty body) in
    let status_fits = length-http_code_str code named in
    let line_fits = length-content_length_line (or_empty body) small in
    let size =
      length-response_text status (take (length day) (c ∷ day)) server_id line (or_empty body) in
    let date_fits = length-take-le (length day) (c ∷ day) in
    let status_ok : status_text code ≡ ret status =
      rw (status_text, named) (strcpy_fits 256 status (omega (arith, status_fits))) in
    let line_ok = strcpy_fits 256 line (omega (arith, line_fits)) in
    let date_ok = strcpy_fits 26 (c ∷ day) (omega arith) in
    let text_ok =
      strcpy_fits (512 + length (or_empty body)) text
        (omega (arith, status_fits, line_fits, size, date_fits)) in
    rw (m, status_ok, line_ok, date_ok, text_ok) refl
