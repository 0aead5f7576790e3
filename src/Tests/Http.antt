-- ===== src/Tests/Http.antt =====
-- Runs of the request parser on concrete requests.
use rpiweatherd.Base.{
  Bytes, ◌≡◌, ◌≢◌, ℕ, zero, suc, refl, ret, fault, some, [], ◌∷◌, codes, write_overflow,
  null_pointer, replicate, pos, ◌++◌, Free, arith, ◌==◌,
}
use rpiweatherd.CLib.Text.{strdup}
use rpiweatherd.Tests.Values.{all_fits}
use rpiweatherd.Http.Request.Print.{Query, IsLine, print_line}
use rpiweatherd.Http.Parser.RoundTrip.{to_cmd, parse_http_request-print_line}
use rpiweatherd.Http.Parser.Safety.{
  IsClean, parse_http_request-IsClean, parse_http_request_overflow,
}
use rpiweatherd.Util.Lines.{crlf}
use rpiweatherd.Http.Request.{is_supported, break_request}
use rpiweatherd.Util.Lines.{rpiwd_getline}
use rpiweatherd.Http.Params.{parse_http_param, check_duplicates}
use rpiweatherd.Http.Parser.{
  parse_line, build_command, parse_params, parse_parts, continue_parts, count_ampersands,
  reject_duplicates, parse_http_request,
}

abbrev two_keys : Query
two_keys = (codes "a", codes "1") ∷ (codes "b", codes "2") ∷ []

request_two :
    parse_http_request all_fits
      (codes "GET /fetch?from=1d&to=now HTTP/1.1\r\nHost: x\r\n\r\n")
      (pos 0)
    ≡ ret (
      some (record {
        cmdname = codes "fetch";
        length = 2;
        params =
            record { name = some (codes "from"); value = some (codes "1d") }
            ∷ record { name = some (codes "to"); value = some (codes "now") }
            ∷ [];
      }),
      pos 0,
    )
unfolding rpiwd_getline is_supported break_request parse_line build_command parse_params parse_parts
    continue_parts strdup parse_http_param count_ampersands reject_duplicates check_duplicates
    parse_http_request
request_two = refl

request_null_name :
    parse_http_request all_fits (codes "GET /fetch?a=1&= HTTP/1.1\r\n") (pos 0) ≡ fault null_pointer
unfolding rpiwd_getline is_supported break_request parse_line build_command parse_params parse_parts
    continue_parts strdup parse_http_param count_ampersands reject_duplicates check_duplicates
    parse_http_request
request_null_name = refl

request_long :
    parse_http_request all_fits (replicate 1100 b'a' ++ codes "\r\n") (pos 0) ≡ fault write_overflow
unfolding rpiwd_getline is_supported break_request parse_line build_command parse_params parse_parts
    continue_parts strdup parse_http_param count_ampersands reject_duplicates check_duplicates
    parse_http_request
request_long = refl

two_keys-IsLine : IsLine (codes "GET") (codes "f") two_keys (codes "HTTP/1.1")
unfolding is_supported
two_keys-IsLine = record {
  method_word = ((λ e. cc), (refl, (refl, (refl, tt))));
  name_word = ((λ e. cc), (refl, tt));
  params = (
    (((λ e. cc), (refl, tt)), ((λ e. cc), (refl, tt))),
    ((((λ e. cc), (refl, tt)), ((λ e. cc), (refl, tt))), tt),
  );
  proto_supported = refl;
  query_fits = omega arith;
  line_fits = omega arith;
}

two_keys-differ : codes "a" ≢ codes "b"
two_keys-differ e = ground arith

parse_http_request-print_line_example :
    parse_http_request all_fits
      (print_line (codes "GET") (codes "f") two_keys (codes "HTTP/1.1")
        ++ (crlf ++ codes "Host: x"))
      (pos 0)
    ≡ ret (some (to_cmd (codes "f") two_keys), pos 0)
parse_http_request-print_line_example =
    parse_http_request-print_line all_fits (pos 0) (codes "GET") (codes "f") two_keys
      (codes "HTTP/1.1") (codes "Host: x") (λ n. refl) two_keys-IsLine
      ((two_keys-differ, tt), (tt, tt))

parse_http_request-IsClean_example : IsClean (record {
  cmdname = codes "fetch";
  length = 2;
  params =
      record { name = some (codes "from"); value = some (codes "1d") }
      ∷ record { name = some (codes "to"); value = some (codes "now") }
      ∷ [];
})
parse_http_request-IsClean_example =
    parse_http_request-IsClean all_fits
      (codes "GET /fetch?from=1d&to=now HTTP/1.1\r\nHost: x\r\n\r\n") (pos 0) request_two

long_line-Free : Free (λ c. c == b'\r') (replicate 1100 b'a')
long_line-Free = free_run 1100
  where
    free_run : (n : ℕ) → Free (λ c. c == b'\r') (replicate n b'a')
    free_run zero = tt
    free_run (suc n) = (refl, free_run n)

parse_http_request_overflow_example :
    parse_http_request all_fits (replicate 1100 b'a' ++ (crlf ++ [])) (pos 0) ≡ fault write_overflow
parse_http_request_overflow_example =
    parse_http_request_overflow all_fits (replicate 1100 b'a') [] (pos 0) (λ n. refl) long_line-Free
      (omega arith)

abbrev new_year : Bytes
new_year = codes "un Jan  1 12:00:00 2017" ++ (10 ∷ [])
