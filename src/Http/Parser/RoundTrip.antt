-- ===== src/Http/Parser/RoundTrip.antt =====
-- The parser reads back the request that a client wrote.
use rpiweatherd.Base.{
  length-map, sym, ◌*◌, ℕ, ℤ, suc, ◌+◌, ◌<◌, ◌≡◌, ◌≢◌, refl, none, some, List, [], ◌∷◌, ◌++◌, Bytes,
  length, ret, All, arith, map, ap, ◌∙◌, take,
}
use rpiweatherd.CLib.Text.{Malloc}
use rpiweatherd.CLib.Token.{strtok-lt}
use rpiweatherd.Util.Lines.{rpiwd_getline, rpiwd_getline-crlf, crlf}
use rpiweatherd.Http.Params.{HttpCmdParam, HttpCmd, used, is_ampersand, parse_http_param}
use rpiweatherd.Http.Params.Distinct.{Named, Distinct, check_duplicates-Distinct}
use rpiweatherd.Http.Parser.{
  sizeof_http_cmd, sizeof_http_cmd_param, parse_single, fit_params, parse_params, reject_duplicates,
  build_command, parse_line, parse_http_request, count_ampersands,
}
use rpiweatherd.Http.Parser.Parts.{
  Available, to_param, parse_http_param-print_param, strtok-print_query, parse_parts-print_query,
  count_ampersands-print_query, strdup-some,
}
use rpiweatherd.Http.Request.Print.{
  Query, print_query, print_line, IsLine, print_line-ne-nil, print_line-Free, IsParam,
}
use rpiweatherd.Http.Request.RoundTrip.{break_request-print_line}

take-all : (qs : List HttpCmdParam) → take (length qs) qs ≡ qs
take-all [] = refl
take-all (q ∷ qs) = ap (◌∷◌ q) (take-all qs)

-- What the query is parsed to: one entry of the array stands there also where it is empty.
abbrev pub to_params : Query → List HttpCmdParam
to_params [] = record { name = none; value = none } ∷ []
to_params (q ∷ qs) = map to_param (q ∷ qs)

abbrev pub to_cmd : Bytes → Query → HttpCmd
to_cmd name query = record { cmdname = name; length = length query; params = to_params query }

-- One parameter more than ampersands: the array is kept.
fit_params_exact :
    (malloc : Malloc) (name : Bytes) (n : ℕ) (ps : List HttpCmdParam)
    → length ps ≡ suc n
    → fit_params malloc name n ps
      ≡ ret (some (record { cmdname = name; length = length ps; params = ps }))
unfolding fit_params
fit_params_exact malloc name n ps e = ground arith

shorter_tail :
    (q r : Bytes × Bytes) (qs : Query)
    → IsParam q
    → length (print_query (r ∷ qs)) < length (print_query (q ∷ r ∷ qs))
shorter_tail q r qs h =
    let e = strtok-print_query q (r ∷ qs) h in
    rw e at (strtok-lt is_ampersand (print_query (q ∷ r ∷ qs)) (ap (λ x. x.0) e))

parse_params-print_query :
    (malloc : Malloc) (name : Bytes) (query : Query)
    → Available malloc
    → All IsParam query
    → parse_params malloc name (print_query query) ≡ ret (some (to_cmd name query))
unfolding parse_params
parse_params-print_query malloc name [] m h =
    unfold parse_params count_ampersands parse_single parse_http_param in refl
parse_params-print_query malloc name (q ∷ []) m h =
    rw (count_ampersands-print_query q [] h)
      (unfold parse_single in rw (parse_http_param-print_param malloc q m h.0))
parse_params-print_query malloc name (q ∷ r ∷ qs) m h =
    rw
      (
        count_ampersands-print_query q (r ∷ qs) h,
        strtok-print_query q (r ∷ qs) h.0,
        parse_parts-print_query malloc (length (print_query (q ∷ r ∷ qs))) q (r ∷ qs) m
            (shorter_tail q r qs h.0) h.0 h.1,
        fit_params_exact malloc name (length (r ∷ qs)) (map to_param (q ∷ r ∷ qs))
            (length-map to_param (q ∷ r ∷ qs)),
        length-map to_param qs,
      )
      (ground arith)

pub used-to_cmd : (name : Bytes) (query : Query) → used (to_cmd name query) ≡ map to_param query
used-to_cmd name [] = refl
used-to_cmd name (q ∷ qs) =
    ap (λ n. take n (map to_param (q ∷ qs))) (sym (length-map to_param (q ∷ qs)))
    ∙ take-all (map to_param (q ∷ qs))

Named-map : (query : Query) → Named (map to_param query)
Named-map [] = tt
Named-map (q ∷ qs) = (λ e. cc, Named-map qs)

-- No key stands twice.
abbrev pub DistinctKeys : Query → Type 0
DistinctKeys [] = Unit
DistinctKeys (q ∷ qs) = All (λ r. q.0 ≢ r.0) qs × DistinctKeys qs

Distinct-map : (query : Query) → DistinctKeys query → Distinct (map to_param query)
Distinct-map [] d = tt
Distinct-map (q ∷ qs) d = (differ qs d.0, Distinct-map qs d.1)
  where
    differ : (rs : Query) → All (λ r. q.0 ≢ r.0) rs → All (λ p. some q.0 ≢ p.name) (map to_param rs)
    differ [] h = tt
    differ (r ∷ rs) h = (λ e. h.0 (cc), differ rs h.1)

reject_duplicates-to_cmd :
    (response : ℤ) (name : Bytes) (query : Query)
    → DistinctKeys query
    → reject_duplicates response (some (to_cmd name query))
      ≡ ret (some (to_cmd name query), response)
unfolding reject_duplicates
reject_duplicates-to_cmd response name query d = rw (
    check_duplicates-Distinct (to_cmd name query) (rw (used-to_cmd name query) (Named-map query))
      (rw (used-to_cmd name query) (Distinct-map query d)))

build_command-print_query :
    (malloc : Malloc) (response : ℤ) (name : Bytes) (query : Query)
    → Available malloc
    → All IsParam query
    → DistinctKeys query
    → build_command malloc response name (print_query query)
      ≡ ret (some (to_cmd name query), response)
unfolding build_command
build_command-print_query malloc response name query m h d =
    rw
      (
        m sizeof_http_cmd,
        strdup-some malloc name m,
        m (sizeof_http_cmd_param * (count_ampersands (print_query query) + 1)),
        parse_params-print_query malloc name query m h,
      )
      (reject_duplicates-to_cmd response name query d)

pub parse_http_request-line :
    (malloc : Malloc) (request : Bytes) (response : ℤ) (line : Bytes)
    → rpiwd_getline malloc request crlf ≡ some line
    → parse_http_request malloc request response ≡ parse_line malloc response line
unfolding parse_http_request
parse_http_request-line malloc request response line e = rw (e, parse_http_request)

parse_line-print_line :
    (malloc : Malloc) (response : ℤ) (method name : Bytes) (query : Query) (proto : Bytes)
    → Available malloc
    → IsLine method name query proto
    → DistinctKeys query
    → parse_line malloc response (print_line method name query proto)
      ≡ ret (some (to_cmd name query), response)
unfolding parse_line
parse_line-print_line malloc response method name query proto m w d =
    rw (break_request-print_line method name query proto w, w.proto_supported)
      (build_command-print_query malloc response name query m w.params d)

-- A request line that is written by the grammar `method /name?key=value&… protocol`, with words
-- that hold no delimiter, no key twice and at most 511 bytes of query and 1023 of line, is parsed
-- to the command and the parameters that it was written from, and `*response` is left alone, if
-- memory is available. Whatever follows the line is not read.
pub parse_http_request-print_line :
    (malloc : Malloc) (response : ℤ) (method name : Bytes) (query : Query) (proto rest : Bytes)
    → Available malloc
    → IsLine method name query proto
    → DistinctKeys query
    → parse_http_request malloc (print_line method name query proto ++ (crlf ++ rest)) response
      ≡ ret (some (to_cmd name query), response)
parse_http_request-print_line malloc response method name query proto rest m w d =
    let line = print_line method name query proto in
    parse_http_request-line malloc (line ++ (crlf ++ rest)) response line (
      rpiwd_getline-crlf malloc line rest m (print_line-ne-nil method name query proto w)
        (print_line-Free method name query proto w))
    ∙ parse_line-print_line malloc response method name query proto m w d
