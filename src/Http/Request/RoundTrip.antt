-- ===== src/Http/Request/RoundTrip.antt =====
-- What break_request makes of a request line that a client wrote.
use rpiweatherd.Base.{
  ◌≤◌, ◌<◌, ◌≡◌, refl, ◌||◌, true, false, some, [], ◌∷◌, ◌++◌, ◌==◌, Bytes, length, ret, All,
  All-append_left, Free, arith, lt→ltb, Bool-cases, inl, inr, length-append,
}
use rpiweatherd.CLib.Text.{strcpy}
use rpiweatherd.CLib.Token.{strtok, strtok_delimited, strtok_last}
use rpiweatherd.Http.Error
use rpiweatherd.Http.Request.{
  is_space, is_command_delim, is_supported, break_protocol, break_args, break_command, break_method,
  break_request,
}
use rpiweatherd.Http.Request.Print.{
  Query, print_param, print_query, print_args, print_tail, print_line, IsWord, IsParam, IsLine,
  Free-map, print_query-Free, print_query-ne-nil, supported_Free, supported-ne-nil, supported_short,
}

-- A query is not mistaken for the protocol.
query_unsupported : (q : Bytes × Bytes) (qs : Query) → is_supported (print_query (q ∷ qs)) ≡ false
query_unsupported q qs = elim (Bool-cases (is_supported (print_query (q ∷ qs)))) [
  | inl s ↦
      absurd
        (has_equals q qs (Free-map _ (λ c. c == b'=') _ (λ c f. ground arith) (supported_Free _ s)))
  | inr s ↦ s
]
  where
    param_equals : (k r : Bytes) → Free (λ c. c == b'=') (k ++ (b'=' ∷ r)) → ⊥
    param_equals [] r f = cc (f.0)
    param_equals (c ∷ k) r f = param_equals k r f.1

    has_equals : (q : Bytes × Bytes) (qs : Query) → Free (λ c. c == b'=') (print_query (q ∷ qs)) → ⊥
    has_equals (k, v) [] f = param_equals k v f
    has_equals (k, v) (r ∷ qs) f =
        param_equals k v (All-append_left (λ c. (c == b'=') ≡ false) (print_param (k, v)) _ f)

-- The line behind the command, with and without arguments.
break_args-print_args :
    (command : Bytes) (query : Query) (proto : Bytes)
    → All IsParam query
    → is_supported proto ≡ true
    → length (print_query query) < 512
    → break_args command (strtok is_space (print_tail query proto))
      ≡ ret (record {
        flag = Error.success;
        http_proto = proto;
        args = print_query query;
        commandstr = command;
      })
unfolding break_args break_protocol strcpy
break_args-print_args command [] proto h s fits = rw (
  strtok_last is_space [] proto tt (supported-ne-nil proto s)
      (Free-map _ is_space proto (λ c f. ground arith) (supported_Free proto s)),
  s,
  lt→ltb _ _ (supported_short proto s),
)
break_args-print_args command (q ∷ qs) proto h s fits = rw (
  strtok_delimited is_space [] (print_query (q ∷ qs)) b' ' proto tt (print_query-ne-nil q qs)
      (print_query-Free is_space (q ∷ qs) (λ c f. ground arith) refl refl h) refl,
  query_unsupported q qs,
  lt→ltb _ _ fits,
  strtok_last is_space [] proto tt (supported-ne-nil proto s)
      (Free-map _ is_space proto (λ c f. ground arith) (supported_Free proto s)),
  lt→ltb _ _ (supported_short proto s),
)

-- The command is cut off at the question mark, or at the space before the protocol.
name_token :
    (name : Bytes) (query : Query) (proto : Bytes)
    → IsWord (λ c. is_command_delim c || c == b'\r') name
    → strtok is_command_delim (b'/' ∷ (name ++ print_args query (b' ' ∷ proto)))
      ≡ (some name, print_tail query proto)
name_token name [] proto w =
    strtok_delimited is_command_delim (b'/' ∷ []) name b' ' proto (refl, tt) w.0
      (Free-map _ is_command_delim name (λ c f. ground arith) w.1) refl
name_token name (q ∷ qs) proto w =
    strtok_delimited is_command_delim (b'/' ∷ []) name b'?' (print_query (q ∷ qs) ++ (b' ' ∷ proto))
      (refl, tt) w.0 (Free-map _ is_command_delim name (λ c f. ground arith) w.1) refl

name_short :
    (method name args : Bytes) → length name ≤ length (method ++ (b' ' ∷ b'/' ∷ (name ++ args)))
name_short method name args =
    omega
      (arith, length-append {0} method (b' ' ∷ b'/' ∷ (name ++ args)), length-append {0} name args)

-- The line is cut into the parts that it was made of.
pub break_request-print_line :
    (method name : Bytes) (query : Query) (proto : Bytes)
    → IsLine method name query proto
    → break_request (print_line method name query proto)
      ≡ ret (record {
        flag = Error.success;
        http_proto = proto;
        args = print_query query;
        commandstr = name;
      })
unfolding break_request break_method break_command strcpy
break_request-print_line method name query proto w =
    rw
      (
        lt→ltb _ _ w.line_fits,
        strtok_delimited is_space [] method b' ' (b'/' ∷ (name ++ print_args query (b' ' ∷ proto)))
            tt w.method_word.0 (Free-map _ is_space method (λ c f. ground arith) w.method_word.1)
            refl,
        name_token name query proto w.name_word,
        lt→ltb (length name) 1024
            (omega (arith, w.line_fits, name_short method name (print_args query (b' ' ∷ proto)))),
      )
      (break_args-print_args name query proto w.params w.proto_supported w.query_fits)
