-- ===== src/Listener/Worker/Receives.antt =====
-- What a worker makes of the buffer that a client's request was read into.
use rpiweatherd.Base.{
  ℕ, zero, suc, ◌+◌, ◌-◌, ◌≤◌, ◌≡◌, refl, sym, ap, ◌∙◌, Bool, some, [], ◌∷◌, ◌++◌, ◌==◌, Bytes,
  length, length-append, take, drop, Free, ret, arith, Bool-cases, inl, inr,
}
use rpiweatherd.CLib.Text.{Malloc, has_char}
use rpiweatherd.CLib.Token.{take_until}
use rpiweatherd.Util.Lines.{crlf, find-crlf}
use rpiweatherd.Http.Codes.{response_buffer_size}
use rpiweatherd.Http.Parser.Parts.{Available}
use rpiweatherd.Http.Parser.RoundTrip.{to_cmd, DistinctKeys, parse_http_request-print_line}
use rpiweatherd.Http.Request.Print.{Query, IsLine, print_line, print_line-Free}
use rpiweatherd.Listener.Worker.{Worker, received, fill, c_string, read_and_parse_response}

take_past : (n : ℕ) (s r : Bytes) → length s ≤ n → take n (s ++ r) ≡ s ++ take (n - length s) r
take_past n [] r h = rw (zero_sub n) refl
  where
    zero_sub : (n : ℕ) → n - 0 ≡ n
    zero_sub n = omega arith
take_past zero (c ∷ s) r h = absurd (omega arith)
take_past (suc n) (c ∷ s) r h =
    let e : suc n - suc (length s) ≡ n - length s = omega arith in
    rw e (ap (◌∷◌ c) (take_past n s r (omega arith)))

append_assoc₃ : (a b c : Bytes) → (a ++ b) ++ c ≡ a ++ (b ++ c)
append_assoc₃ [] b c = refl
append_assoc₃ (x ∷ a) b c = ap (◌∷◌ x) (append_assoc₃ a b c)

take_until_past :
    (p : ℕ → Bool) (s r : Bytes) → Free p s → take_until p (s ++ r) ≡ s ++ take_until p r
unfolding take_until
take_until_past p [] r f = refl
take_until_past p (c ∷ s) r f = rw (f.0) (ap (◌∷◌ c) (take_until_past p s r f.1))

-- A line that ends inside the buffer is found in the string, whatever stands behind it.
c_string-line :
    (line rest : Bytes)
    → Free (λ c. c == 0) line
    → Free (λ c. c == b'\r') line
    → (rest' : Bytes) × (c_string (line ++ (crlf ++ rest)) ≡ ret (line ++ (crlf ++ rest')))
unfolding c_string take_until
c_string-line line rest nul return = elim (Bool-cases (has_char 0 (line ++ (crlf ++ rest)))) [
  | inl ends ↦ (
    take_until (λ c. c == 0) rest,
    rw (c_string, ends, take_until_past (λ c. c == 0) line (crlf ++ rest) nul) refl,
  )
  | inr open_end ↦ (rest, rw (c_string, open_end, find-crlf line rest return) refl)
]

fill-line :
    (line rest stale : Bytes)
    → length line + 2 ≤ response_buffer_size
    → (rest' : Bytes) × (fill (line ++ (crlf ++ rest)) stale ≡ line ++ (crlf ++ rest'))
fill-line line rest stale h =
    let more = rest ++ drop (length (line ++ (crlf ++ rest))) stale in
    (
      take (response_buffer_size - length (line ++ crlf)) more,
      ap (take response_buffer_size) (
            append_assoc₃ line (crlf ++ rest) (drop (length (line ++ (crlf ++ rest))) stale)
            ∙ sym (append_assoc₃ line crlf more))
          ∙ take_past response_buffer_size (line ++ crlf) more
              (omega (arith, length-append line crlf))
          ∙ append_assoc₃ line crlf (take (response_buffer_size - length (line ++ crlf)) more),
    )

-- A request that a client wrote and that arrives in one read becomes the command that it was
-- written from, whatever an earlier request left in the buffer.
pub read_and_parse_response-print_line :
    (malloc : Malloc) (stale : Bytes) (w : Worker) (method name : Bytes) (query : Query)
    (proto rest : Bytes)
    → Available malloc
    → IsLine method name query proto
    → DistinctKeys query
    → Free (λ c. c == 0) (print_line method name query proto)
    → read_and_parse_response malloc stale
        (received (print_line method name query proto ++ (crlf ++ rest)))
        w
      ≡ ret (some (to_cmd name query), w)
unfolding read_and_parse_response
read_and_parse_response-print_line malloc stale w method name query proto rest m l d nul =
    let line = print_line method name query proto in
    let (rest₁, filled) = fill-line line rest stale (omega (arith, l.line_fits)) in
    let (rest₂, string) =
      c_string-line line rest₁ nul (print_line-Free method name query proto l) in
    rw
      (
        read_and_parse_response,
        filled,
        string,
        parse_http_request-print_line malloc w.response method name query proto rest₂ m l d,
      )
      refl
