-- ===== src/Listener/Start/Socket.antt =====
-- src/listener.c: get_bound_socket. The addresses of getaddrinfo, and what the system makes of a
-- socket for each, are parameters.
use rpiweatherd.Base.{
  ℕ, ◌<◌, ◌≡◌, refl, ℤ, pos, neg, Bool, true, not, ◌&&◌, Option, none, some, List, [], ◌∷◌, ◌++◌,
  Bytes, length, if◌then◌else◌, All, Outcome, ret, ◌>>=◌, arith, ltb,
}
use rpiweatherd.CLib.Text.{strcpy}
use rpiweatherd.CLib.Decimal.{decimal_ℤ}
use rpiweatherd.CLib.Decimal.Laws.{IsInt, length-decimal_ℤ}

abbrev pub str_port_buffer_size : ℕ
str_port_buffer_size = 16

-- The descriptor of a socket for the address, if there is one, and whether the option can be set
-- and the address bound.
pub record Address : Type 0 where
  pub socket : Option ℕ
  pub reusable : Bool
  pub binds : Bool

-- The loop over the addresses: the result, and the sockets that stay open behind an error.
unfoldable pub walk : List Address → ℤ × List ℕ
walk [] = (neg 1, [])
walk (rp ∷ rps) =
    let later = walk rps in
    elim rp.socket [
      | none ↦ later
      | some sockfd ↦
          if not rp.reusable
          then (neg 1, sockfd ∷ [])
          else if rp.binds
          then (pos sockfd, [])
          else (neg 1, sockfd ∷ [])
    ]

unfoldable pub get_bound_socket : (Bytes → Option (List Address)) → ℤ → Outcome (ℤ × List ℕ)
unfolding walk strcpy decimal_ℤ
get_bound_socket getaddrinfo port = do
  str_port ← strcpy str_port_buffer_size (decimal_ℤ port)
  ret (elim (getaddrinfo str_port) as (λ _. ℤ × List ℕ) [
    | none ↦ (neg 1, [])
    | some result ↦ walk result
  ])

walk-skipped :
    (skipped : List Address) (rp : Address) (rest : List Address) (sockfd : ℕ)
    → All (λ a. a.socket ≡ none) skipped
    → rp.socket ≡ some sockfd
    → walk (skipped ++ (rp ∷ rest))
      ≡ (if rp.reusable && rp.binds then (pos sockfd, []) else (neg 1, sockfd ∷ []))
unfolding walk
walk-skipped [] rp rest sockfd h e = rw (walk, e) (ground arith)
walk-skipped (a ∷ skipped) rp rest sockfd h e = rw (h.0) (walk-skipped skipped rp rest sockfd h.1 e)

-- For any port of type int, whose text fits its buffer, the first address for which there is a
-- socket decides: if it can be reused and bound, the socket is returned; if not, the result is -1
-- and the socket stays open. No later address is tried.
pub get_bound_socket_first :
    (getaddrinfo : Bytes → Option (List Address)) (port : ℤ) (skipped : List Address) (rp : Address)
    (rest : List Address) (sockfd : ℕ)
    → IsInt port
    → getaddrinfo (decimal_ℤ port) ≡ some (skipped ++ (rp ∷ rest))
    → All (λ a. a.socket ≡ none) skipped
    → rp.socket ≡ some sockfd
    → get_bound_socket getaddrinfo port
      ≡ ret (if rp.reusable && rp.binds then (pos sockfd, []) else (neg 1, sockfd ∷ []))
unfolding get_bound_socket strcpy
get_bound_socket_first getaddrinfo port skipped rp rest sockfd int found none_before e =
    rw
      (
        get_bound_socket,
        strcpy,
        fits (length (decimal_ℤ port)) (omega (arith, length-decimal_ℤ port int)),
        found,
        walk-skipped skipped rp rest sockfd none_before e,
      )
      refl
  where
    fits : (n : ℕ) → n < 16 → ltb n 16 ≡ true
    fits n h = ground arith
