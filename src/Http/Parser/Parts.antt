-- ===== src/Http/Parser/Parts.antt =====
-- The loop over the parts of a query: what it makes of a query that a client wrote, and that its
-- fuel is enough.
use rpiweatherd.Base.{
  ℕ, zero, suc, ◌+◌, ◌<◌, ◌≡◌, refl, true, none, some, [], ◌∷◌, ◌++◌, Bytes, length, ret, All, Free,
  arith, map, ap,
}
use rpiweatherd.CLib.Text.{Malloc, strdup}
use rpiweatherd.CLib.Token.{strtok, strtok_delimited, strtok_last, strtok-none, strtok-lt}
use rpiweatherd.Http.Params.{HttpCmdParam, is_ampersand, is_equals, parse_http_param}
use rpiweatherd.Http.Parser.{continue_parts, parse_parts, count_ampersands}
use rpiweatherd.Http.Request.Print.{
  Query, print_param, print_query, IsParam, Free-map, print_param-Free, print_param-ne-nil,
}

abbrev pub Available : Malloc → Type 0
Available malloc = (n : ℕ) → malloc n ≡ true

abbrev pub to_param : Bytes × Bytes → HttpCmdParam
to_param (k, v) = record { name = some k; value = some v }

pub strdup-some : (malloc : Malloc) (s : Bytes) → Available malloc → strdup malloc s ≡ some s
unfolding strdup
strdup-some malloc s m = rw (m (length s + 1))

pub parse_http_param-print_param :
    (malloc : Malloc) (q : Bytes × Bytes)
    → Available malloc
    → IsParam q
    → parse_http_param malloc (some (print_param q)) ≡ ret (to_param q)
unfolding parse_http_param
parse_http_param-print_param malloc (k, v) m h = rw (
  strtok_delimited is_equals [] k b'=' v tt h.0.0
      (Free-map _ is_equals k (λ c f. ground arith) h.0.1) refl,
  strtok_last is_equals [] v tt h.1.0 (Free-map _ is_equals v (λ c f. ground arith) h.1.1),
  strdup-some malloc k m,
  strdup-some malloc v m,
)

-- The next part of a query is its next parameter.
pub strtok-print_query :
    (q : Bytes × Bytes) (qs : Query)
    → IsParam q
    → strtok is_ampersand (print_query (q ∷ qs)) ≡ (some (print_param q), print_query qs)
strtok-print_query q [] h =
    strtok_last is_ampersand [] (print_param q) tt (print_param-ne-nil q)
      (print_param-Free is_ampersand q (λ c f. ground arith) refl h)
strtok-print_query q (r ∷ qs) h =
    strtok_delimited is_ampersand [] (print_param q) b'&' (print_query (r ∷ qs)) tt
      (print_param-ne-nil q) (print_param-Free is_ampersand q (λ c f. ground arith) refl h) refl

ampersand_none : strtok is_ampersand [] ≡ (none, [])
ampersand_none = strtok-none is_ampersand [] tt

pub parse_parts-print_query :
    (malloc : Malloc) (fuel : ℕ) (q : Bytes × Bytes) (qs : Query)
    → Available malloc
    → length (print_query qs) < fuel
    → IsParam q
    → All IsParam qs
    → parse_parts malloc fuel (some (print_param q)) (print_query qs) ≡ ret (map to_param (q ∷ qs))
unfolding parse_parts continue_parts
parse_parts-print_query malloc zero q qs m f h hs = elim f [ ]
parse_parts-print_query malloc (suc fuel) q [] m f h hs =
    rw (parse_http_param-print_param malloc q m h, ampersand_none)
parse_parts-print_query malloc (suc fuel) q (r ∷ qs) m f h hs =
    let e = strtok-print_query r qs hs.0 in
    let shorter : length (print_query qs) < length (print_query (r ∷ qs)) =
      rw e at (strtok-lt is_ampersand (print_query (r ∷ qs)) (ap (λ x. x.0) e)) in
    rw (
      parse_http_param-print_param malloc q m h,
      e,
      parse_parts-print_query malloc fuel r qs m (omega (arith, shorter)) hs.0 hs.1,
    )

count_ampersands-append :
    (s t : Bytes) → count_ampersands (s ++ t) ≡ count_ampersands s + count_ampersands t
unfolding count_ampersands
count_ampersands-append [] t = omega arith
count_ampersands-append (c ∷ s) t = omega (arith, count_ampersands-append s t)

count_ampersands-Free : (s : Bytes) → Free is_ampersand s → count_ampersands s ≡ 0
unfolding count_ampersands
count_ampersands-Free [] f = refl
count_ampersands-Free (c ∷ s) f = ground (arith, count_ampersands-Free s f.1)

-- One ampersand fewer than parameters.
pub count_ampersands-print_query :
    (q : Bytes × Bytes) (qs : Query)
    → All IsParam (q ∷ qs)
    → count_ampersands (print_query (q ∷ qs)) ≡ length qs
count_ampersands-print_query q [] h =
    count_ampersands-Free (print_param q)
      (print_param-Free is_ampersand q (λ c f. ground arith) refl h.0)
count_ampersands-print_query q (r ∷ qs) h = omega (
  arith,
  count_ampersands-append (print_param q) (b'&' ∷ print_query (r ∷ qs)),
  count_ampersands-Free (print_param q)
      (print_param-Free is_ampersand q (λ c f. ground arith) refl h.0),
  ampersand_first (print_query (r ∷ qs)),
  count_ampersands-print_query r qs h.1,
)
  where
    ampersand_first : (s : Bytes) → count_ampersands (b'&' ∷ s) ≡ 1 + count_ampersands s
    ampersand_first s = unfold count_ampersands in refl
