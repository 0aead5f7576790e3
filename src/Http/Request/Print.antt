-- ===== src/Http/Request/Print.antt =====
-- The request line that a client writes, and what break_request makes of it.
use rpiweatherd.Base.{
  ℕ, ◌<◌, ◌≡◌, ◌≢◌, refl, ◌||◌, Bool, true, false, List, [], ◌∷◌, ◌++◌, ◌==◌, Bytes, length, codes,
  All, All-map, All-append, Free, arith, str_eq, str_eq_iff, Bool-cases, inl, inr,
}
use rpiweatherd.Http.Request.{is_command_delim, is_supported}

-- A query is a list of keys with their values.
abbrev pub Query : Type 0
Query = List (Bytes × Bytes)

abbrev pub print_param : Bytes × Bytes → Bytes
print_param (k, v) = k ++ (b'=' ∷ v)

abbrev pub print_query : Query → Bytes
print_query [] = []
print_query (q ∷ []) = print_param q
print_query (q ∷ r ∷ qs) = print_param q ++ (b'&' ∷ print_query (r ∷ qs))

-- The query and what follows it.
abbrev pub print_args : Query → Bytes → Bytes
print_args [] rest = rest
print_args (q ∷ qs) rest = b'?' ∷ (print_query (q ∷ qs) ++ rest)

-- What is left of the line behind the command.
abbrev pub print_tail : Query → Bytes → Bytes
print_tail [] proto = proto
print_tail (q ∷ qs) proto = print_query (q ∷ qs) ++ (b' ' ∷ proto)

abbrev pub print_line : Bytes → Bytes → Query → Bytes → Bytes
print_line method name query proto =
    method ++ (b' ' ∷ b'/' ∷ (name ++ print_args query (b' ' ∷ proto)))

-- The bytes that have a meaning in a query or end it.
abbrev pub is_special : ℕ → Bool
is_special c = c == b' ' || (c == b'&' || (c == b'=' || c == b'\r'))

abbrev pub IsWord : (ℕ → Bool) → Bytes → Type 0
IsWord p s = (s ≢ []) × Free p s

abbrev pub IsParam : Bytes × Bytes → Type 0
IsParam q = IsWord is_special q.0 × IsWord is_special q.1

pub Free-map :
    (p q : ℕ → Bool) (s : Bytes) → ((c : ℕ) → p c ≡ false → q c ≡ false) → Free p s → Free q s
Free-map p q s f h = All-map (λ c. p c ≡ false) (λ c. q c ≡ false) s f h

pub print_param-ne-nil : (q : Bytes × Bytes) → print_param q ≢ []
print_param-ne-nil ([], v) = λ e. cc
print_param-ne-nil (c ∷ k, v) = λ e. cc

-- A query contains no byte that its keys and values lack, but `=` and `&`.
pub print_param-Free :
    (p : ℕ → Bool) (q : Bytes × Bytes)
    → ((c : ℕ) → is_special c ≡ false → p c ≡ false)
    → p b'=' ≡ false
    → IsParam q
    → Free p (print_param q)
print_param-Free p (k, v) f e h =
    All-append (λ c. p c ≡ false) k (b'=' ∷ v) (Free-map is_special p k f h.0.1)
      (e, Free-map is_special p v f h.1.1)

pub print_query-Free :
    (p : ℕ → Bool) (qs : Query)
    → ((c : ℕ) → is_special c ≡ false → p c ≡ false)
    → p b'=' ≡ false
    → p b'&' ≡ false
    → All IsParam qs
    → Free p (print_query qs)
print_query-Free p [] f e a h = tt
print_query-Free p (q ∷ []) f e a h = print_param-Free p q f e h.0
print_query-Free p (q ∷ r ∷ qs) f e a h =
    All-append (λ c. p c ≡ false) (print_param q) (b'&' ∷ print_query (r ∷ qs))
      (print_param-Free p q f e h.0) (a, print_query-Free p (r ∷ qs) f e a h.1)

pub print_query-ne-nil : (q : Bytes × Bytes) (qs : Query) → print_query (q ∷ qs) ≢ []
print_query-ne-nil q [] = print_param-ne-nil q
print_query-ne-nil ([], v) (r ∷ qs) = λ e. cc
print_query-ne-nil (c ∷ k, v) (r ∷ qs) = λ e. cc

-- A protocol that the server supports holds no space and no `=`.
supported_cases :
    (P : Bytes → Type 0) (s : Bytes)
    → is_supported s ≡ true
    → P (codes "HTTP/1.0")
    → P (codes "HTTP/1.1")
    → P s
unfolding is_supported
supported_cases P s h p0 p1 = elim (Bool-cases (str_eq s (codes "HTTP/1.0"))) [
  | inl e ↦ rw ((str_eq_iff s (codes "HTTP/1.0")).0 e) p0
  | inr e ↦ rw ((str_eq_iff s (codes "HTTP/1.1")).0 (rw e at h)) p1
]

pub supported_Free :
    (s : Bytes) → is_supported s ≡ true → Free (λ c. c == b' ' || (c == b'=' || c == b'\r')) s
supported_Free s h =
    supported_cases (Free (λ c. c == b' ' || (c == b'=' || c == b'\r'))) s h eight eight'
  where
    eight : Free (λ c. c == b' ' || (c == b'=' || c == b'\r')) (codes "HTTP/1.0")
    eight = (refl, (refl, (refl, (refl, (refl, (refl, (refl, (refl, tt))))))))

    eight' : Free (λ c. c == b' ' || (c == b'=' || c == b'\r')) (codes "HTTP/1.1")
    eight' = (refl, (refl, (refl, (refl, (refl, (refl, (refl, (refl, tt))))))))

pub supported-ne-nil : (s : Bytes) → is_supported s ≡ true → s ≢ []
supported-ne-nil s h = supported_cases (λ t. t ≢ []) s h (λ e. cc) (λ e. cc)

pub supported_short : (s : Bytes) → is_supported s ≡ true → length s < 16
supported_short s h = supported_cases (λ t. length t < 16) s h (omega arith) (omega arith)

-- What a well-formed request line is made of.
pub record IsLine (method name : Bytes) (query : Query) (proto : Bytes) : Type 0 where
  pub method_word : IsWord (λ c. c == b' ' || c == b'\r') method
  pub name_word : IsWord (λ c. is_command_delim c || c == b'\r') name
  pub params : All IsParam query
  pub proto_supported : is_supported proto ≡ true
  pub query_fits : length (print_query query) < 512
  pub line_fits : length (print_line method name query proto) < 1024

pub print_line-ne-nil :
    (method name : Bytes) (query : Query) (proto : Bytes)
    → IsLine method name query proto
    → print_line method name query proto ≢ []
print_line-ne-nil [] name query proto w = absurd (w.method_word.0 refl)
print_line-ne-nil (c ∷ method) name query proto w = λ e. cc

print_args-Free :
    (p : ℕ → Bool) (query : Query) (rest : Bytes)
    → ((c : ℕ) → is_special c ≡ false → p c ≡ false)
    → p b'=' ≡ false
    → p b'&' ≡ false
    → p b'?' ≡ false
    → All IsParam query
    → Free p rest
    → Free p (print_args query rest)
print_args-Free p [] rest f e a m h r = r
print_args-Free p (q ∷ qs) rest f e a m h r = (
  m,
  All-append (λ c. p c ≡ false) (print_query (q ∷ qs)) rest (print_query-Free p (q ∷ qs) f e a h) r,
)

-- No carriage return stands in the line.
pub print_line-Free :
    (method name : Bytes) (query : Query) (proto : Bytes)
    → IsLine method name query proto
    → Free (λ c. c == b'\r') (print_line method name query proto)
print_line-Free method name query proto w =
    let return = λ (c : ℕ). c == b'\r' in
    All-append (λ c. return c ≡ false) method
      (b' ' ∷ b'/' ∷ (name ++ print_args query (b' ' ∷ proto)))
      (Free-map _ return method (λ c f. ground arith) w.method_word.1)
      (
        refl,
        (
          refl,
          All-append (λ c. return c ≡ false) name (print_args query (b' ' ∷ proto))
              (Free-map _ return name (λ c f. ground arith) w.name_word.1)
              (print_args-Free return query (b' ' ∷ proto) (λ c f. ground arith) refl refl refl
                w.params
                (
                  refl,
                  Free-map _ return proto (λ c f. ground arith)
                      (supported_Free proto w.proto_supported),
                )),
        ),
      )
