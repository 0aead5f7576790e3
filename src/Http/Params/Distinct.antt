-- ===== src/Http/Params/Distinct.antt =====
-- When no parameter name is repeated, and the check that the parser makes for it.
use rpiweatherd.Base.{
  ◌∙◌, ℕ, ◌+◌, ◌≤◌, ◌≡◌, ◌≢◌, refl, Bool, true, false, Option, none, some, List, [], ◌∷◌, ltb,
  Bytes, Outcome, ret, fault, ◌>>=◌, All, All-map, All-map₂, arith, str_eq, str_eq_iff, str_eq_refl,
  Bool-cases, inl, inr, >>=-eq-ret, ap, sym,
}
use rpiweatherd.CLib.Text.{strcmp_eq}
use rpiweatherd.Http.Params.{
  HttpCmdParam, HttpCmd, used, count_params, http_cmd_param_count, check_duplicates,
}

-- Every parameter has a name.
abbrev pub Named : List HttpCmdParam → Type 0
Named ps = All (λ p. p.name ≢ none) ps

-- No two parameters have one name.
abbrev pub Distinct : List HttpCmdParam → Type 0
Distinct [] = Unit
Distinct (p ∷ ps) = All (λ q. p.name ≢ q.name) ps × Distinct ps

-- The count that the check accepts.
record AtMostOnce (ps : List HttpCmdParam) (name : Option Bytes) : Type 0 where
  count : ℕ
  counted : count_params ps name ≡ ret count
  small : count ≤ 1

strcmp_eq_self : (a : Option Bytes) → a ≢ none → strcmp_eq a a ≡ ret true
unfolding strcmp_eq
strcmp_eq_self none n = absurd (n refl)
strcmp_eq_self (some a) n = ap ret (str_eq_refl a)

strcmp_eq_ne : (a b : Option Bytes) → a ≢ none → b ≢ none → a ≢ b → strcmp_eq a b ≡ ret false
unfolding strcmp_eq
strcmp_eq_ne none b ha hb ne = absurd (ha refl)
strcmp_eq_ne (some a) none ha hb ne = absurd (hb refl)
strcmp_eq_ne (some a) (some b) ha hb ne = elim (Bool-cases (str_eq a b)) [
  | inl same ↦ absurd (ne (ap some ((str_eq_iff a b).0 same)))
  | inr differ ↦ ap ret differ
]

count_params-zero :
    (ps : List HttpCmdParam) (name : Option Bytes)
    → name ≢ none
    → Named ps
    → All (λ q. name ≢ q.name) ps
    → count_params ps name ≡ ret 0
unfolding count_params
count_params-zero [] name n h d = refl
count_params-zero (p ∷ ps) name n h d =
    rw (strcmp_eq_ne p.name name h.0 n (λ e. d.0 (sym e)), count_params-zero ps name n h.1 d.1)

count_params_self :
    (p : HttpCmdParam) (ps : List HttpCmdParam)
    → p.name ≢ none
    → Named ps
    → All (λ q. p.name ≢ q.name) ps
    → count_params (p ∷ ps) p.name ≡ ret 1
unfolding count_params
count_params_self p ps n h d =
    rw (strcmp_eq_self p.name n, count_params-zero ps p.name n h d) (ap ret (omega arith))

count_params-cons :
    (p : HttpCmdParam) (ps : List HttpCmdParam) (name : Option Bytes)
    → p.name ≢ none
    → name ≢ none
    → p.name ≢ name
    → count_params (p ∷ ps) name ≡ count_params ps name
unfolding count_params
count_params-cons p ps name np n ne =
    rw (strcmp_eq_ne p.name name np n ne) (bind_ret (count_params ps name))
  where
    bind_ret : (m : Outcome ℕ) → (m >>= λ count. ret count) ≡ m
    bind_ret (ret n) = refl
    bind_ret (fault e) = refl

-- In a list of distinct names each stands once.
counts_one :
    (ps : List HttpCmdParam) → Named ps → Distinct ps → All (λ q. count_params ps q.name ≡ ret 1) ps
counts_one [] n d = tt
counts_one (p ∷ ps) n d = (
  count_params_self p ps n.0 n.1 d.0,
  All-map₂ (λ q. (q.name ≢ none) × (p.name ≢ q.name)) (λ q. count_params ps q.name ≡ ret 1)
      (λ q. count_params (p ∷ ps) q.name ≡ ret 1) ps
      (λ q h e. count_params-cons p ps q.name n.0 h.0 h.1 ∙ e)
      (All-map₂ (λ q. q.name ≢ none) (λ q. p.name ≢ q.name) _ ps (λ q a b. (a, b)) n.1 d.0)
      (counts_one ps n.1 d.1),
)

check_none :
    (cmd : HttpCmd) (ps : List HttpCmdParam)
    → All (λ q. count_params (used cmd) q.name ≡ ret 1) ps
    → check_duplicates cmd ps ≡ ret false
unfolding check_duplicates http_cmd_param_count
check_none cmd [] h = refl
check_none cmd (p ∷ ps) h = rw (h.0) (check_none cmd ps h.1)

-- The check passes a command whose parameters are named and distinct.
pub check_duplicates-Distinct :
    (cmd : HttpCmd)
    → Named (used cmd)
    → Distinct (used cmd)
    → check_duplicates cmd (used cmd) ≡ ret false
check_duplicates-Distinct cmd n d = check_none cmd (used cmd) (counts_one (used cmd) n d)

strcmp_eq-some :
    (a b : Option Bytes) {same : Bool}
    → strcmp_eq a b ≡ ret same
    → (a ≢ none) × ((a ≡ b) → same ≡ true)
unfolding strcmp_eq
strcmp_eq-some none b h = cc
strcmp_eq-some (some a) none h = cc
strcmp_eq-some (some a) (some b) h = (λ e. cc, λ e. ground (arith, str_eq_iff a b))

module _ (p : HttpCmdParam) (ps : List HttpCmdParam) (name : Option Bytes) where
  -- A count of a list counts its tail, and its head where that has the name.
  count-inversion :
      {n : ℕ}
      → count_params (p ∷ ps) name ≡ ret n
      → (p.name ≢ none)
        × (m : ℕ) × (count_params ps name ≡ ret m)
        × (m ≤ n)
        × (p.name ≡ name → m + 1 ≤ n)
  unfolding count_params
  count-inversion h =
      let (same, es, h') = >>=-eq-ret (strcmp_eq p.name name) _ h in
      let (m, em, h'') = >>=-eq-ret (count_params ps name) _ h' in
      let (named, when_same) = strcmp_eq-some p.name name es in
      (named, m, em, ground arith, λ e. ground (arith, when_same e))

AtMostOnce-tail :
    (p q : HttpCmdParam) (ps : List HttpCmdParam)
    → AtMostOnce (p ∷ ps) q.name
    → AtMostOnce ps q.name
AtMostOnce-tail p q ps h =
    let (_, m, e, le, _) = count-inversion p ps q.name h.counted in
    record { count = m; counted = e; small = omega (arith, h.small) }

counts_zero-ne :
    (ps : List HttpCmdParam) (name : Option Bytes)
    → count_params ps name ≡ ret 0
    → All (λ q. name ≢ q.name) ps
counts_zero-ne [] name h = tt
counts_zero-ne (p ∷ ps) name h =
    let (_, m, e, le, more) = count-inversion p ps name h in
    (
      λ same. absurd (omega (arith, more (sym same))),
      counts_zero-ne ps name (e ∙ ap ret (omega arith)),
    )

Distinct-of_AtMostOnce :
    (ps : List HttpCmdParam) → All (λ q. AtMostOnce ps q.name) ps → Named ps × Distinct ps
Distinct-of_AtMostOnce [] h = (tt, tt)
Distinct-of_AtMostOnce (p ∷ ps) h =
    let (named, m, e, _, more) = count-inversion p ps p.name h.0.counted in
    let (n, d) = Distinct-of_AtMostOnce ps (All-map _ _ ps (λ q. AtMostOnce-tail p q ps) h.1) in
    ((named, n), (counts_zero-ne ps p.name (e ∙ ap ret (omega (arith, more refl, h.0.small))), d))

AtMostOnce-of_check :
    (cmd : HttpCmd) (ps : List HttpCmdParam)
    → check_duplicates cmd ps ≡ ret false
    → All (λ q. AtMostOnce (used cmd) q.name) ps
unfolding check_duplicates http_cmd_param_count
AtMostOnce-of_check cmd [] h = tt
AtMostOnce-of_check cmd (p ∷ ps) h =
    let (n, e, h') = >>=-eq-ret (count_params (used cmd) p.name) _ h in
    elim (Bool-cases (ltb 1 n)) [
      | inl many ↦ absurd (let h'' : ret true ≡ ret false = rw many at h' in cc)
      | inr few ↦ (
        record { count = n; counted = e; small = ground arith },
        AtMostOnce-of_check cmd ps (rw few at h'),
      )
    ]

-- What the check passes is named and distinct.
pub check_duplicates-false :
    (cmd : HttpCmd)
    → check_duplicates cmd (used cmd) ≡ ret false
    → Named (used cmd) × Distinct (used cmd)
check_duplicates-false cmd h =
    Distinct-of_AtMostOnce (used cmd) (AtMostOnce-of_check cmd (used cmd) h)
