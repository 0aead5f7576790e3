-- ===== src/Data/Json/Pairs.antt =====
-- Which lists of pairs have a JSON value.
use rpiweatherd.Base.{
  ◌≤◌, ◌≡◌, ◌⊎◌, inl, inr, refl, ◌∙◌, pos, leb, if◌then◌else◌, none, some, List, [], ◌∷◌, ◌++◌,
  Bytes, length, length-append, take, codes, All, Outcome, ret, fault, null_pointer, write_overflow,
  Fault, ◌>>=◌, arith, Option-cases, Bool-cases,
}
use rpiweatherd.CLib.Text.{strcpy}
use rpiweatherd.Data.KeyValues.{KeyValuePair, KeyValueList}
use rpiweatherd.Data.Json.{
  integer, text, set_call, dotset_call, Call, print_key, put_pairs, key_value_list_to_json_value,
}

-- The pair has a key of at most 23 bytes.
abbrev pub FitsKey : KeyValuePair → Type 0
FitsKey p = (key : Bytes) × (p.key ≡ some key) × (length key ≤ 23)

-- A key is printed into the buffer, or past its end.
print_key-results :
    (key : Bytes)
    → print_key (codes "results." ++ key)
      ≡ (if leb (length key) 23 then ret (codes "results." ++ key) else fault write_overflow)
unfolding print_key strcpy
print_key-results key = ground (arith, length-append (codes "results.") key)

-- Either each key fits and the code returns, or some key does not fit and it faults.
abbrev pub Decided : {A : Type 0} → List KeyValuePair → Outcome A → Type 0
Decided {A} ps m =
    (All FitsKey ps × (a : A) × (m ≡ ret a))
    ⊎ ((¬ All FitsKey ps)
        × (e : Fault) × ((e ≡ null_pointer) ⊎ (e ≡ write_overflow))
        × (m ≡ fault e))

module _ {F : Type 0} where
  -- The calls of one pair in front of those of the others.
  put_pairs-first :
      (p : KeyValuePair) (ps : List KeyValuePair) (key : Bytes)
      → p.key ≡ some key
      → put_pairs {F = F} (p ∷ ps) ≡ (
          (if leb (length key) 23 then ret (codes "results." ++ key) else fault write_overflow)
          >>= λ printed. put_pairs ps >>= λ later. ret (dotset_call printed (text p.value) ∷ later))
  unfolding put_pairs
  put_pairs-first p ps key e = rw (e, print_key-results key) refl

  put_pairs-null :
      (p : KeyValuePair) (ps : List KeyValuePair)
      → p.key ≡ none
      → put_pairs {F = F} (p ∷ ps) ≡ fault null_pointer
  unfolding put_pairs
  put_pairs-null p ps e = rw e refl

  put_pairs-Decided : (ps : List KeyValuePair) → Decided ps (put_pairs {F = F} ps)
  unfolding put_pairs
  put_pairs-Decided [] = inl (tt, [], refl)
  put_pairs-Decided (p ∷ ps) = elim (Option-cases p.key) [
    | inl null ↦
        inr ((λ h. let (key, e, _) = h.0 in cc), null_pointer, inl refl, put_pairs-null p ps null)
    | inr (key, named) ↦ elim (Bool-cases (leb (length key) 23)) [
      | inr long ↦ inr (
        (λ h.
            let (other, e, short) = h.0 in
            let same : length other ≡ length key = cc in ground arith),
        write_overflow,
        inr refl,
        put_pairs-first p ps key named ∙ rw long refl,
      )
      | inl short ↦ elim (put_pairs-Decided ps) [
        | inl (fit, later, put) ↦ inl (
          ((key, named, ground arith), fit),
          dotset_call (codes "results." ++ key) (text p.value) ∷ later,
          put_pairs-first p ps key named ∙ rw (short, put) refl,
        )
        | inr (misfit, e, which, put) ↦
            inr ((λ h. misfit h.1), e, which, put_pairs-first p ps key named ∙ rw (short, put) refl)
      ]
    ]
  ]

  -- The JSON value of a list of pairs is made if each pair in use has a key of at most 23 bytes.
  -- Otherwise no value is returned, not even NULL: a key that is NULL is read, or a longer one is
  -- printed past the end of its buffer.
  pub key_value_list_to_json_value_cases :
      (list : KeyValueList)
      → (All FitsKey (take list.length list.pairs)
          × (calls : List (Call F)) × (key_value_list_to_json_value (some list) ≡ ret (some calls)))
        ⊎ ((¬ All FitsKey (take list.length list.pairs))
            × (e : Fault) × ((e ≡ null_pointer) ⊎ (e ≡ write_overflow))
            × (key_value_list_to_json_value {F = F} (some list) ≡ fault e))
  unfolding key_value_list_to_json_value
  key_value_list_to_json_value_cases list = elim (put_pairs-Decided (take list.length list.pairs)) [
    | inl (fit, results, put) ↦ inl (
      fit,
      set_call (codes "length") (integer (pos list.length))
          ∷ set_call (codes "errcode") (integer (pos 0))
          ∷ set_call (codes "errmsg") (text (some []))
          ∷ results,
      rw put refl,
    )
    | inr (misfit, e, which, put) ↦ inr (misfit, e, which, rw put refl)
  ]
