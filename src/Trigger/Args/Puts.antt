-- ===== src/Trigger/Args/Puts.antt =====
-- What the loop over the placeholders and the copy of the rest do.
use rpiweatherd.Base.{
  ℕ, suc, ◌+◌, ◌-◌, ◌≤◌, ◌<◌, ◌^◌, ◌%◌, ◌≡◌, refl, ◌⊎◌, inl, inr, true, false, none, some, List, [],
  ◌∷◌, ◌++◌, ◌==◌, ltb, leb, Bytes, length, length-append, drop, codes, Outcome, ret, fault, Fault,
  write_overflow, read_overflow, ◌>>=◌, Option-cases, Bool-cases, arith, ap, take,
}
use rpiweatherd.CLib.Text.{find, starts_with}
use rpiweatherd.Trigger.Args.{
  ArgState, size_diff, copy_before, buffer_before, write_at, placeholder_value, put_placeholder,
  put_placeholders, terminate, copy_rest, value_type_mapping,
}
use rpiweatherd.Trigger.Eval.{measurement}
use rpiweatherd.Trigger.Floats.{Floats}

find-le : (p s : Bytes) (i : ℕ) → find p s ≡ some i → i ≤ length s
unfolding find
find-le p [] i h = ground arith
find-le p (c ∷ s) i h = elim (Bool-cases (starts_with p (c ∷ s))) [
  | inl e ↦ let h' = rw e at h in ground arith
  | inr e ↦ elim (Option-cases (find p s)) [
    | inl missing ↦ let h' = rw (e, missing) at h in cc
    | inr (k, at) ↦
        let h' = rw (e, at) at h in
        let same : suc k ≡ i = cc h' in omega (arith, find-le p s k at, same)
  ]
]

pub short : (n : ℕ) → n < 2035 → leb 2035 n ≡ false
short n h = ground arith

pub below-cases : (n m : ℕ) → (n < m) ⊎ (m ≤ n)
below-cases n m = elim (Bool-cases (ltb n m)) [
  | inl e ↦ inl (ground arith)
  | inr e ↦ inr (ground arith)
]

-- The code faults.
abbrev pub Fails : {A : Type 0} → Outcome A → Type 0
Fails m = (e : Fault) × (m ≡ fault e)

pub Fails-bind :
    {A B : Type 0} (m : Outcome A) (f : A → Outcome B) → ((a : A) → Fails (f a)) → Fails (m >>= f)
Fails-bind (ret a) f h = h a
Fails-bind (fault e) f h = (e, refl)

pub Fails-first : {A B : Type 0} (m : Outcome A) (f : A → Outcome B) → Fails m → Fails (m >>= f)
Fails-first (ret a) f (e, h) = cc
Fails-first (fault e) f h = (e, refl)

-- The distance is taken the wrong way round.
wraps :
    (a b : ℕ)
    → a < b
    → b ≤ 4096
    → (ltb 2049 (size_diff a b) ≡ true) × ((size_diff a b == 0) ≡ false)
wraps a b lt le =
    let e : (a + 2 ^ 32 - b) % 2 ^ 32 ≡ a + 2 ^ 32 - b = omega arith in rw e (ground arith)

copy_before-wraps :
    (s : Bytes) (n : ℕ) (st : ArgState)
    → ltb 2049 n ≡ true
    → (n == 0) ≡ false
    → copy_before s n st ≡ fault write_overflow
unfolding copy_before
copy_before-wraps s n st h z = rw (z, h) refl

module _ {F : Type 0} (fl : Floats F) (x : F) (xs : List F) where
  -- Only the first measurement can be read.
  pub later_Fails :
      (s part : Bytes) (i offset : ℕ) (st : ArgState)
      → Fails (put_placeholder fl (x ∷ xs) s part (suc i) (some offset) st)
  unfolding put_placeholder placeholder_value
  later_Fails s part i offset st =
      Fails-bind (copy_before s (size_diff st.begin offset) st) _ λ st'. (read_overflow, refl)

  pub behind_Fails :
      (s part : Bytes) (i offset : ℕ) (st : ArgState)
      → st.begin < offset
      → offset ≤ 4096
      → put_placeholder fl (x ∷ xs) s part i (some offset) st ≡ fault write_overflow
  unfolding put_placeholder
  behind_Fails s part i offset st lt le =
      let (h, z) = wraps st.begin offset lt le in
      rw (copy_before-wraps s (size_diff st.begin offset) st h z) refl

  abbrev pub at_start : ArgState
  at_start = record { buffer = none; appended = 0; begin = 0 }

  abbrev pub after_temp : ArgState
  after_temp = record { buffer = some (fl.print4 x); appended = length (fl.print4 x); begin = 6 }

  fits : (n : ℕ) → n < 2049 → ltb (0 + n) 2049 ≡ true
  fits n h = ground arith

  pub temp_first :
      (s : Bytes)
      → length (fl.print4 x) < 2049
      → put_placeholder fl (x ∷ xs) s (codes "%temp%") 0 (some 0) at_start ≡ ret after_temp
  unfolding put_placeholder copy_before placeholder_value measurement write_at buffer_before
  temp_first s h = rw (fits (length (fl.print4 x)) h, none_before (length (fl.print4 x))) refl
    where
      none_before : (n : ℕ) → 0 + n ≡ n
      none_before n = omega arith

  -- A measurement that does not fit the buffer.
  pub temp_Fails_first :
      (s : Bytes)
      → 2049 ≤ length (fl.print4 x)
      → Fails (put_placeholder fl (x ∷ xs) s (codes "%temp%") 0 (some 0) at_start)
  unfolding put_placeholder copy_before placeholder_value measurement write_at buffer_before
  temp_Fails_first s h = rw (too_long (length (fl.print4 x)) h) (write_overflow, refl)
    where
      too_long : (n : ℕ) → 2049 ≤ n → ltb (0 + n) 2049 ≡ false
      too_long n h = ground arith

  take_self : (t : Bytes) → take (length t) t ≡ t
  take_self [] = refl
  take_self (c ∷ t) = ap (◌∷◌ c) (take_self t)

  -- The rest of the string behind the measurement, and the NUL behind both.
  pub copy_rest-temp :
      (s : Bytes)
      → length (fl.print4 x) + length (drop 6 s) < 2048
      → copy_rest fl (x ∷ xs) s after_temp ≡ ret (fl.print4 x ++ drop 6 s)
  unfolding copy_rest write_at buffer_before terminate
  copy_rest-temp s h =
      ground (arith, take_self (fl.print4 x), length-append (fl.print4 x) (drop 6 s))

  -- They do not fit, or only with one NUL.
  pub copy_rest-Fails :
      (s : Bytes)
      → 2048 ≤ length (fl.print4 x) + length (drop 6 s)
      → Fails (copy_rest fl (x ∷ xs) s after_temp)
  unfolding copy_rest write_at buffer_before terminate
  copy_rest-Fails s h = (
    write_overflow,
    ground (arith, take_self (fl.print4 x), length-append (fl.print4 x) (drop 6 s)),
  )

  pub put_placeholders-temp :
      (s : Bytes)
      → find (codes "%temp%") s ≡ some 0
      → find (codes "%humid%") s ≡ none
      → length (fl.print4 x) < 2049
      → put_placeholders fl (x ∷ xs) s value_type_mapping at_start ≡ ret after_temp
  unfolding put_placeholders put_placeholder
  put_placeholders-temp s t h fit = rw (t, temp_first s fit, h) refl

  pub put_placeholders-none :
      (s : Bytes)
      → find (codes "%temp%") s ≡ none
      → find (codes "%humid%") s ≡ none
      → put_placeholders fl (x ∷ xs) s value_type_mapping at_start ≡ ret at_start
  unfolding put_placeholders put_placeholder
  put_placeholders-none s t h = rw (t, h) refl

  -- A humidity is never put in.
  pub humid_Fails :
      (s : Bytes) (i : ℕ)
      → find (codes "%humid%") s ≡ some i
      → Fails (put_placeholders fl (x ∷ xs) s value_type_mapping at_start)
  unfolding put_placeholders
  humid_Fails s i h =
      Fails-bind
        (put_placeholder fl (x ∷ xs) s (codes "%temp%") 0 (find (codes "%temp%") s) at_start) _
        λ st. rw h (
          Fails-first (put_placeholder fl (x ∷ xs) s (codes "%humid%") 1 (some i) st) _
            (later_Fails s (codes "%humid%") 0 i st))

  -- A temperature behind the start of the string.
  pub temp_Fails :
      (s : Bytes) (i : ℕ)
      → find (codes "%temp%") s ≡ some (suc i)
      → length s ≤ 4096
      → Fails (put_placeholders fl (x ∷ xs) s value_type_mapping at_start)
  unfolding put_placeholders
  temp_Fails s i t le =
      rw
        (
          t,
          behind_Fails s (codes "%temp%") 0 (suc i) at_start (omega arith)
              (omega (arith, find-le (codes "%temp%") s (suc i) t)),
        )
        (write_overflow, refl)
