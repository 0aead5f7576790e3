-- ===== src/Trigger/Args/Placeholders.antt =====
-- Which placeholders of an argument string are replaced.
use rpiweatherd.Base.{
  ℕ, zero, suc, ◌+◌, ◌≤◌, ◌<◌, ◌≡◌, refl, ◌⊎◌, inl, inr, true, Option, none, some, List, ◌∷◌, ◌++◌,
  Bytes, length, drop, codes, ret, fault, Fault, uninitialised, ◌>>=◌, arith, ◌∙◌,
}
use rpiweatherd.CLib.Text.{has_char, find}
use rpiweatherd.Trigger.Args.{
  ArgState, put_placeholder, put_placeholders, copy_rest, post_process_args,
  max_allowed_argstring_length, sum_lengths, value_type_mapping,
}
use rpiweatherd.Trigger.Floats.{Floats}
use rpiweatherd.Trigger.Parse.{live}
use rpiweatherd.Trigger.Args.Puts.{
  below-cases, short, Fails, Fails-first, at_start, after_temp, temp_Fails_first, copy_rest-temp,
  copy_rest-Fails, put_placeholders-temp, put_placeholders-none, humid_Fails, temp_Fails,
}

module _ {F : Type 0} (fl : Floats F) (x : F) (xs : List F) where
  -- Where the loop over the placeholders faults, so does the whole.
  put_Fails :
      (s : Bytes)
      → has_char b'%' s ≡ true
      → length s < 2035
      → Fails (put_placeholders fl (x ∷ xs) s value_type_mapping (at_start fl x xs))
      → Fails (post_process_args fl (x ∷ xs) (live s))
  unfolding post_process_args max_allowed_argstring_length sum_lengths
  put_Fails s p h (e, failed) = rw (p, short (length s) h, failed) (e, refl)

  put_ret :
      (s : Bytes) (st : ArgState)
      → has_char b'%' s ≡ true
      → length s < 2035
      → put_placeholders fl (x ∷ xs) s value_type_mapping (at_start fl x xs) ≡ ret st
      → post_process_args fl (x ∷ xs) (live s)
        ≡ (copy_rest fl (x ∷ xs) s st >>= λ text. ret (some text))
  unfolding post_process_args max_allowed_argstring_length sum_lengths
  put_ret s st p h done = rw (p, short (length s) h, done) refl

  -- No buffer was written to, and its end is looked for.
  unwritten_Fails :
      (s : Bytes)
      → has_char b'%' s ≡ true
      → length s < 2035
      → find (codes "%temp%") s ≡ none
      → find (codes "%humid%") s ≡ none
      → Fails (post_process_args fl (x ∷ xs) (live s))
  unfolding copy_rest
  unwritten_Fails s p h t no_humid = (
    uninitialised,
    put_ret s (at_start fl x xs) p h (put_placeholders-none fl x xs s t no_humid) ∙ refl,
  )

  -- What makes a replacement.
  abbrev pub IsReplaced : Bytes → Type 0
  IsReplaced s =
      (find (codes "%temp%") s ≡ some 0)
      × (find (codes "%humid%") s ≡ none)
      × (length (fl.print4 x) + length (drop 6 s) < 2048)

  -- Either `%temp%` stands at the start, `%humid%` nowhere, and there is room, and the result is
  -- the first measurement with four decimals and the rest of the string, or the code faults.
  abbrev pub Replaces : Bytes → Type 0
  Replaces s =
      (IsReplaced s
        × (post_process_args fl (x ∷ xs) (live s) ≡ ret (some (fl.print4 x ++ drop 6 s))))
      ⊎ ((¬ IsReplaced s) × (e : Fault) × (post_process_args fl (x ∷ xs) (live s) ≡ fault e))

  -- There is no room, for the measurement or for what is behind it.
  no_room_Fails :
      (s : Bytes)
      → has_char b'%' s ≡ true
      → length s < 2035
      → find (codes "%temp%") s ≡ some 0
      → find (codes "%humid%") s ≡ none
      → 2048 ≤ length (fl.print4 x) + length (drop 6 s)
      → Fails (post_process_args fl (x ∷ xs) (live s))
  unfolding put_placeholders
  no_room_Fails s p h t no_humid full = elim (below-cases (length (fl.print4 x)) 2049) [
    | inl printed ↦
        let (e, failed) = copy_rest-Fails fl x xs s full in
        (
          e,
          put_ret s (after_temp fl x xs) p h (put_placeholders-temp fl x xs s t no_humid printed)
              ∙ rw failed refl,
        )
    | inr too_long ↦ put_Fails s p h (
        rw t (
          Fails-first (put_placeholder fl (x ∷ xs) s (codes "%temp%") 0 (some 0) (at_start fl x xs))
            _ (temp_Fails_first fl x xs s too_long)))
  ]

  -- `%temp%` stands at the start and `%humid%` nowhere.
  temp_only :
      (s : Bytes)
      → has_char b'%' s ≡ true
      → length s < 2035
      → find (codes "%temp%") s ≡ some 0
      → find (codes "%humid%") s ≡ none
      → Replaces s
  temp_only s p h t no_humid = elim (below-cases (length (fl.print4 x) + length (drop 6 s)) 2048) [
    | inl fits ↦ inl (
      (t, no_humid, fits),
      put_ret s (after_temp fl x xs) p h
            (put_placeholders-temp fl x xs s t no_humid (omega (arith, fits)))
          ∙ rw (copy_rest-temp fl x xs s fits) refl,
    )
    | inr full ↦
        let (e, failed) = no_room_Fails s p h t no_humid full in
        inr ((λ q. let fits = q.2 in absurd (omega (arith, fits, full))), e, failed)
  ]

  -- An argument string with a percent sign, of less than 2035 bytes, is replaced exactly where
  -- `%temp%` stands at its start, `%humid%` nowhere in it, and the result has at most 2047 bytes; the
  -- result is the first measurement with four decimals and the rest of the string. Any other such
  -- string leads to undefined behaviour.
  pub post_process_args_lem : (s : Bytes) → has_char b'%' s ≡ true → length s < 2035 → Replaces s
  post_process_args_lem s p h = by_humid (find (codes "%humid%") s) refl
    where
      by_temp :
          (o : Option ℕ)
          → find (codes "%temp%") s ≡ o
          → find (codes "%humid%") s ≡ none
          → Replaces s
      by_temp none t no_humid =
          let (e, failed) = unwritten_Fails s p h t no_humid in
          inr ((λ q. let q' = q.0 in cc), e, failed)
      by_temp (some zero) t no_humid = temp_only s p h t no_humid
      by_temp (some (suc i)) t no_humid =
          let (e, failed) = put_Fails s p h (temp_Fails fl x xs s i t (omega arith)) in
          inr ((λ q. let q' = q.0 in ground arith), e, failed)

      by_humid : (o : Option ℕ) → find (codes "%humid%") s ≡ o → Replaces s
      by_humid none e = by_temp (find (codes "%temp%") s) refl e
      by_humid (some i) e =
          let (f, failed) = put_Fails s p h (humid_Fails fl x xs s i e) in
          inr ((λ q. let q' = q.1 in cc), f, failed)
