-- ===== src/CLib/Decimal/Laws.antt =====
-- What "%d" prints: how long it is, and that it is read back.
use native.Mathlib.Omega.{pow_step}
use rpiweatherd.Base.{
  ℕ, zero, suc, ◌+◌, ◌-◌, ◌*◌, ◌/◌, ◌%◌, ◌^◌, ◌≤◌, ◌<◌, ◌≡◌, sym, ap, ◌∙◌, ℤ, pos, negsuc, true, [],
  ◌∷◌, ◌++◌, ltb, Bytes, length, length-append, All, arith, ◌≢◌, Bool-cases, inl, inr,
}
use rpiweatherd.CLib.Text.{is_digit, read_digits}
use rpiweatherd.CLib.Decimal.{digits, decimal, decimal_ℤ}

-- The last digit of a text of digits.
read_digits-snoc :
    (s : Bytes) (acc d : ℕ)
    → All (λ c. is_digit c ≡ true) s
    → d < 10
    → read_digits acc (s ++ ((b'0' + d) ∷ [])) ≡ read_digits acc s * 10 + d
unfolding read_digits is_digit
read_digits-snoc [] acc d h lt = ground arith
read_digits-snoc (c ∷ s) acc d h lt = ground (arith, read_digits-snoc s (acc * 10 + (c - b'0')) d)

All-snoc :
    (s : Bytes) (d : ℕ)
    → All (λ c. is_digit c ≡ true) s
    → d < 10
    → All (λ c. is_digit c ≡ true) (s ++ ((b'0' + d) ∷ []))
unfolding is_digit
All-snoc [] d h lt = (ground arith, tt)
All-snoc (c ∷ s) d h lt = (h.0, All-snoc s d h.1 lt)

digits-All : (fuel n : ℕ) → All (λ c. is_digit c ≡ true) (digits fuel n)
unfolding digits is_digit
digits-All zero n = tt
digits-All (suc fuel) n = elim (Bool-cases (ltb n 10)) [
  | inl small ↦ rw small (ground arith, tt)
  | inr large ↦
      rw large (All-snoc (digits fuel (n / 10)) (n % 10) (digits-All fuel (n / 10)) (omega arith))
]

read_digits-digits : (fuel n : ℕ) → n < fuel → read_digits 0 (digits fuel n) ≡ n
unfolding digits read_digits
read_digits-digits zero n h = absurd (omega arith)
read_digits-digits (suc fuel) n h = elim (Bool-cases (ltb n 10)) [
  | inl small ↦ rw small (ground arith)
  | inr large ↦
      rw
        (
          large,
          read_digits-snoc (digits fuel (n / 10)) 0 (n % 10) (digits-All fuel (n / 10))
              (omega arith),
        )
        (ground (arith, read_digits-digits fuel (n / 10)))
]

-- A number that is printed in decimal is read back.
pub read_digits-decimal : (n : ℕ) → read_digits 0 (decimal n) ≡ n
unfolding decimal
read_digits-decimal n = read_digits-digits (suc n) n (omega arith)

length-digits : (k fuel n : ℕ) → n < 10 ^ suc k → length (digits fuel n) ≤ suc k
unfolding digits
length-digits zero zero n h = omega arith
length-digits zero (suc fuel) n h = rw (the_small n h) (omega arith)
  where
    the_small : (n : ℕ) → n < 10 → ltb n 10 ≡ true
    the_small n h = ground arith
length-digits (suc k) zero n h = omega arith
length-digits (suc k) (suc fuel) n h = elim (Bool-cases (ltb n 10)) [
  | inl small ↦ rw small (omega arith)
  | inr large ↦ rw large (
      omega (
        arith,
        length-append (digits fuel (n / 10)) ((b'0' + n % 10) ∷ []),
        length-digits k fuel (n / 10) (omega (arith, pow_step 10 (suc k))),
      ))
]

-- A printed number has digits only.
pub decimal-digits : (n : ℕ) → All (λ c. is_digit c ≡ true) (decimal n)
unfolding decimal
decimal-digits n = digits-All (suc n) n

decimal-injective : (m n : ℕ) → decimal m ≡ decimal n → m ≡ n
decimal-injective m n e = sym (read_digits-decimal m) ∙ ap (read_digits 0) e ∙ read_digits-decimal n

not_minus : (s : Bytes) {r : Bytes} → All (λ c. is_digit c ≡ true) s → s ≢ b'-' ∷ r
unfolding is_digit
not_minus [] h e = cc
not_minus (c ∷ s) h e = ground arith

tail_eq : {c : ℕ} {r s : Bytes} → ◌≡◌ {A = Bytes} (c ∷ r) (c ∷ s) → r ≡ s
tail_eq e = cc

-- Two integers that are printed alike are equal.
pub decimal_ℤ-injective : (a b : ℤ) → decimal_ℤ a ≡ decimal_ℤ b → a ≡ b
unfolding decimal_ℤ
decimal_ℤ-injective (pos m) (pos n) e = ap pos (decimal-injective m n e)
decimal_ℤ-injective (pos m) (negsuc n) e = absurd (not_minus (decimal m) (decimal-digits m) e)
decimal_ℤ-injective (negsuc m) (pos n) e = absurd (not_minus (decimal n) (decimal-digits n) (sym e))
decimal_ℤ-injective (negsuc m) (negsuc n) e =
    let same : suc m ≡ suc n = decimal-injective (suc m) (suc n) (tail_eq e) in
    ap negsuc (omega arith)

-- The values of an `int`.
abbrev pub IsInt : ℤ → Type 0
IsInt (pos n) = n < 2 ^ 31
IsInt (negsuc n) = n < 2 ^ 31

length-decimal : (n : ℕ) → n < 10 ^ 10 → length (decimal n) ≤ 10
unfolding decimal
length-decimal n h = length-digits 9 (suc n) n h

-- An `int` is printed in at most eleven bytes.
pub length-decimal_ℤ : (z : ℤ) → IsInt z → length (decimal_ℤ z) ≤ 11
unfolding decimal_ℤ
length-decimal_ℤ (pos n) h = omega (arith, length-decimal n (omega arith))
length-decimal_ℤ (negsuc n) h = omega (arith, length-decimal (suc n) (omega arith))
