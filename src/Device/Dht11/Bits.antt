-- ===== src/Device/Dht11/Bits.antt =====
-- The bits that the sensor sends are stored byte by byte, highest bit first.
use rpiweatherd.Base.{
  Bytes, ◌%◌, >>=-eq-ret, ℕ, zero, suc, ◌+◌, ◌*◌, ◌/◌, ◌≤◌, ◌<◌, ◌≡◌, refl, Bool, some, List, [],
  ◌∷◌, ◌++◌, ◌==◌, if◌then◌else◌, get_elem?, get_elem?-set_self, set, length, Outcome, ret, fault,
  write_overflow, ◌>>=◌, arith, ap, ◌∙◌,
}
use rpiweatherd.Device.Dht11.{
  Stored, store_bit, no_bits, finish_query, print_pair, devretcode_success, devretcode_data_failure,
}

-- Bits stored one after the other.
unfoldable pub store_bits : List Bool → Stored → Outcome Stored
store_bits [] st = ret st
store_bits (bit ∷ bits) st = do st' ← store_bit st bit; store_bits bits st'

-- The number that bits stand for behind the number `x`.
abbrev pub bits_value : ℕ → List Bool → ℕ
bits_value x [] = x
bits_value x (bit ∷ bits) = bits_value (x * 2 + (if bit then 1 else 0)) bits

set-set {ℓ} : {A : Type ℓ} (xs : List A) (i : ℕ) (x y : A) → set (set xs i x) i y ≡ set xs i y
set-set [] i x y = refl
set-set (z ∷ xs) zero x y = refl
set-set (z ∷ xs) (suc i) x y = ap (◌∷◌ z) (set-set xs i x y)

set-get_elem? {ℓ} :
    {A : Type ℓ} (xs : List A) (i : ℕ) {x : A} → get_elem? xs i ≡ some x → set xs i x ≡ xs
set-get_elem? [] i h = cc
set-get_elem? (z ∷ xs) zero h = ground arith
set-get_elem? (z ∷ xs) (suc i) h = ap (◌∷◌ z) (set-get_elem? xs i h)

store_bit-at :
    (k r : ℕ) (bytes : List ℕ) (bit : Bool) {x : ℕ}
    → r < 8
    → get_elem? bytes k ≡ some x
    → store_bit (8 * k + r, bytes) bit
      ≡ ret (8 * k + suc r, set bytes k (x * 2 + (if bit then 1 else 0)))
unfolding store_bit
store_bit-at k r bytes bit h e =
    let place : (8 * k + r) / 8 ≡ k = omega arith in rw (store_bit, place, e) (ground arith)

-- Up to eight bits go into one byte.
store_bits-byte :
    (bits : List Bool) (k r : ℕ) (bytes : List ℕ) {x : ℕ}
    → r + length bits ≤ 8
    → get_elem? bytes k ≡ some x
    → store_bits bits (8 * k + r, bytes)
      ≡ ret (8 * k + (r + length bits), set bytes k (bits_value x bits))
unfolding store_bits
store_bits-byte [] k r bytes h e = rw (set-get_elem? bytes k e) (ground arith)
store_bits-byte (bit ∷ bits) k r bytes {x} h e = rw (store_bit-at k r bytes bit (omega arith) e) (
    rw
      (
        store_bits-byte bits k (suc r) (set bytes k (x * 2 + (if bit then 1 else 0))) (omega arith)
            (get_elem?-set_self bytes k e),
        set-set bytes k (x * 2 + (if bit then 1 else 0))
            (bits_value (x * 2 + (if bit then 1 else 0)) bits),
      )
      (ground arith))

store_bits-append :
    (a b : List Bool) (st : Stored) {st' : Stored}
    → store_bits a st ≡ ret st'
    → store_bits (a ++ b) st ≡ store_bits b st'
unfolding store_bits
store_bits-append [] b st h = ground arith
store_bits-append (bit ∷ a) b st h =
    let (st₁, e, h') = >>=-eq-ret (store_bit st bit) _ h in rw e (store_bits-append a b st₁ h')

-- The bytes that lists of bits stand for.
abbrev pub byte_value : List Bool → ℕ
byte_value = bits_value 0

byte :
    (b : List Bool) (k : ℕ) (bytes : List ℕ)
    → length b ≡ 8
    → get_elem? bytes k ≡ some 0
    → store_bits b (8 * k, bytes) ≡ ret (8 * suc k, set bytes k (byte_value b))
byte b k bytes l e =
    ap (λ j. store_bits b (j, bytes)) (omega arith)
    ∙ store_bits-byte b k 0 bytes (omega arith) e
    ∙ ap (λ j. ret (j, set bytes k (byte_value b))) (omega arith)

module _ (b0 b1 b2 b3 b4 : List Bool) where
  abbrev pub forty : List Bool
  forty = b0 ++ (b1 ++ (b2 ++ (b3 ++ b4)))

  -- Five groups of eight bits are stored as the five bytes that they stand for, highest bit first.
  pub store_bits_five :
      length b0 ≡ 8
      → length b1 ≡ 8
      → length b2 ≡ 8
      → length b3 ≡ 8
      → length b4 ≡ 8
      → store_bits forty no_bits
        ≡ ret
            (40, byte_value b0 ∷ byte_value b1 ∷ byte_value b2 ∷ byte_value b3 ∷ byte_value b4 ∷ [])
  store_bits_five l0 l1 l2 l3 l4 =
      store_bits-append b0 (b1 ++ (b2 ++ (b3 ++ b4))) no_bits
        (byte b0 0 (0 ∷ 0 ∷ 0 ∷ 0 ∷ 0 ∷ []) l0 refl)
      ∙ store_bits-append b1 (b2 ++ (b3 ++ b4)) _
          (byte b1 1 (byte_value b0 ∷ 0 ∷ 0 ∷ 0 ∷ 0 ∷ []) l1 refl)
      ∙ store_bits-append b2 (b3 ++ b4) _
          (byte b2 2 (byte_value b0 ∷ byte_value b1 ∷ 0 ∷ 0 ∷ 0 ∷ []) l2 refl)
      ∙ store_bits-append b3 b4 _
          (byte b3 3 (byte_value b0 ∷ byte_value b1 ∷ byte_value b2 ∷ 0 ∷ 0 ∷ []) l3 refl)
      ∙ byte b4 4 (byte_value b0 ∷ byte_value b1 ∷ byte_value b2 ∷ byte_value b3 ∷ 0 ∷ []) l4 refl

  -- A bit behind five times eight bits is written past the end of the five bytes.
  pub store_bits_overflow :
      (bit : Bool) (rest : List Bool)
      → length b0 ≡ 8
      → length b1 ≡ 8
      → length b2 ≡ 8
      → length b3 ≡ 8
      → length b4 ≡ 8
      → store_bits (forty ++ (bit ∷ rest)) no_bits ≡ fault write_overflow
  unfolding store_bits store_bit
  store_bits_overflow bit rest l0 l1 l2 l3 l4 =
      store_bits-append forty (bit ∷ rest) no_bits (store_bits_five l0 l1 l2 l3 l4) ∙ refl

  -- What the driver makes of five times eight bits, for a caller with an array of at least two
  -- measurements: the temperature from the third and fourth byte and the humidity from the first
  -- two, if the fifth byte is the sum of the others modulo 256; else a data failure, and the array
  -- as it was.
  pub finish_query_five :
      {F : Type 0} (atof : Bytes → F) (t h : F) (ms : List F)
      → length b0 ≡ 8
      → length b1 ≡ 8
      → length b2 ≡ 8
      → length b3 ≡ 8
      → length b4 ≡ 8
      → (store_bits forty no_bits >>= λ st. ret (finish_query atof st (some (t ∷ h ∷ ms))))
        ≡ ret (
            if byte_value b4
              == (byte_value b0 + byte_value b1 + byte_value b2 + byte_value b3) % 256
            then (
              devretcode_success,
              some (
                  atof (print_pair (byte_value b2) (byte_value b3))
                  ∷ atof (print_pair (byte_value b0) (byte_value b1))
                  ∷ ms),
            )
            else (devretcode_data_failure, some (t ∷ h ∷ ms)))
  unfolding finish_query
  finish_query_five atof t h ms l0 l1 l2 l3 l4 = rw (store_bits_five l0 l1 l2 l3 l4) (ground arith)
