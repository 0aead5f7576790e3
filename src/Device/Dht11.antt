-- ===== src/Device/Dht11.antt =====
-- devices/dht11.c: dht11_query_callback. The sensor is the sequence of the levels that digitalRead
-- returns, call by call; `atof` is the C library's.
pub mod Bits
use rpiweatherd.Base.{
  ℕ, zero, suc, ◌+◌, ◌-◌, ◌*◌, ◌/◌, ◌%◌, ℤ, pos, neg, Bool, true, false, not, ◌&&◌, Option, none,
  some, List, [], ◌∷◌, ◌++◌, ◌==◌, ltb, leb, if◌then◌else◌, Bytes, get_elem?, set, Outcome, ret,
  fault, write_overflow, ◌>>=◌,
}
use rpiweatherd.CLib.Decimal.{decimal}

abbrev pub dht11_max_reads : ℕ
dht11_max_reads = 96

abbrev pub devretcode_success : ℤ
devretcode_success = pos 0

abbrev pub devretcode_data_failure : ℤ
devretcode_data_failure = neg 2

abbrev pub devretcode_memory_error : ℤ
devretcode_memory_error = neg 4

-- The levels that the reads return; true is HIGH.
abbrev pub Pin : Type 0
Pin = ℕ → Bool

abbrev pub same_level : Bool → Bool → Bool
same_level true b = b
same_level false b = not b

-- The wait for a change, with `left` counts to go to 255: the counter, and the next read.
unfoldable pub wait_change : Pin → Bool → ℕ → ℕ → ℕ × ℕ
wait_change pin last_state zero read = (255, read)
wait_change pin last_state (suc left) read =
    let later = wait_change pin last_state left (suc read) in
    if same_level (pin read) last_state then later else (255 - suc left, suc read)

-- The count of stored bits, and the five bytes.
abbrev pub Stored : Type 0
Stored = ℕ × List ℕ

-- `data[j / 8] <<= 1`, the bit, and `j++`.
unfoldable pub store_bit : Stored → Bool → Outcome Stored
store_bit (j, data') bit = elim (get_elem? data' (j / 8)) [
  | none ↦ fault write_overflow
  | some x ↦ ret (j + 1, set data' (j / 8) (x * 2 + (if bit then 1 else 0)))
]

-- What a change that was counted adds to the bytes.
unfoldable pub store_change : ℕ → ℕ → Stored → Outcome Stored
store_change i counter st = if leb 4 i && i % 2 == 0 then store_bit st (ltb 16 counter) else ret st

-- The loop, with `left` rounds to go.
unfoldable pub read_bits : Pin → ℕ → ℕ → Bool → ℕ → Stored → Outcome Stored
read_bits pin zero i last_state read st = ret st
read_bits pin (suc left) i last_state read st =
    let (counter, read') = wait_change pin last_state 255 read in
    let go_on = λ (st' : Stored). read_bits pin left (suc i) (pin read') (suc read') st' in
    if counter == 255 then ret st else (do st' ← store_change i counter st; go_on st')

abbrev pub no_bits : Stored
no_bits = (0, 0 ∷ 0 ∷ 0 ∷ 0 ∷ 0 ∷ [])

-- "%d.%d".
unfoldable pub print_pair : ℕ → ℕ → Bytes
unfolding decimal
print_pair a b = decimal a ++ (b'.' ∷ decimal b)

module _ {F : Type 0} (atof : Bytes → F) where
  -- The check of the sum, and the measurements: the temperature and the humidity.
  unfoldable pub finish_query : Stored → Option (List F) → ℤ × Option (List F)
  finish_query (j, d0 ∷ d1 ∷ d2 ∷ d3 ∷ d4 ∷ []) arr =
      if leb 40 j && d4 == (d0 + d1 + d2 + d3) % 256
      then elim arr [
        | none ↦ (devretcode_memory_error, none)
        | some ms ↦ (
          devretcode_success,
          some (set (set ms 0 (atof (print_pair d2 d3))) 1 (atof (print_pair d0 d1))),
        )
      ]
      else (devretcode_data_failure, arr)
  finish_query _ arr = (devretcode_data_failure, arr)

  -- The return code and the array of measurements, which is none for a null pointer.
  unfoldable pub dht11_query_callback : Pin → Option (List F) → Outcome (ℤ × Option (List F))
  dht11_query_callback pin arr = do
    st ← read_bits pin dht11_max_reads 0 true 0 no_bits
    ret (finish_query st arr)
