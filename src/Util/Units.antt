-- ===== src/Util/Units.antt =====
-- src/util.c: rpiwd_units_to_milliseconds, rpiwd_sleep and rpiwd_units_to_time_t.
use rpiweatherd.Base.{
  ℕ, ◌+◌, ◌-◌, ◌*◌, ◌/◌, ◌%◌, ◌^◌, ◌<◌, ◌≡◌, ℤ, pos, neg, Bool, ◌||◌, [], ◌∷◌, ◌==◌, leb,
  if◌then◌else◌, Bytes, Outcome, ret, fault, read_overflow, ◌>>=◌, arith,
}
use rpiweatherd.CLib.Text.{is_digit}

-- What the code uses of `float`: strtof, whether errno is ERANGE behind it, and the product
-- `seconds * (count * 1000)` as an unsigned int.
pub record Count (F : Type 0) : Type 0 where
  pub strtof : Bytes → F
  pub erange : Bytes → Bool
  pub is_zero : F → Bool
  pub millis : ℕ → F → ℕ

-- The text from the first byte on that is neither a digit nor a point.
unfoldable pub skip_count : Bytes → Bytes
unfolding is_digit
skip_count [] = []
skip_count (c ∷ s) = if is_digit c || c == b'.' then skip_count s else c ∷ s

-- The seconds of a unit; 0 for an unknown one.
unfoldable pub unit_seconds : ℕ → ℕ
unit_seconds c =
    if c == b's'
    then 1
    else if c == b'm'
    then 60
    else if c == b'h'
    then 3600
    else if c == b'd'
    then 86400
    else 0

module _ {F : Type 0} (count : Count F) where
  -- The unit and what follows it, which must be nothing. At the end of the text the byte behind
  -- its NUL is read.
  unfoldable pub milliseconds_of : Bytes → Bytes → Outcome ℕ
  milliseconds_of unitstr [] = fault read_overflow
  milliseconds_of unitstr (c ∷ d ∷ r) = ret 0
  milliseconds_of unitstr (c ∷ []) =
      if unit_seconds c == 0
      then ret 0
      else if count.erange unitstr || count.is_zero (count.strtof unitstr)
      then ret 0
      else ret (count.millis (unit_seconds c) (count.strtof unitstr))

  unfoldable pub rpiwd_units_to_milliseconds : Bytes → Outcome ℕ
  rpiwd_units_to_milliseconds unitstr = milliseconds_of unitstr (skip_count unitstr)

  -- `now` is `time(NULL)`; the operation is `-`, as in the only call. The milliseconds are converted
  -- to a time_t of 32 bits, which is negative from 2^31 on, before they are divided.
  unfoldable pub rpiwd_units_to_time_t : ℕ → Bytes → Outcome ℤ
  rpiwd_units_to_time_t now unitstr = do
    millis ← rpiwd_units_to_milliseconds unitstr
    ret (
        if millis == 0
        then pos 0
        else if leb (2 ^ 31) millis
        then pos (now + (2 ^ 32 - millis) / 1000)
        else if leb (millis / 1000) now
        then pos (now - millis / 1000)
        else neg (millis / 1000 - now))

-- The seconds and nanoseconds that nanosleep is given.
unfoldable pub rpiwd_sleep : ℕ → ℕ × ℕ
rpiwd_sleep milliseconds = (milliseconds / 1000, milliseconds % 1000 * 1000000)

-- The seconds and nanoseconds that are slept add up to the milliseconds asked for, and the
-- nanoseconds are fewer than a second's.
pub rpiwd_sleep_exact :
    (m : ℕ)
    → ((rpiwd_sleep m).0 * 1000000000 + (rpiwd_sleep m).1 ≡ m * 1000000)
      × ((rpiwd_sleep m).1 < 1000000000)
unfolding rpiwd_sleep
rpiwd_sleep_exact m = omega arith
