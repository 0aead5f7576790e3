-- ===== src/CLib/Decimal.antt =====
-- "%d" of sprintf, for a number that is not negative.
pub mod Laws
use rpiweatherd.CLib.Text.{read_digits}
use rpiweatherd.Base.{
  ℤ, pos, neg, negsuc, codes, Bool, true, false, ◌==◌, ◌||◌, ◌&&◌, leb, ◌^◌, ◌-◌, ℕ, zero, suc, ◌+◌,
  ◌/◌, ◌%◌, [], ◌∷◌, ◌++◌, ltb, if◌then◌else◌, Bytes,
}

-- The digits of a number, with fuel above the number.
unfoldable pub digits : ℕ → ℕ → Bytes
digits zero n = []
digits (suc fuel) n =
    let higher = digits fuel (n / 10) in
    if ltb n 10 then (b'0' + n) ∷ [] else higher ++ ((b'0' + n % 10) ∷ [])

unfoldable pub decimal : ℕ → Bytes
unfolding digits
decimal n = digits (suc n) n

-- "%d" and "%f" of a whole number.
unfoldable pub decimal_ℤ : ℤ → Bytes
unfolding decimal
decimal_ℤ (pos n) = decimal n
decimal_ℤ (negsuc n) = b'-' ∷ decimal (suc n)

unfoldable pub print_f : ℤ → Bytes
unfolding decimal_ℤ
print_f t = decimal_ℤ t ++ codes ".000000"

-- The text behind its leading white space.
unfoldable pub skip_spaces : Bytes → Bytes
skip_spaces [] = []
skip_spaces (c ∷ s) = if c == b' ' || leb 9 c && leb c 13 then skip_spaces s else c ∷ s

-- A sign and digits, into a `long` of 32 bits: the value, and whether errno becomes ERANGE.
unfoldable pub signed_digits : Bytes → ℤ × Bool
unfolding read_digits
signed_digits [] = (pos 0, false)
signed_digits (c ∷ s) =
    if c == b'-'
    then (let n = read_digits 0 s in
        if leb n (2 ^ 31) then (neg n, false) else (neg (2 ^ 31), true))
    else (let n = read_digits 0 (if c == b'+' then s else c ∷ s) in
        if ltb n (2 ^ 31) then (pos n, false) else (pos (2 ^ 31 - 1), true))

-- `strtol` with base 10.
unfoldable pub strtol : Bytes → ℤ × Bool
unfolding skip_spaces signed_digits
strtol s = signed_digits (skip_spaces s)
