-- ===== src/CLib/Text.antt =====
-- <string.h> and <ctype.h> on byte strings: strstr, strchr, isdigit, isupper, tolower, atoi,
-- strtol, and "%d" of sprintf.
use rpiweatherd.Base.{
  ◌*◌, ◌-◌, ltb, length, str_eq, Outcome, ret, fault, write_overflow, null_pointer, ℕ, suc, ◌+◌,
  Bool, true, false, ◌&&◌, ◌||◌, Option, none, some, [], ◌∷◌, leb, ◌==◌, if◌then◌else◌, Bytes,
}

unfoldable pub is_digit : ℕ → Bool
is_digit c = leb b'0' c && leb c b'9'

unfoldable pub is_upper : ℕ → Bool
is_upper c = leb b'A' c && leb c b'Z'

unfoldable pub to_lower : ℕ → ℕ
unfolding is_upper
to_lower c = if is_upper c then c + 32 else c

-- `strchr(s, c) != NULL`, for a `c` that is not NUL.
unfoldable pub has_char : ℕ → Bytes → Bool
has_char c [] = false
has_char c (x ∷ s) = c == x || has_char c s

unfoldable pub starts_with : Bytes → Bytes → Bool
starts_with [] s = true
starts_with (x ∷ p) [] = false
starts_with (x ∷ p) (y ∷ s) = x == y && starts_with p s

-- `strstr(s, p) - s`.
unfoldable pub find : Bytes → Bytes → Option ℕ
unfolding starts_with
find p [] = if starts_with p [] then some 0 else none
find p (c ∷ s) =
    if starts_with p (c ∷ s)
    then some 0
    else elim (find p s) [ none ↦ none | some i ↦ some (suc i) ]

-- `strcpy(dest, s)` into an array of `size` bytes.
unfoldable pub strcpy : ℕ → Bytes → Outcome Bytes
strcpy size s = if ltb (length s) size then ret s else fault write_overflow

-- `strcmp(a, b) == 0` on pointers that may be null.
unfoldable pub strcmp_eq : Option Bytes → Option Bytes → Outcome Bool
unfolding str_eq
strcmp_eq (some a) (some b) = ret (str_eq a b)
strcmp_eq _ _ = fault null_pointer

-- Whether an allocation of that many bytes succeeds.
abbrev pub Malloc : Type 0
Malloc = ℕ → Bool

unfoldable pub strdup : Malloc → Bytes → Option Bytes
strdup malloc s = if malloc (length s + 1) then some s else none

-- `strdup` of a string that must not be NULL.
unfoldable pub strdup_set : Malloc → Option Bytes → Outcome (Option Bytes)
unfolding strdup
strdup_set malloc none = fault null_pointer
strdup_set malloc (some s) = ret (strdup malloc s)

-- The number that the leading digits of a text stand for; `acc` is what was read so far.
unfoldable pub read_digits : ℕ → Bytes → ℕ
unfolding is_digit
read_digits acc [] = acc
read_digits acc (c ∷ s) = if is_digit c then read_digits (acc * 10 + (c - b'0')) s else acc

-- `atoi` of a text with no sign.
unfoldable pub atoi : Bytes → ℕ
unfolding read_digits
atoi s = read_digits 0 s
