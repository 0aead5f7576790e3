-- ===== src/Util/Lines.antt =====
-- src/util.c: rpiwd_getline, rpiwd_is_number and rpiwd_direction_to_char.
use rpiweatherd.Base.{
  ◌+◌, ℕ, zero, suc, ◌≡◌, ◌≢◌, ◌↔◌, refl, Bool, true, false, Option, none, some, [], ◌∷◌, ◌++◌,
  arith, ◌==◌, if◌then◌else◌, Bytes, length, take, All, Free, codes, str_eq, ap,
}
use rpiweatherd.CLib.Text.{Malloc, find, starts_with, is_digit}

-- The copy that is made of the text before a newline at offset `i`.
copy_line : Malloc → Bytes → ℕ → Option Bytes
copy_line malloc line zero = none
copy_line malloc line (suc i) = if malloc (suc i + 1) then some (take (suc i) line) else none

-- A copy of the text before the first `newline`; NULL where that is missing or stands first.
unfoldable pub rpiwd_getline : Malloc → Bytes → Bytes → Option Bytes
unfolding find copy_line
rpiwd_getline malloc line newline = elim (find newline line) [
  | none ↦ none
  | some i ↦ copy_line malloc line i
]

unfoldable pub rpiwd_is_number : Bytes → Bool
unfolding is_digit
rpiwd_is_number [] = true
rpiwd_is_number (c ∷ s) = if is_digit c then rpiwd_is_number s else false

unfoldable pub rpiwd_direction_to_char : Bytes → ℕ
unfolding str_eq
rpiwd_direction_to_char direction =
    if str_eq direction (codes "from")
    then b'>'
    else if str_eq direction (codes "to")
    then b'<'
    else b'?'

abbrev pub crlf : Bytes
crlf = b'\r' ∷ b'\n' ∷ []

take-append : (s r : Bytes) → take (length s) (s ++ r) ≡ s
take-append [] r = refl
take-append (c ∷ s) r = ap (◌∷◌ c) (take-append s r)

pub find-crlf :
    (s r : Bytes) → Free (λ c. c == b'\r') s → find crlf (s ++ (crlf ++ r)) ≡ some (length s)
unfolding find starts_with
find-crlf [] r f = refl
find-crlf (c ∷ s) r f = ground (arith, find-crlf s r f.1)

-- A text in front of a carriage return and a newline is returned whole, if it is not empty, holds
-- no carriage return, and memory is available.
pub rpiwd_getline-crlf :
    (malloc : Malloc) (s r : Bytes)
    → ((n : ℕ) → malloc n ≡ true)
    → s ≢ []
    → Free (λ c. c == b'\r') s
    → rpiwd_getline malloc (s ++ (crlf ++ r)) crlf ≡ some s
unfolding rpiwd_getline
rpiwd_getline-crlf malloc [] r m ne f = absurd (ne refl)
rpiwd_getline-crlf malloc (c ∷ s) r m ne f = rw (
  rpiwd_getline,
  find-crlf (c ∷ s) r f,
  copy_line,
  m (suc (length s) + 1),
  take-append s (crlf ++ r),
)

-- A text is a number exactly if each of its bytes is a digit; the empty text is one.
pub rpiwd_is_number_iff : (s : Bytes) → (rpiwd_is_number s ≡ true) ↔ All (λ c. is_digit c ≡ true) s
unfolding rpiwd_is_number
rpiwd_is_number_iff [] = (λ _. tt, λ _. refl)
rpiwd_is_number_iff (c ∷ s) = ground (arith, rpiwd_is_number_iff s)
