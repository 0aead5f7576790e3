-- ===== src/Trigger/Parse/Target.antt =====
-- The target of a trigger: what ends it.
use rpiweatherd.Base.{
  ℕ, ◌≡◌, ◌≢◌, ◌⊎◌, refl, Bool, true, false, none, some, [], ◌∷◌, ◌++◌, ◌==◌, Bytes, All, Free,
  All-append, All-map, arith, length, ◌+◌,
}
use rpiweatherd.CLib.Text.{Malloc, is_digit}
use rpiweatherd.CLib.Token.{strtok, strtok_last, strtok_delimited, strtok-none}
use rpiweatherd.Util.Lines.{rpiwd_is_number, rpiwd_is_number_iff}
use rpiweatherd.Trigger.Floats.{Floats}
use rpiweatherd.Trigger.Codes.{parse_ok, error_target_not_numeric, action_pinup, action_pindown}
use rpiweatherd.Trigger.Parse.{
  live, Trigger, is_blank, is_blank_or_newline, parse_target, parse_args,
}

digit_not_blank : (c : ℕ) → is_digit c ≡ true → (is_blank c ≡ false) × ((c == b'\n') ≡ false)
unfolding is_digit
digit_not_blank c h = ground arith

digits-Free : (s : Bytes) → All (λ c. is_digit c ≡ true) s → Free is_blank s
digits-Free s d = All-map _ (λ c. is_blank c ≡ false) s (λ c h. (digit_not_blank c h).0) d

newline_not_number : (s : Bytes) → rpiwd_is_number (s ++ (b'\n' ∷ [])) ≡ false
unfolding rpiwd_is_number is_digit
newline_not_number [] = refl
newline_not_number (c ∷ s) = ground (arith, newline_not_number s)

pin_with_newline :
    (s : Bytes)
    → s ≢ []
    → All (λ c. is_digit c ≡ true) s
    → strtok is_blank (s ++ (b'\n' ∷ [])) ≡ (some (s ++ (b'\n' ∷ [])), [])
pin_with_newline s ne d =
    strtok_last is_blank [] (s ++ (b'\n' ∷ [])) tt (not_nil s)
      (All-append (λ c. is_blank c ≡ false) s (b'\n' ∷ []) (digits-Free s d) (refl, tt))
  where
    not_nil : (s : Bytes) → s ++ (b'\n' ∷ []) ≢ []
    not_nil [] = λ e. cc
    not_nil (c ∷ s) = λ e. cc

pin_with_blank :
    (s : Bytes)
    → s ≢ []
    → All (λ c. is_digit c ≡ true) s
    → strtok is_blank (s ++ (b' ' ∷ b'\n' ∷ [])) ≡ (some s, b'\n' ∷ [])
pin_with_blank s ne d =
    strtok_delimited is_blank [] s b' ' (b'\n' ∷ []) tt ne (digits-Free s d) refl

only_newline : strtok is_blank_or_newline (b'\n' ∷ []) ≡ (none, [])
only_newline = strtok-none is_blank_or_newline (b'\n' ∷ []) (refl, tt)

module _ {F : Type 0} (fl : Floats F) (malloc : Malloc) (erange : Bool) (trig : Trigger F)
    (pin : Bytes) where
  -- For an action on a pin, and if memory is available: a pin, one digit or more, at the end of
  -- its line is refused as not numeric, since the newline belongs to it; with a blank between pin
  -- and newline it is accepted.
  pub parse_target_pin :
      ((n : ℕ) → malloc n ≡ true)
      → (trig.action ≡ action_pinup) ⊎ (trig.action ≡ action_pindown)
      → pin ≢ []
      → All (λ c. is_digit c ≡ true) pin
      → ((parse_target fl malloc erange trig (pin ++ (b'\n' ∷ []))).flag ≡ error_target_not_numeric)
        × (parse_target fl malloc erange trig (pin ++ (b' ' ∷ b'\n' ∷ []))
            ≡ record { flag = parse_ok; trig = record trig { target = live pin }; erange = erange })
  unfolding parse_target parse_args
  parse_target_pin m a ne d = (
    rw
        (
          parse_target,
          pin_with_newline pin ne d,
          m (length (pin ++ (b'\n' ∷ [])) + 1),
          newline_not_number pin,
        )
        (ground arith),
    rw
        (
          parse_target,
          pin_with_blank pin ne d,
          m (length pin + 1),
          (rpiwd_is_number_iff pin).1 d,
          parse_args,
        )
        (ground (arith, only_newline, pin_with_blank pin ne d)),
  )
