-- ===== src/Trigger/Parse/Arguments.antt =====
-- What the parser does to the arguments of the entry that it reads a trigger into.
use rpiweatherd.Base.{ℕ, ◌≡◌, ◌≢◌, ◌⊎◌, Bool, Option, none, some, Bytes, ret, arith}
use rpiweatherd.CLib.Text.{Malloc}
use rpiweatherd.CLib.Token.{strtok}
use rpiweatherd.Trigger.Floats.{Floats}
use rpiweatherd.Trigger.Codes.{parse_comment_line, action_pinup, action_pindown}
use rpiweatherd.Trigger.Parse.{
  Trigger, Attempt, is_blank, parse_cond_type, parse_cond_op, parse_cond_action, parse_cond_value,
  parse_args, parse_target, parse_action, parse_value, parse_op, parse_first, parse_trigger,
}

-- The action sets a pin up or down.
abbrev pub IsPin : ℕ → Type 0
IsPin action = (action ≡ action_pinup) ⊎ (action ≡ action_pindown)

-- The line is not reported as a comment, and a trigger on a pin has the arguments of the entry that
-- it was read into.
pub record Keeps {F : Type 0} (trig : Trigger F) (a : Attempt F) : Type 0 where
  pub not_comment : a.flag ≢ parse_comment_line
  pub args : IsPin a.trig.action → a.trig.args ≡ trig.args

module _ {F : Type 0} (fl : Floats F) (malloc : Malloc) (erange : Bool) where
  parse_args-Keeps :
      (trig : Trigger F) (rest : Bytes) → Keeps trig (parse_args fl malloc erange trig rest)
  unfolding parse_args
  parse_args-Keeps trig rest = record { not_comment = ground arith; args = λ p. ground arith }

  parse_target-Keeps :
      (trig : Trigger F) (rest : Bytes) → Keeps trig (parse_target fl malloc erange trig rest)
  unfolding parse_target
  parse_target-Keeps trig rest = record {
    not_comment = grind (arith, parse_args-Keeps);
    args = λ p. grind (arith, parse_args-Keeps);
  }

  parse_action-Keeps :
      (trig : Trigger F) (rest : Bytes) → Keeps trig (parse_action fl malloc erange trig rest)
  unfolding parse_action parse_cond_action
  parse_action-Keeps trig rest = record {
    not_comment = grind (arith, parse_target-Keeps);
    args = λ p. grind (arith, parse_target-Keeps);
  }

module _ {F : Type 0} (fl : Floats F) (malloc : Malloc) where
  parse_value-Keeps :
      (erange : Bool) (trig : Trigger F) (rest : Bytes)
      → Keeps trig (parse_value fl malloc erange trig rest)
  unfolding parse_value parse_cond_value
  parse_value-Keeps erange trig rest = record {
    not_comment = grind (arith, parse_action-Keeps);
    args = λ p. grind (arith, parse_action-Keeps);
  }

  parse_op-Keeps :
      (erange : Bool) (trig : Trigger F) (rest : Bytes)
      → Keeps trig (parse_op fl malloc erange trig rest)
  unfolding parse_op parse_cond_op
  parse_op-Keeps erange trig rest = record {
    not_comment = grind (arith, parse_value-Keeps);
    args = λ p. grind (arith, parse_value-Keeps);
  }

  -- A line is a comment, which changes nothing, or it keeps the arguments under an action on a
  -- pin.
  parse_first-Keeps :
      (erange : Bool) (trig : Trigger F) (t : Option Bytes × Bytes) {a : Attempt F}
      → parse_first fl malloc erange trig t ≡ ret a
      → (a.trig ≡ trig) ⊎ Keeps trig a
  unfolding parse_first parse_cond_type
  parse_first-Keeps erange trig (none, rest) h = cc
  parse_first-Keeps erange trig (some part, rest) h = grind (arith, parse_op-Keeps)

  pub parse_trigger-Keeps :
      (erange : Bool) (trig : Trigger F) (line : Bytes) {a : Attempt F}
      → parse_trigger fl malloc erange trig (some line) ≡ ret a
      → (a.trig ≡ trig) ⊎ Keeps trig a
  unfolding parse_trigger
  parse_trigger-Keeps erange trig line h = parse_first-Keeps erange trig (strtok is_blank line) h
