-- ===== src/Trigger/Load/Flags.antt =====
-- The flags of parse_trigger: none of them is a row of the table of messages.
use rpiweatherd.Base.{◌≤◌, ◌≡◌, Bool, Option, none, some, Bytes, arith, ret}
use rpiweatherd.CLib.Text.{Malloc}
use rpiweatherd.CLib.Token.{strtok}
use rpiweatherd.Trigger.Floats.{Floats}
use rpiweatherd.Trigger.Parse.{
  Trigger, Attempt, is_blank, parse_cond_type, parse_cond_op, parse_cond_action, parse_cond_value,
  parse_args, parse_target, parse_action, parse_value, parse_op, parse_first, parse_trigger,
}

module _ {F : Type 0} (fl : Floats F) (malloc : Malloc) (erange : Bool) where
  parse_args_flag :
      (trig : Trigger F) (rest : Bytes) → 100 ≤ (parse_args fl malloc erange trig rest).flag
  unfolding parse_args
  parse_args_flag trig rest = ground arith

  parse_target_flag :
      (trig : Trigger F) (rest : Bytes) → 100 ≤ (parse_target fl malloc erange trig rest).flag
  unfolding parse_target
  parse_target_flag trig rest = grind (arith, parse_args_flag)

  parse_action_flag :
      (trig : Trigger F) (rest : Bytes) → 100 ≤ (parse_action fl malloc erange trig rest).flag
  unfolding parse_action parse_cond_action
  parse_action_flag trig rest = grind (arith, parse_target_flag)

module _ {F : Type 0} (fl : Floats F) (malloc : Malloc) where
  parse_cond_value_flag :
      (erange : Bool) (part : Option Bytes) (value : F)
      → 100 ≤ (parse_cond_value fl malloc erange part value).0
  unfolding parse_cond_value
  parse_cond_value_flag erange part value = ground arith

  parse_value_flag :
      (erange : Bool) (trig : Trigger F) (rest : Bytes)
      → 100 ≤ (parse_value fl malloc erange trig rest).flag
  unfolding parse_value
  parse_value_flag erange trig rest = grind (arith, parse_action_flag, parse_cond_value_flag)

  parse_op_flag :
      (erange : Bool) (trig : Trigger F) (rest : Bytes)
      → 100 ≤ (parse_op fl malloc erange trig rest).flag
  unfolding parse_op parse_cond_op
  parse_op_flag erange trig rest = grind (arith, parse_value_flag)

  parse_first_flag :
      (erange : Bool) (trig : Trigger F) (t : Option Bytes × Bytes) {a : Attempt F}
      → parse_first fl malloc erange trig t ≡ ret a
      → 100 ≤ a.flag
  unfolding parse_first parse_cond_type
  parse_first_flag erange trig (none, rest) h = cc
  parse_first_flag erange trig (some part, rest) h = grind (arith, parse_op_flag)

  -- Every flag is 100 or more.
  pub parse_trigger_flag :
      (erange : Bool) (trig : Trigger F) (line : Bytes) {a : Attempt F}
      → parse_trigger fl malloc erange trig (some line) ≡ ret a
      → 100 ≤ a.flag
  unfolding parse_trigger
  parse_trigger_flag erange trig line h = parse_first_flag erange trig (strtok is_blank line) h
