-- ===== src/Trigger/Parse.antt =====
-- src/trigger.c: parse_cond_type to parse_trigger. A flag is a TRIGGER_PARSE_ or TRIGGER_ERROR_
-- code.
pub mod Operation
pub mod Target
pub mod Arguments
use rpiweatherd.Base.{
  ℕ, zero, suc, ◌-◌, ◌+◌, Bool, not, ◌&&◌, ◌||◌, Option, none, some, [], ◌∷◌, ◌==◌, leb,
  if◌then◌else◌, Bytes, length, drop, map, Outcome, ret, fault, null_pointer,
}
use rpiweatherd.CLib.Text.{Malloc, to_lower}
use rpiweatherd.CLib.Token.{strtok}
use rpiweatherd.Util.Lines.{rpiwd_is_number}
use rpiweatherd.Trigger.Floats.{Floats}
use rpiweatherd.Trigger.Codes.{
  parse_ok, parse_comment_line, error_eof, error_out_of_memory, error_malformed_value,
  error_missing_value, error_cond_op_syntax, error_cond_unknown_op, error_unknown_action,
  error_missing_action, error_target_malformed, error_target_not_numeric,
  error_arguments_not_needed, action_pinup, action_pindown, cond_op_table, cond_type_table,
  cond_action_table, code_of,
}

-- A `char *` that the trigger table holds: null, an allocated string, or one that was freed.
pub data Pointer : Type 0 where
  null : Pointer
  live : Bytes → Pointer
  freed : Pointer

-- rpiwd_trigger.
pub record Trigger (F : Type 0) : Type 0 where
  pub val_type : ℕ
  pub op : ℕ
  pub action : ℕ
  pub cond_value : F
  pub target : Pointer
  pub args : Pointer
  pub value_unit : ℕ

abbrev pub is_blank : ℕ → Bool
is_blank c = c == b' ' || c == b'\t'

abbrev pub is_blank_or_newline : ℕ → Bool
is_blank_or_newline c = c == b' ' || (c == b'\t' || c == b'\n')

-- The byte at an offset, the terminating NUL included.
abbrev pub byte_at : Bytes → ℕ → ℕ
byte_at [] i = 0
byte_at (c ∷ s) zero = c
byte_at (c ∷ s) (suc i) = byte_at s i

-- The flag and `*value`. The value -1, which the flag is tested by, is never stored.
unfoldable pub parse_cond_type : Option Bytes → ℕ × ℕ
parse_cond_type none = (parse_ok, 0)
parse_cond_type (some part) = (
  parse_ok,
  (if byte_at part 0 == b'%' && byte_at part (length part - 1) == b'%'
      then code_of cond_type_table part
      else 0),
)

unfoldable pub parse_cond_op : Option Bytes → ℕ × ℕ
parse_cond_op none = (error_cond_op_syntax, 0)
parse_cond_op (some part) =
    if leb (length part) 2
    then (let value = code_of cond_op_table part in
        if value == 0 then (error_cond_unknown_op, 0) else (parse_ok, value))
    else (error_cond_op_syntax, 0)

unfoldable pub parse_cond_action : Option Bytes → ℕ × ℕ
parse_cond_action none = (error_missing_action, 0)
parse_cond_action (some part) =
    let value = code_of cond_action_table (map to_lower part) in
    if value == 0 then (error_unknown_action, 0) else (parse_ok, value)

-- `*value` becomes the first byte of the part, if that is one of the units.
unfoldable pub parse_cond_value_suffix : Bytes → ℕ → ℕ
parse_cond_value_suffix part value =
    let c = byte_at part 0 in if c == b'c' || (c == b'f' || c == b'%') then c else value

-- What parse_trigger leaves: its flag, the trigger as far as it was written, and whether errno is
-- ERANGE.
pub record Attempt (F : Type 0) : Type 0 where
  pub flag : ℕ
  pub trig : Trigger F
  pub erange : Bool

module _ {F : Type 0} (fl : Floats F) (malloc : Malloc) where
  open fl use {strtod, strtod_end, strtod_erange, is_zero}

  -- The flag, the value, the part that is left and errno. A call of strtod leaves ERANGE set.
  unfoldable pub parse_cond_value : Bool → Option Bytes → F → ℕ × F × Option Bytes × Bool
  parse_cond_value erange none value = (error_missing_value, value, none, erange)
  parse_cond_value erange (some part) value =
      let v = strtod part in
      let erange' = erange || strtod_erange part in
      if not (is_zero v) || not erange'
      then (
        parse_ok,
        v,
        some (if strtod_end part == length part then part else drop (strtod_end part) part),
        erange',
      )
      else (error_malformed_value, v, some part, erange')

  -- The arguments, from the text that the target leaves.
  unfoldable pub parse_args : Bool → Trigger F → Bytes → Attempt F
  parse_args erange trig rest = elim (strtok is_blank_or_newline rest).0 [
    | none ↦ record { flag = parse_ok; trig = trig; erange = erange }
    | some part ↦
        if trig.action == action_pindown || trig.action == action_pinup
        then record { flag = error_arguments_not_needed; trig = trig; erange = erange }
        else if malloc (length part + 1)
        then record { flag = parse_ok; trig = record trig { args = live part }; erange = erange }
        else record {
          flag = error_out_of_memory;
          trig = record trig { args = null };
          erange = erange;
        }
  ]

  -- The target and the arguments.
  unfoldable pub parse_target : Bool → Trigger F → Bytes → Attempt F
  parse_target erange trig rest =
      let (part, rest') = strtok is_blank rest in
      elim part [
        | none ↦ record { flag = error_target_malformed; trig = trig; erange = erange }
        | some text ↦
            if not (malloc (length text + 1))
            then record {
              flag = error_out_of_memory;
              trig = record trig { target = null };
              erange = erange;
            }
            else (let trig' = record trig { target = live text } in
                if (trig.action == action_pindown || trig.action == action_pinup)
                  && not (rpiwd_is_number text)
                then record { flag = error_target_not_numeric; trig = trig'; erange = erange }
                else parse_args erange trig' rest')
      ]

  unfoldable pub parse_action : Bool → Trigger F → Bytes → Attempt F
  parse_action erange trig rest =
      let (part, rest') = strtok is_blank rest in
      let (flag, value) = parse_cond_action part in
      let trig' = record trig { action = value } in
      if flag == parse_ok
      then parse_target erange trig' rest'
      else record { flag = flag; trig = trig'; erange = erange }

  -- The value to compare with, and its unit.
  unfoldable pub parse_value : Bool → Trigger F → Bytes → Attempt F
  parse_value erange trig rest =
      let (part, rest') = strtok is_blank rest in
      let (flag, value, part', erange') = parse_cond_value erange part trig.cond_value in
      let trig' = record trig { cond_value = value } in
      if flag == parse_ok
      then (let unit : ℕ = elim part' [
        | none ↦ trig.value_unit
        | some text ↦ parse_cond_value_suffix text trig.value_unit
      ] in
          parse_action erange' (record trig' { value_unit = unit }) rest')
      else record { flag = flag; trig = trig'; erange = erange' }

  unfoldable pub parse_op : Bool → Trigger F → Bytes → Attempt F
  parse_op erange trig rest =
      let (part, rest') = strtok is_blank rest in
      let (flag, value) = parse_cond_op part in
      let trig' = record trig { op = value } in
      if flag == parse_ok
      then parse_value erange trig' rest'
      else record { flag = flag; trig = trig'; erange = erange }

  -- The line as strtok_r cuts off its first token; a line with no token is read through a null
  -- pointer.
  unfoldable pub parse_first : Bool → Trigger F → Option Bytes × Bytes → Outcome (Attempt F)
  parse_first erange trig (none, rest) = fault null_pointer
  parse_first erange trig (some part, rest) =
      if byte_at part 0 == b'#'
      then ret (record { flag = parse_comment_line; trig = trig; erange = erange })
      else (let (flag, value) = parse_cond_type (some part) in
          let trig' = record trig { val_type = value } in
          if flag == parse_ok
          then ret (parse_op erange trig' rest)
          else ret (record { flag = flag; trig = trig'; erange = erange }))

  -- `line` is what getline reads, with its newline; none at the end of the file.
  unfoldable pub parse_trigger : Bool → Trigger F → Option Bytes → Outcome (Attempt F)
  parse_trigger erange trig none = ret (record { flag = error_eof; trig = trig; erange = erange })
  parse_trigger erange trig (some line) = parse_first erange trig (strtok is_blank line)
