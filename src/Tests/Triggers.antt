-- ===== src/Tests/Triggers.antt =====
-- The triggers on concrete conditions, lines and tables.
use rpiweatherd.Base.{
  ℕ, ◌≤◌, ◌≡◌, ◌⊎◌, refl, pos, false, some, [], ◌∷◌, Bytes, replicate, codes, ret, ltb,
  if◌then◌else◌, arith, fault, write_overflow, dangling, inl, none, drop, ◌>>=◌,
}
use rpiweatherd.Tests.Values.{all_fits, nat_floats, hot, empty_triggers}
use rpiweatherd.Trigger.Codes.{parse_ok, error_file_not_found, action_exec, code_of, text_of}
use rpiweatherd.CLib.Token.{strtok}
use rpiweatherd.Trigger.Parse.{
  parse_trigger, parse_first, live, freed, parse_cond_type, parse_op, parse_cond_op, parse_value,
  parse_cond_value, parse_action, parse_cond_action, parse_target, parse_args,
  parse_cond_value_suffix,
}
use rpiweatherd.Trigger.Eval.{
  measurement, cond_test, eval_cond, convert_measurements_maybe, trigger_should_execute,
}
use rpiweatherd.Trigger.Eval.Reads.{trigger_should_execute_temp}
use rpiweatherd.Trigger.Exec.{write_pin, deref, run_action, exec_trigger, exec_triggers}
use rpiweatherd.Trigger.Exec.Conversion.{exec_triggers-converts, iterate}
use rpiweatherd.Trigger.Load.{
  load_entry, after_line, load_lines, load_triggers, Triggers, unload_triggers, free_first,
  free_trigger, free,
}
use rpiweatherd.Trigger.Load.Stale.{load_triggers_dangling}
use rpiweatherd.Trigger.Listing.{list_triggers, list_row, list_rows, shown_args}
use rpiweatherd.Trigger.Exec.Unloaded.{Round, exec_rounds, exec_rounds-unload_triggers}
use rpiweatherd.Util.Lines.{rpiwd_is_number}
use rpiweatherd.Trigger.Load.Bounds.{IsValid, load_triggers-IsValid}
use rpiweatherd.CLib.Text.{atoi, read_digits, has_char, to_lower}
use rpiweatherd.CLib.Decimal.{decimal}
use rpiweatherd.Trigger.Args.{post_process_args}
use rpiweatherd.Trigger.Args.Placeholders.{Replaces, post_process_args_lem}

trigger_should_execute_temp_example :
    (t' : ℕ) × (trigger_should_execute nat_floats hot (20 ∷ 55 ∷ 0 ∷ [])
      ≡ ret ((if ltb 30 55 then pos 1 else pos 0), t' ∷ 55 ∷ 0 ∷ []))
unfolding cond_test
trigger_should_execute_temp_example =
    trigger_should_execute_temp nat_floats hot 20 55 0 [] {test = λ a b. ltb b a} refl refl

two_hot :
    exec_triggers nat_floats (hot ∷ hot ∷ []) (20 ∷ 55 ∷ 0 ∷ [])
    ≡ ret (write_pin 4 1 ∷ write_pin 4 1 ∷ [], 176 ∷ 55 ∷ 0 ∷ [])
unfolding exec_triggers exec_trigger trigger_should_execute convert_measurements_maybe measurement
    cond_test eval_cond run_action deref atoi read_digits
two_hot = refl

exec_triggers-converts_example : 176 ∷ 55 ∷ 0 ∷ [] ≡ iterate nat_floats 2 20 ∷ 55 ∷ 0 ∷ []
exec_triggers-converts_example =
    exec_triggers-converts nat_floats (hot ∷ hot ∷ []) 20 (55 ∷ 0 ∷ []) two_hot

empty_triggers-IsValid : IsValid empty_triggers
empty_triggers-IsValid = record { entries = refl; in_use = omega arith }

abbrev comment_line : Bytes
comment_line = codes "# nothing here\n"

load_comment :
    load_triggers nat_floats all_fits (some (comment_line ∷ [])) false empty_triggers
    ≡ ret (parse_ok, empty_triggers)
unfolding load_triggers load_lines load_entry parse_trigger parse_first strtok after_line
load_comment = refl

load_triggers-IsValid_example :
    IsValid empty_triggers × ((parse_ok ≡ parse_ok) ⊎ (parse_ok ≡ error_file_not_found))
load_triggers-IsValid_example =
    load_triggers-IsValid nat_floats all_fits (some (comment_line ∷ [])) false empty_triggers
      empty_triggers-IsValid load_comment

post_process_args_lem_example : Replaces nat_floats 20 (55 ∷ []) (codes "%temp% degrees")
unfolding has_char decimal
post_process_args_lem_example =
    post_process_args_lem nat_floats 20 (55 ∷ []) (codes "%temp% degrees") refl (omega arith)

-- The placeholder at the start is replaced, and the one behind another word is copied from the end
-- of the address space.
replaced_first :
    post_process_args nat_floats (20 ∷ 55 ∷ []) (live (codes "%temp% degrees"))
    ≡ ret (some (codes "20 degrees"))
unfolding post_process_args decimal
replaced_first = refl

not_replaced_later :
    post_process_args nat_floats (20 ∷ 55 ∷ []) (live (codes "at %temp%")) ≡ fault write_overflow
unfolding post_process_args decimal
not_replaced_later = refl

-- A table whose only trigger runs a command with an argument, and the one that a file with a
-- trigger on a pin leaves.
abbrev with_argument : Triggers ℕ
with_argument = record {
  table = record hot { action = action_exec; args = live (codes "now") } ∷ replicate 15 hot;
  count = 1;
  last_update = 0;
}

abbrev pin_line : Bytes
pin_line = codes "%temp% > 30c pinup 4 \n"

abbrev reloaded : Triggers ℕ
reloaded = record with_argument {
  table =
      record hot { target = live (codes "4"); args = freed; value_unit = b'c' } ∷ replicate 15 hot;
}

load_pin_line :
    load_triggers nat_floats all_fits (some (pin_line ∷ [])) false with_argument
    ≡ ret (parse_ok, reloaded)
unfolding load_triggers load_lines load_entry parse_trigger parse_first strtok after_line
    unload_triggers free_first free_trigger free parse_cond_type parse_op parse_cond_op code_of
    parse_value parse_cond_value read_digits parse_action parse_cond_action to_lower parse_target
    rpiwd_is_number parse_args parse_cond_value_suffix
load_pin_line = refl

load_triggers_dangling_example :
    load_triggers nat_floats all_fits none false reloaded ≡ fault dangling
load_triggers_dangling_example =
    load_triggers_dangling nat_floats all_fits (some (pin_line ∷ [])) none false false with_argument
      0 (record { entries = refl; in_use = omega arith }) (omega arith) refl (λ e. cc) load_pin_line
      (omega arith) refl (inl refl)

list_one :
    (list_triggers nat_floats all_fits decimal
        (some (codes "%humid% >= 50 exec /bin/true now\n" ∷ []))
        false
        empty_triggers
      >>= λ r. ret (drop 81 r.0))
    ≡ ret (
        codes
          "%humid% >= 50        exec      /bin/true                     now                 \n\n")
unfolding list_triggers list_row list_rows shown_args deref decimal load_triggers load_lines
    load_entry parse_trigger parse_first strtok after_line unload_triggers free_first free_trigger
    free parse_cond_type parse_op parse_cond_op code_of parse_value parse_cond_value read_digits
    parse_action parse_cond_action to_lower parse_target rpiwd_is_number parse_args
    parse_cond_value_suffix text_of
list_one = refl

-- A table that was loaded at time 5, and two calls behind its unloading.
abbrev loaded_at_5 : Triggers ℕ
loaded_at_5 = record with_argument { last_update = 5 }

abbrev old_round : Round ℕ
old_round = record {
  ctime = some 5;
  file = some (pin_line ∷ []);
  erange = false;
  measurements = 20 ∷ 55 ∷ 0 ∷ [];
}

abbrev no_file_round : Round ℕ
no_file_round = record old_round { ctime = none; file = none }

abbrev unloaded : Triggers ℕ
unloaded = record {
  table = record hot { action = action_exec; target = freed; args = freed } ∷ replicate 15 hot;
  count = 0;
  last_update = 5;
}

unload_once : unload_triggers loaded_at_5 ≡ ret unloaded
unfolding unload_triggers free_first free_trigger free
unload_once = refl

some_5 : (c : ℕ) → some 5 ≡ some c → c ≤ 5
some_5 c e = ground arith

exec_rounds-unload_triggers_example :
    exec_rounds nat_floats all_fits (old_round ∷ no_file_round ∷ []) unloaded ≡ ret ([], unloaded)
exec_rounds-unload_triggers_example =
    exec_rounds-unload_triggers nat_floats all_fits (old_round ∷ no_file_round ∷ []) loaded_at_5
      unload_once (some_5, ((λ c e. cc), tt))
