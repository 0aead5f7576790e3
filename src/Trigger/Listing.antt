-- ===== src/Trigger/Listing.antt =====
-- src/trigger.c: list_triggers, the option that prints the triggers of the file.
use rpiweatherd.Base.{
  ℕ, ◌-◌, Bool, Option, List, [], ◌∷◌, ◌++◌, ◌==◌, if◌then◌else◌, Bytes, codes, length, take,
  replicate, Outcome, ret, ◌>>=◌,
}
use rpiweatherd.CLib.Text.{Malloc}
use rpiweatherd.Trigger.Floats.{Floats}
use rpiweatherd.Trigger.Codes.{parse_ok, cond_type_to_str, cond_op_to_str, cond_action_to_str}
use rpiweatherd.Trigger.Parse.{Pointer, null, live, freed, Trigger}
use rpiweatherd.Trigger.Load.{Triggers, load_triggers}
use rpiweatherd.Trigger.Exec.{deref}

-- `%-ns`: the text, with blanks behind it up to a width of `n`.
abbrev pub pad : ℕ → Bytes → Bytes
pad n text = text ++ replicate (n - length text) b' '

-- `trig->args ? trig->args : ""`.
unfoldable pub shown_args : Pointer → Outcome Bytes
unfolding deref
shown_args null = ret []
shown_args (live s) = deref (live s)
shown_args freed = deref freed

-- The titles of the columns.
abbrev pub header : Bytes
header =
    pad 20 (codes "CONDITION")
    ++ pad 10 (codes "ACTION")
    ++ pad 30 (codes "TARGET")
    ++ pad 20 (codes "ARGS")
    ++ (b'\n' ∷ [])

-- `print2` is "%.2f". A target that is null is undefined for `%s`.
module _ {F : Type 0} (fl : Floats F) (malloc : Malloc) (print2 : F → Bytes) where
  unfoldable pub list_row : Trigger F → Outcome Bytes
  unfolding deref shown_args
  list_row trig = do
    target ← deref trig.target
    args ← shown_args trig.args
    ret (
        cond_type_to_str trig.val_type
        ++ (b' ' ∷ cond_op_to_str trig.op)
        ++ (b' ' ∷ pad 10 (print2 trig.cond_value))
        ++ pad 10 (cond_action_to_str trig.action)
        ++ pad 30 target
        ++ pad 20 args
        ++ (b'\n' ∷ []))

  unfoldable pub list_rows : List (Trigger F) → Outcome Bytes
  list_rows [] = ret []
  list_rows (trig ∷ trigs) = do row ← list_row trig; rows ← list_rows trigs; ret (row ++ rows)

  -- What is printed, and the table that is left.
  unfoldable pub list_triggers :
      Option (List Bytes) → Bool → Triggers F → Outcome (Bytes × Triggers F)
  unfolding load_triggers
  list_triggers file erange st = do
    (flag, st') ← load_triggers fl malloc file erange st
    if flag == parse_ok
        then (do
          rows ← list_rows (take st'.count st'.table)
          ret (header ++ rows ++ (b'\n' ∷ []), st'))
        else ret (codes "Some triggers failed parsing!", st')
