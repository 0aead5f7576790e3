-- ===== src/Trigger/Load.antt =====
-- src/trigger.c: the static table of triggers, load_triggers and unload_triggers.
pub mod Flags
pub mod Bounds
pub mod Stale
use rpiweatherd.Base.{
  ℕ, zero, suc, ◌+◌, Bool, ◌||◌, Option, none, some, List, [], ◌∷◌, ◌==◌, ltb, if◌then◌else◌, Bytes,
  get_elem?, set, Outcome, ret, fault, null_pointer, write_overflow, read_overflow, dangling, ◌>>=◌,
  ◌>>◌,
}
use rpiweatherd.CLib.Text.{Malloc}
use rpiweatherd.CLib.Token.{strtok}
use rpiweatherd.Trigger.Floats.{Floats}
use rpiweatherd.Trigger.Codes.{parse_ok, parse_comment_line, error_file_not_found}
use rpiweatherd.Trigger.Parse.{
  Pointer, null, live, freed, Trigger, is_blank, byte_at, parse_trigger,
}

-- CONFIG_MAX_TRIGGERS, and the number of rows of TRIGGER_PARSE_ERROR_STR.
abbrev pub config_max_triggers : ℕ
config_max_triggers = 16

abbrev pub trigger_parse_error_rows : ℕ
trigger_parse_error_rows = 21

-- The static variables: the table, the number of triggers in use, the time of the last load.
pub record Triggers (F : Type 0) : Type 0 where
  pub table : List (Trigger F)
  pub count : ℕ
  pub last_update : ℕ

-- `free`, which is undefined on a pointer that was freed.
unfoldable pub free : Pointer → Outcome Pointer
free null = ret null
free (live s) = ret freed
free freed = fault dangling

module _ {F : Type 0} where
  unfoldable pub free_trigger : Trigger F → Outcome (Trigger F)
  unfolding free
  free_trigger trig = do
    args ← free trig.args
    target ← free trig.target
    ret (record trig { args = args; target = target })

  -- The loop over the first `n` entries.
  unfoldable pub free_first : ℕ → List (Trigger F) → Outcome (List (Trigger F))
  free_first zero table = ret table
  free_first (suc n) [] = fault read_overflow
  free_first (suc n) (trig ∷ table) = do
    trig' ← free_trigger trig
    table' ← free_first n table
    ret (trig' ∷ table')

  unfoldable pub unload_triggers : Triggers F → Outcome (Triggers F)
  unload_triggers st = do
    table ← free_first st.count st.table
    ret (record st { table = table; count = 0 })

-- The message of a parse error is looked up by its code.
unfoldable pub log_parse_error : ℕ → Outcome (Unit {0})
log_parse_error flag = if ltb flag trigger_parse_error_rows then ret tt else fault read_overflow

-- One line: its flag, the table with the entry that it was read into, and errno.
pub record LineResult (F : Type 0) : Type 0 where
  pub flag : ℕ
  pub state : Triggers F
  pub erange : Bool

module _ {F : Type 0} (fl : Floats F) (malloc : Malloc) where
  -- A line that is read behind the end of the table. Only a comment writes nothing.
  unfoldable pub read_past_table : Bool → Triggers F → Option Bytes → Outcome (LineResult F)
  read_past_table erange st none = fault null_pointer
  read_past_table erange st (some part) =
      if byte_at part 0 == b'#'
      then ret (record { flag = parse_comment_line; state = st; erange = erange })
      else fault write_overflow

  unfoldable pub load_entry :
      Bool → Triggers F → Bytes → Option (Trigger F) → Outcome (LineResult F)
  load_entry erange st line none = read_past_table erange st (strtok is_blank line).0
  load_entry erange st line (some trig) = do
    a ← parse_trigger fl malloc erange trig (some line)
    let table = set st.table st.count a.trig
    let count = if a.flag == parse_ok then st.count + 1 else st.count
    ret (record {
      flag = a.flag;
      state = record st { table = table; count = count };
      erange = a.erange;
    })

  -- Whether the loop goes on behind a line.
  unfoldable pub after_line :
      (Bool → Triggers F → Outcome (ℕ × Triggers F)) → LineResult F → Outcome (ℕ × Triggers F)
  unfolding log_parse_error
  after_line read_on r =
      if r.flag == parse_ok || r.flag == parse_comment_line
      then read_on r.erange r.state
      else (do log_parse_error r.flag; ret (r.flag, r.state))

  -- The loop over the lines. The end of the file is reported as TRIGGER_PARSE_OK.
  unfoldable pub load_lines : List Bytes → Bool → Triggers F → Outcome (ℕ × Triggers F)
  load_lines [] erange st = ret (parse_ok, st)
  load_lines (line ∷ lines) erange st = do
    r ← load_entry erange st line (get_elem? st.table st.count)
    after_line (load_lines lines) r

  -- `file` holds the lines of the trigger file, none if it cannot be opened.
  unfoldable pub load_triggers : Option (List Bytes) → Bool → Triggers F → Outcome (ℕ × Triggers F)
  load_triggers file erange st = do
    st' ← (if ltb 0 st.count then unload_triggers st else ret st)
    elim file [ none ↦ ret (error_file_not_found, st') | some lines ↦ load_lines lines erange st' ]
