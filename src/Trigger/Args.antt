-- ===== src/Trigger/Args.antt =====
-- src/trigger.c: post_process_args, which puts measurements into an argument string.
pub mod Puts
pub mod Placeholders
use rpiweatherd.Base.{
  ℕ, zero, suc, ◌+◌, ◌-◌, ◌%◌, ◌^◌, not, Option, none, some, List, [], ◌∷◌, ◌++◌, ◌==◌, ltb, leb,
  if◌then◌else◌, Bytes, length, take, drop, codes, Outcome, ret, fault, null_pointer,
  write_overflow, read_overflow, uninitialised, dangling, ◌>>=◌,
}
use rpiweatherd.CLib.Text.{find, has_char}
use rpiweatherd.Trigger.Floats.{Floats}
use rpiweatherd.Trigger.Parse.{Pointer, null, live, freed}
use rpiweatherd.Trigger.Eval.{measurement, measure_temperature, measure_humidity}

abbrev pub trigger_arg_string_max_length : ℕ
trigger_arg_string_max_length = 2049

-- VALUE_TYPE_MAPPING without its closing row.
abbrev pub value_type_mapping : List (Bytes × ℕ)
value_type_mapping =
    (codes "%temp%", measure_temperature) ∷ (codes "%humid%", measure_humidity) ∷ []

unfoldable pub sum_lengths : List (Bytes × ℕ) → ℕ
sum_lengths [] = 0
sum_lengths ((part, _) ∷ rows) = length part + sum_lengths rows

unfoldable pub max_allowed_argstring_length : ℕ
unfolding sum_lengths
max_allowed_argstring_length = trigger_arg_string_max_length - sum_lengths value_type_mapping - 1

-- A difference of pointers as `size_t`, of 32 bits.
abbrev pub size_diff : ℕ → ℕ → ℕ
size_diff a b = (a + 2 ^ 32 - b) % 2 ^ 32

-- The buffer's text if a string was written to it, the count of appended bytes, and the offset of
-- `begin` in the argument string.
pub record ArgState : Type 0 where
  pub buffer : Option Bytes
  pub appended : ℕ
  pub begin : ℕ

-- `strncpy(buffer, begin, n)` on the string at hand; it fills up with NULs to `n` bytes.
unfoldable pub copy_before : Bytes → ℕ → ArgState → Outcome ArgState
copy_before arg_string copy_len st =
    if copy_len == 0
    then ret st
    else if ltb trigger_arg_string_max_length copy_len
    then fault write_overflow
    else ret (record st {
      buffer = some (take copy_len (drop st.begin arg_string));
      appended = st.appended + copy_len;
    })

-- The text of the buffer in front of an offset. Behind the end of its text nothing is known.
unfoldable pub buffer_before : Option Bytes → ℕ → Outcome Bytes
buffer_before none i = if i == 0 then ret [] else fault uninitialised
buffer_before (some text) i = if leb i (length text) then ret (take i text) else fault uninitialised

-- Text written with its NUL at an offset of the buffer.
unfoldable pub write_at : Option Bytes → ℕ → Bytes → Outcome Bytes
unfolding buffer_before
write_at buffer i text = do
  before ← buffer_before buffer i
  if ltb (i + length text) trigger_arg_string_max_length
      then ret (before ++ text)
      else fault write_overflow

module _ {F : Type 0} (fl : Floats F) (ms : List F) where
  -- `*measurements[value]`: the pointer is indexed before it is followed, so that only the first
  -- measurement is within what the pointer points to.
  unfoldable pub placeholder_value : ℕ → Outcome F
  unfolding measurement
  placeholder_value zero = measurement ms 0
  placeholder_value (suc i) = fault read_overflow

  -- One row of the mapping, at the offset where its placeholder was found.
  unfoldable pub put_placeholder : Bytes → Bytes → ℕ → Option ℕ → ArgState → Outcome ArgState
  unfolding copy_before write_at placeholder_value
  put_placeholder arg_string part value none st = ret st
  put_placeholder arg_string part value (some offset) st = do
    let copy_len = size_diff st.begin offset
    st' ← copy_before arg_string copy_len st
    x ← placeholder_value value
    text ← write_at st'.buffer st'.appended (fl.print4 x)
    ret (record {
      buffer = some text;
      appended = st'.appended + length (fl.print4 x);
      begin = (st.begin + copy_len + length part) % 2 ^ 32;
    })

  unfoldable pub put_placeholders : Bytes → List (Bytes × ℕ) → ArgState → Outcome ArgState
  unfolding find put_placeholder
  put_placeholders arg_string [] st = ret st
  put_placeholders arg_string ((part, value) ∷ rows) st = do
    st' ← put_placeholder arg_string part value (find part arg_string) st
    put_placeholders arg_string rows st'

  -- `buffer[strlen(buffer) + 1] = '\0'`, or a NUL over the NUL at the end. The buffer's text stays.
  unfoldable pub terminate : Bytes → Outcome Bytes
  terminate text =
      if ltb (length text) trigger_arg_string_max_length
      then (if ltb (length text + 1) trigger_arg_string_max_length
          then ret text
          else fault write_overflow)
      else ret text

  -- The copy of the rest, behind the last placeholder, and the NUL behind it.
  unfoldable pub copy_rest : Bytes → ArgState → Outcome Bytes
  unfolding write_at terminate
  copy_rest arg_string st = elim st.buffer [
    | none ↦ fault uninitialised
    | some text ↦ (do
      whole ←
          (if not (length text + 1 == st.appended)
            then write_at (some text) st.appended (drop st.begin arg_string)
            else ret text)
      terminate whole)
  ]

  -- 0 with no text, or 1 with what the buffer holds.
  unfoldable pub post_process_args : Pointer → Outcome (Option Bytes)
  unfolding has_char put_placeholders copy_rest max_allowed_argstring_length
  post_process_args null = fault null_pointer
  post_process_args freed = fault dangling
  post_process_args (live arg_string) =
      if not (has_char b'%' arg_string)
      then ret none
      else if leb max_allowed_argstring_length (length arg_string)
      then ret none
      else (do
        st ←
            put_placeholders arg_string value_type_mapping
              (record { buffer = none; appended = 0; begin = 0 })
        text ← copy_rest arg_string st
        ret (some text))
