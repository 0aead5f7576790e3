-- ===== src/Data/Json.antt =====
-- src/datastructures.c: entry_to_json_value, entrylist_to_json_value, key_value_list_to_json_value
-- and append_units. A JSON object is the calls that are made on it, in order; what the JSON library
-- makes of them is a parameter where it is used.
pub mod Keys
pub mod Lookup
pub mod Results
pub mod Pairs
use rpiweatherd.Base.{
  ℕ, ℤ, pos, Bool, true, false, Option, none, some, List, [], ◌∷◌, ◌++◌, Bytes, take, codes,
  get_elem?, ◌==◌, if◌then◌else◌, str_eq, Outcome, ret, fault, null_pointer, read_overflow, ◌>>=◌,
}
use rpiweatherd.CLib.Text.{strcpy}
use rpiweatherd.CLib.Decimal.{decimal_ℤ}
use rpiweatherd.Data.Entries.{Entry, EntryList}
use rpiweatherd.Data.KeyValues.{KeyValuePair, KeyValueList}

-- A number that is an int, a number that is a float, or a string that may be NULL.
pub data Value (F : Type 0) : Type 0 where
  integer : ℤ → Value F
  float : F → Value F
  text : Option Bytes → Value F

-- json_object_set_… or json_object_dotset_… with its name and value.
pub record Call (F : Type 0) : Type 0 where
  pub dotted : Bool
  pub name : Bytes
  pub value : Value F

abbrev pub json_serializer_temp_id_buffer_size : ℕ
json_serializer_temp_id_buffer_size = 32

-- The key of a field, and its print into the buffer.
abbrev pub field_key : Bytes → ℤ → Bytes → Bytes
field_key prefix id field = prefix ++ (decimal_ℤ id ++ (b'.' ∷ field))

unfoldable pub print_key : Bytes → Outcome Bytes
unfolding strcpy
print_key key = strcpy json_serializer_temp_id_buffer_size key

module _ {F : Type 0} where
  abbrev pub set_call : Bytes → Value F → Call F
  set_call name value = record { dotted = false; name = name; value = value }

  abbrev pub dotset_call : Bytes → Value F → Call F
  dotset_call name value = record { dotted = true; name = name; value = value }

  -- The unit of the temperature as a string, which is empty for a NUL, and that of the humidity.
  unfoldable pub append_units : List ℕ → Outcome (List (Call F))
  append_units unitstr = elim (get_elem? unitstr 0) [
    | none ↦ fault read_overflow
    | some unit ↦ ret (
        dotset_call (codes "units.tempunit") (text (some (if unit == 0 then [] else unit ∷ [])))
        ∷ dotset_call (codes "units.humidunit") (text (some (b'%' ∷ [])))
        ∷ [])
  ]

  -- The length, the units, and no error.
  unfoldable pub head_calls : ℤ → List ℕ → Outcome (List (Call F))
  unfolding append_units
  head_calls size unitstr = do
    units ← append_units unitstr
    ret (
        set_call (codes "length") (integer size)
        ∷ (units
            ++ (set_call (codes "errcode") (integer (pos 0))
                ∷ set_call (codes "errmsg") (text (some []))
                ∷ [])))

  -- The fields of an entry in the order in which they are set.
  abbrev pub entry_fields : Entry F → List (Bytes × Value F)
  entry_fields e =
      (codes "id", integer e.id)
      ∷ (codes "record_date", text e.record_date)
      ∷ (codes "temperature", float e.temperature)
      ∷ (codes "humidity", float e.humidity)
      ∷ (codes "location", text e.location)
      ∷ (codes "device_name", text e.device_name)
      ∷ []

  unfoldable pub put_fields : Bytes → ℤ → List (Bytes × Value F) → Outcome (List (Call F))
  unfolding print_key
  put_fields prefix id [] = ret []
  put_fields prefix id ((field, value) ∷ fields) = do
    key ← print_key (field_key prefix id field)
    later ← put_fields prefix id fields
    ret (dotset_call key value ∷ later)

  -- An entry that may be NULL. The object is NULL then.
  unfoldable pub entry_to_json_value : Option (Entry F) → List ℕ → Outcome (Option (List (Call F)))
  entry_to_json_value none unitstr = ret none
  entry_to_json_value (some e) unitstr = do
    head ← head_calls (pos 1) unitstr
    fields ← put_fields [] e.id (entry_fields e)
    ret (some (head ++ (set_call (codes "id") (integer e.id) ∷ fields)))

  -- The loop over the entries.
  unfoldable pub put_entries : List (Entry F) → Outcome (List (Call F))
  put_entries [] = ret []
  put_entries (e ∷ es) = do
    fields ← put_fields (codes "results.") e.id (entry_fields e)
    later ← put_entries es
    ret (fields ++ later)

  unfoldable pub entrylist_to_json_value :
      Option (EntryList F) → List ℕ → Outcome (Option (List (Call F)))
  entrylist_to_json_value none unitstr = ret none
  entrylist_to_json_value (some list) unitstr = do
    head ← head_calls (pos list.size) unitstr
    results ← put_entries (take list.size list.entries)
    ret (some (head ++ results))

  -- The loop over the pairs. A key that is NULL is no string to print.
  unfoldable pub put_pairs : List KeyValuePair → Outcome (List (Call F))
  unfolding print_key
  put_pairs [] = ret []
  put_pairs (p ∷ ps) = do
    name ← elim p.key as (λ _. Outcome Bytes) [ none ↦ fault null_pointer | some name ↦ ret name ]
    key ← print_key (codes "results." ++ name)
    later ← put_pairs ps
    ret (dotset_call key (text p.value) ∷ later)

  -- A list that is NULL is read through.
  unfoldable pub key_value_list_to_json_value :
      Option KeyValueList → Outcome (Option (List (Call F)))
  key_value_list_to_json_value none = fault null_pointer
  key_value_list_to_json_value (some list) = do
    results ← put_pairs (take list.length list.pairs)
    ret (
        some (
          set_call (codes "length") (integer (pos list.length))
          ∷ set_call (codes "errcode") (integer (pos 0))
          ∷ set_call (codes "errmsg") (text (some []))
          ∷ results))

  -- What a call stores under its name. The call with a string that is NULL fails.
  unfoldable pub stored : Value F → Option (Value F)
  stored (text none) = none
  stored (text (some s)) = some (text (some s))
  stored (float x) = some (float x)
  stored (integer n) = some (integer n)

  -- The value of a name: that of the last call for it that stores one.
  unfoldable pub lookup : Bytes → List (Call F) → Option (Value F)
  unfolding str_eq stored
  lookup name [] = none
  lookup name (c ∷ cs) = elim (lookup name cs) [
    | some value ↦ some value
    | none ↦ if str_eq c.name name then stored c.value else none
  ]
