-- ===== src/Database/Fetch.antt =====
-- src/dbhandler.c: exec_formatted_count_query, exec_fetch_query and exec_key_value_query.
pub mod Rows
use rpiweatherd.Base.{
  ℕ, suc, ℤ, Bool, Option, none, some, List, [], ◌∷◌, ltb, if◌then◌else◌, Bytes, length, Outcome,
  ret, fault, write_overflow, ◌>>=◌,
}
use rpiweatherd.CLib.Text.{Malloc, strdup_set}
use rpiweatherd.Data.Entries.{Entry, EntryList, entrylist_alloc}
use rpiweatherd.Data.KeyValues.{KeyValueList, key_value_list_alloc, emplace_all}
use rpiweatherd.Database.Sqlite.{
  Row, Sqlite, dbhandler_max_fetched_entries, dbhandler_success, dbhandler_too_many_entries,
  dbhandler_sql_error, to_size,
}

module _ {F : Type 0} (sql : Sqlite F) (to_farenheit : F → F) (malloc : Malloc) (db : sql.Db) where
  -- The text of a statement that can be prepared. A text that is NULL cannot.
  unfoldable pub prepare : Option Bytes → Option Bytes
  prepare none = none
  prepare (some query) = if sql.prepares db query then some query else none

  unfoldable pub exec_formatted_count_query : Option Bytes → ℕ
  unfolding prepare
  exec_formatted_count_query count_query = elim (prepare count_query) [
    | none ↦ 0
    | some query ↦ elim (sql.first_int db query) [ none ↦ 0 | some count ↦ to_size count ]
  ]

  -- An entry made of a row, with the temperature converted if it is not kept.
  unfoldable pub fetch_row : Bool → Row F → Outcome (Entry F)
  unfolding strdup_set
  fetch_row keep_native_unit row = do
    record_date ← strdup_set malloc row.record_date
    location ← strdup_set malloc row.location
    device_name ← strdup_set malloc row.device_name
    ret (record {
      id = row.id;
      record_date = record_date;
      temperature = if keep_native_unit then row.temperature else to_farenheit row.temperature;
      humidity = row.humidity;
      location = location;
      device_name = device_name;
    })

  -- The loop over the rows, from entry `i` on. The array has `capacity` entries, which is not
  -- checked.
  unfoldable pub fetch_rows : Bool → ℕ → ℕ → List (Row F) → Outcome (List (Entry F))
  fetch_rows keep_native_unit capacity i [] = ret []
  fetch_rows keep_native_unit capacity i (row ∷ rows) = do
    e ← (if ltb i capacity then fetch_row keep_native_unit row else fault write_overflow)
    es ← fetch_rows keep_native_unit capacity (suc i) rows
    ret (e ∷ es)

  -- The list, or NULL, and `*errcode`, which a list that cannot be allocated leaves as it was.
  unfoldable pub exec_fetch_query :
      Option Bytes → Option Bytes → Bool → ℤ → Outcome (Option (EntryList F) × ℤ)
  unfolding exec_formatted_count_query entrylist_alloc
  exec_fetch_query fcountq fselectq keep_native_unit errcode =
      let count = exec_formatted_count_query fcountq in
      if ltb dbhandler_max_fetched_entries count
      then ret (none, dbhandler_too_many_entries)
      else elim (entrylist_alloc malloc count) [
        | none ↦ ret (none, errcode)
        | some list ↦ elim (prepare fselectq) [
          | none ↦ ret (none, dbhandler_sql_error)
          | some query ↦ do
            entries ← fetch_rows keep_native_unit count 0 (sql.rows db query)
            ret (some (record list { size = length entries; entries = entries }), dbhandler_success)
        ]
      ]

  -- The list, or NULL, and `*errcode`. The codes of the emplacements are never 0, and `errcode` is
  -- a pointer, which is not negative.
  unfoldable pub exec_key_value_query : Option Bytes → Option Bytes → ℤ → Option KeyValueList × ℤ
  unfolding exec_formatted_count_query key_value_list_alloc
  exec_key_value_query fcountq fselectq errcode =
      let count = exec_formatted_count_query fcountq in
      elim (key_value_list_alloc malloc count) [
        | none ↦ (none, errcode)
        | some kvlist ↦
            if ltb dbhandler_max_fetched_entries count
            then (none, dbhandler_too_many_entries)
            else elim (prepare fselectq) [
              | none ↦ (some kvlist, errcode)
              | some query ↦ (some (emplace_all malloc (sql.text_rows db query) kvlist), errcode)
            ]
      ]
