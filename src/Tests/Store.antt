-- ===== src/Tests/Store.antt =====
-- The data base, the JSON values and the statistics on concrete values.
use rpiweatherd.Base.{
  ℕ, suc, ◌+◌, ◌*◌, ◌≡◌, ◌⊎◌, refl, pos, true, false, none, some, List, [], ◌∷◌, ◌++◌, map, take,
  length, codes, ltb, leb, if◌then◌else◌, All, ret, fault, Fault, null_pointer, write_overflow,
  arith,
}
use rpiweatherd.Tests.Values.{all_fits, arrived, no_params}
use rpiweatherd.Data.Entries.{EntryList}
use rpiweatherd.Data.Json.{Call, key_value_list_to_json_value}
use rpiweatherd.Data.Json.Pairs.{FitsKey, key_value_list_to_json_value_cases}
use rpiweatherd.Data.KeyValues.{KeyValueList}
use rpiweatherd.Data.KeyValues.Bounds.{IsValid}
use rpiweatherd.Data.KeyValues.Room.{pair_of}
use rpiweatherd.Database.Sqlite.{
  Row, Sqlite, dbhandler_success, dbhandler_too_many_entries, sqlcmd_select_stats,
  stat_name_total_requests,
}
use rpiweatherd.Database.Fetch.{exec_fetch_query}
use rpiweatherd.Database.Fetch.Rows.{entry_of, exec_fetch_query-entry_of}
use rpiweatherd.Database.Thread.{increase_stat, db_thread_message}
use rpiweatherd.Listener.Codes.{success}
use rpiweatherd.Listener.Message.{Message, key_values}
use rpiweatherd.Listener.Statistics.{Host, host_pairs, statistics_command_callback}
use rpiweatherd.Listener.Statistics.Answer.{statistics_command_callback-db_thread_message}

abbrev first_row : Row ℕ
first_row = record {
  id = pos 1;
  record_date = some (codes "2017-01-01 12:00:00");
  temperature = 20;
  humidity = 55;
  location = some (codes "home");
  device_name = some (codes "dht11");
}

abbrev two_rows : List (Row ℕ)
two_rows = first_row ∷ record first_row { id = pos 2; temperature = 21 } ∷ []

-- The state of the data base is the number of its changes.
abbrev pub two_stored : Sqlite ℕ
two_stored = record {
  Db = ℕ;
  prepares = λ db query. true;
  first_int = λ db query. some (pos 2);
  rows = λ db query. two_rows;
  text_rows = λ db query.
      (some (codes "Total count of requests"), some (codes "7"))
      ∷ (some (codes "Total count of entries"), some (codes "2"))
      ∷ [];
  exec = λ db query. suc db;
  insert = λ db temperature humidity location device. some (suc db);
}

abbrev pub farenheit : ℕ → ℕ
farenheit t = t * 2 + 32

exec_fetch_query-entry_of_example :
    exec_fetch_query two_stored farenheit all_fits 0
      (some (codes "count"))
      (some (codes "select"))
      false
      (pos 0)
    ≡ (if ltb 2048 2
        then ret (none, dbhandler_too_many_entries)
        else if leb (length two_rows) 2
        then ret (
          some (record {
            size = length two_rows;
            capacity = 2;
            entries = map (entry_of two_stored farenheit all_fits 0 false) two_rows;
          }),
          dbhandler_success,
        )
        else fault write_overflow)
exec_fetch_query-entry_of_example =
    exec_fetch_query-entry_of two_stored farenheit all_fits 0 false (codes "count") (codes "select")
      (pos 0) 2 (λ n. refl) refl refl refl
      (
        record { dated = λ e. cc; located = λ e. cc; named = λ e. cc },
        (record { dated = λ e. cc; located = λ e. cc; named = λ e. cc }, tt),
      )

abbrev two_entries : EntryList ℕ
two_entries = record {
  size = 2;
  capacity = 2;
  entries = map (entry_of two_stored farenheit all_fits 0 true) two_rows;
}

abbrev two_settings : KeyValueList
two_settings = record {
  length = 2;
  capacity = 3;
  pairs =
      record { key = some (codes "comm_port"); value = some (codes "6005") }
      ∷ record { key = some (codes "a key of twenty-four letters"); value = none }
      ∷ [];
}

key_value_list_to_json_value_cases_example :
    (All FitsKey (take 2 two_settings.pairs)
      × (calls : List (Call ℕ)) × (key_value_list_to_json_value (some two_settings)
          ≡ ret (some calls)))
    ⊎ ((¬ All FitsKey (take 2 two_settings.pairs))
        × (e : Fault) × ((e ≡ null_pointer) ⊎ (e ≡ write_overflow))
        × (key_value_list_to_json_value {F = ℕ} (some two_settings) ≡ fault e))
key_value_list_to_json_value_cases_example = key_value_list_to_json_value_cases two_settings

abbrev pub raspberry : Host
raspberry = record {
  hostname = codes "pi";
  version = codes "1.1";
  uptime = 3600;
  freeram = 65536;
  f_bsize = 4096;
  f_bfree = 1000;
}

statistics_command_callback-db_thread_message_example :
    (msg' : Message ℕ) × (list : KeyValueList) × (statistics_command_callback two_stored farenheit
        all_fits 0 raspberry no_params arrived
      ≡ ret (success, msg'))
    × (db_thread_message two_stored farenheit all_fits 0 msg'
        ≡ ret (
          increase_stat two_stored farenheit all_fits 0 stat_name_total_requests,
          some (record msg' { payload = key_values list; is_completed = true }),
        ))
    × (list.pairs
        ≡ map pair_of (host_pairs raspberry)
          ++ map pair_of (two_stored.text_rows 0 sqlcmd_select_stats))
    × IsValid list
statistics_command_callback-db_thread_message_example =
    statistics_command_callback-db_thread_message two_stored farenheit all_fits (λ n. refl) 0 2
      (record {
        counts = refl;
        counted = refl;
        few = omega arith;
        selects = refl;
        enough = omega arith;
      })
      raspberry no_params arrived refl (omega arith) (omega arith)
