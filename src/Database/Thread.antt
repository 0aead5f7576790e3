-- ===== src/Database/Thread.antt =====
-- src/dbhandler.c: one message of db_thread_event_loop, and request_write_entry.
pub mod Completes
use rpiweatherd.Base.{
  ℕ, ℤ, neg, Bool, true, Option, none, some, List, [], ◌∷◌, ◌==◌, if◌then◌else◌, Bytes, get_elem?,
  Outcome, ret, fault, null_pointer, read_overflow, uninitialised, ◌>>=◌,
}
use rpiweatherd.CLib.Text.{Malloc, strdup_set}
use rpiweatherd.Data.Entries.{Entry, EntryList, sizeof_entry}
use rpiweatherd.Data.KeyValues.{KeyValuePair, KeyValueList, emplace_all}
use rpiweatherd.Database.Sqlite.{
  Sqlite, stat_name_total_requests, stat_name_total_entries, sqlcmd_increase_stat,
}
use rpiweatherd.Database.Fetch.{exec_fetch_query, exec_key_value_query}
use rpiweatherd.Listener.Codes.{msgtype_writeentry, msgtype_fetch, msgtype_stats}
use rpiweatherd.Listener.Message.{Message, Payload, nothing, one_entry, entry_list, key_values}
use rpiweatherd.Listener.Queries.{sql_command_buffer_size, format_query}

abbrev pub db_msg_no_sockfd : ℤ
db_msg_no_sockfd = neg 100

-- The pairs of a list as they are emplaced into another.
abbrev pub pairs_of : List KeyValuePair → List (Option Bytes × Option Bytes)
pairs_of [] = []
pairs_of (p ∷ ps) = (p.key, p.value) ∷ pairs_of ps

module _ {F : Type 0} where
  abbrev pub fetched : Option (EntryList F) → Payload F
  fetched none = nothing
  fetched (some list) = entry_list list

  -- The list of a message, with pairs added. There is none where `data` is NULL, and what is not a
  -- list is not read as one.
  unfoldable pub add_pairs :
      Malloc → List (Option Bytes × Option Bytes) → Payload F → Outcome (Payload F)
  add_pairs malloc pairs (key_values list) = ret (key_values (emplace_all malloc pairs list))
  add_pairs malloc [] payload = ret payload
  add_pairs malloc (p ∷ pairs) nothing = fault null_pointer
  add_pairs malloc (p ∷ pairs) _ = fault uninitialised

  -- `stale` and `stale_id` are what the message and the entry hold where they are not written to.
  unfoldable pub request_write_entry :
      Malloc → Message F → ℤ → F → F → Option Bytes → Option Bytes → Outcome (Message F)
  unfolding strdup_set
  request_write_entry malloc stale stale_id temp humid location device =
      if malloc sizeof_entry
      then (do
        location' ← strdup_set malloc location
        device' ← strdup_set malloc device
        ret (record stale {
          mtype = msgtype_writeentry;
          sockfd = db_msg_no_sockfd;
          payload = one_entry (record {
            id = stale_id;
            record_date = none;
            temperature = temp;
            humidity = humid;
            location = location';
            device_name = device';
          });
        }))
      else fault null_pointer

module _ {F : Type 0} (sql : Sqlite F) (to_farenheit : F → F) (malloc : Malloc) where
  -- A query that cannot be allocated is NULL, and does nothing.
  unfoldable pub increase_stat : sql.Db → Bytes → sql.Db
  increase_stat db stat_name =
      if malloc sql_command_buffer_size
      then sql.exec db (format_query (sqlcmd_increase_stat stat_name))
      else db

  -- The data base behind an entry that is written, which stays as it was if the statement fails.
  unfoldable pub write_raw_entry : sql.Db → Entry F → sql.Db
  write_raw_entry db e = elim (sql.insert db e.temperature e.humidity e.location e.device_name) [
    | none ↦ db
    | some db' ↦ db'
  ]

  abbrev pub is_celsius : Message F → Outcome Bool
  is_celsius msg = elim (get_elem? msg.unitstr 0) [
    | none ↦ fault read_overflow
    | some unit ↦ ret (unit == b'c')
  ]

  unfoldable pub write_entry : sql.Db → Payload F → Outcome (sql.Db × Option (Message F))
  unfolding write_raw_entry
  write_entry db (one_entry e) =
      ret (increase_stat (write_raw_entry db e) stat_name_total_entries, none)
  write_entry db nothing = fault null_pointer
  write_entry db _ = fault uninitialised

  unfoldable pub fetch_entries : sql.Db → Message F → Outcome (sql.Db × Option (Message F))
  unfolding exec_fetch_query
  fetch_entries db msg = do
    keep_native_unit ← is_celsius msg
    (list, retcode) ←
        exec_fetch_query sql to_farenheit malloc db msg.fcountq msg.fselectq keep_native_unit
          msg.retcode
    ret (
      increase_stat db stat_name_total_requests,
      some (record msg { payload = fetched list; retcode = retcode; is_completed = true }),
    )

  -- A list that is NULL is read through.
  unfoldable pub add_stats :
      sql.Db → Message F → Option KeyValueList × ℤ → Outcome (sql.Db × Option (Message F))
  unfolding add_pairs
  add_stats db msg (none, retcode) = fault null_pointer
  add_stats db msg (some list, retcode) = do
    payload ← add_pairs malloc (pairs_of list.pairs) msg.payload
    ret (
      increase_stat db stat_name_total_requests,
      some (record msg { payload = payload; retcode = retcode; is_completed = true }),
    )

  -- The data base, and the message that is sent back, if any.
  unfoldable pub db_thread_message : sql.Db → Message F → Outcome (sql.Db × Option (Message F))
  unfolding exec_key_value_query
  db_thread_message db msg =
      if msg.mtype == msgtype_writeentry
      then write_entry db msg.payload
      else if msg.mtype == msgtype_fetch
      then fetch_entries db msg
      else if msg.mtype == msgtype_stats
      then add_stats db msg
          (exec_key_value_query sql to_farenheit malloc db msg.fcountq msg.fselectq msg.retcode)
      else ret (db, some (record msg { is_completed = true }))
