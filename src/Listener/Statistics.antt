-- ===== src/Listener/Statistics.antt =====
-- src/listener.c: statistics_command_callback. What the system says of itself is a parameter.
pub mod Answer
use rpiweatherd.Base.{
  ℕ, ◌+◌, ◌*◌, ◌%◌, ◌^◌, ℤ, Option, none, some, List, [], ◌∷◌, Bytes, codes, ltb, length,
  if◌then◌else◌, Outcome, ret, fault, null_pointer, read_overflow, ◌>>=◌,
}
use rpiweatherd.CLib.Text.{Malloc, strcpy, strdup}
use rpiweatherd.CLib.Decimal.{decimal}
use rpiweatherd.Data.KeyValues.{key_value_list_alloc, emplace_all}
use rpiweatherd.Database.Sqlite.{Sqlite, sqlcmd_select_stats, sqlcmd_count_initial_stats}
use rpiweatherd.Database.Fetch.{exec_formatted_count_query}
use rpiweatherd.Http.Params.{HttpCmd}
use rpiweatherd.Listener.Codes.{success, no_params_needed, msgtype_stats}
use rpiweatherd.Listener.Message.{Message, key_values}

abbrev pub stats_command_buffer_length : ℕ
stats_command_buffer_length = 64

abbrev pub stats_extra_stats_count : ℕ
stats_extra_stats_count = 5

-- gethostname, RPIWEATHERD_VERSION, sysinfo and statvfs.
pub record Host : Type 0 where
  pub hostname : Bytes
  pub version : Bytes
  pub uptime : ℕ
  pub freeram : ℕ
  pub f_bsize : ℕ
  pub f_bfree : ℕ

-- A name that fills the buffer is not ended by a NUL.
unfoldable pub gethostname : Host → Outcome Bytes
gethostname host =
    if ltb (length host.hostname) stats_command_buffer_length
    then ret host.hostname
    else fault read_overflow

-- The pairs that are put into the list. The free space is a product of two `unsigned long` of 32
-- bits.
unfoldable pub host_pairs : Host → List (Option Bytes × Option Bytes)
host_pairs host =
    (some (codes "hostname"), some host.hostname)
    ∷ (some (codes "version"), some host.version)
    ∷ (some (codes "uptime"), some (decimal host.uptime))
    ∷ (some (codes "freeram"), some (decimal host.freeram))
    ∷ (some (codes "freedisk"), some (decimal (host.f_bsize * host.f_bfree % 2 ^ 32)))
    ∷ []

module _ {F : Type 0} (sql : Sqlite F) (to_farenheit : F → F) (malloc : Malloc) (db : sql.Db)
    (host : Host) where
  -- A list that is NULL is written through.
  unfoldable pub statistics_command_callback : HttpCmd → Message F → Outcome (ℤ × Message F)
  unfolding strcpy strdup gethostname host_pairs exec_formatted_count_query
  statistics_command_callback cmd msg =
      let stats_count =
        exec_formatted_count_query sql to_farenheit malloc db (some sqlcmd_count_initial_stats) in
      if ltb 0 cmd.length then ret (no_params_needed, msg) else (do
        hostname ← gethostname host
        version ← strcpy stats_command_buffer_length host.version
        elim (key_value_list_alloc malloc ((stats_count + stats_extra_stats_count) % 2 ^ 32)) [
          | none ↦ fault null_pointer
          | some list ↦ ret (
            success,
            record msg {
              payload = key_values (emplace_all malloc (host_pairs host) list);
              mtype = msgtype_stats;
              fselectq = strdup malloc sqlcmd_select_stats;
              fcountq = strdup malloc sqlcmd_count_initial_stats;
            },
          )
        ])
