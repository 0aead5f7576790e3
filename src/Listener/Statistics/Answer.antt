-- ===== src/Listener/Statistics/Answer.antt =====
-- The statistics command and the thread of the data base together.
use rpiweatherd.Base.{
  ℕ, ◌+◌, ◌*◌, ◌%◌, ◌^◌, ◌≤◌, ◌<◌, ◌≡◌, refl, sym, ap, ◌∙◌, ℤ, pos, true, Option, some, List, [],
  ◌++◌, map, length, length-map, lt→ltb, le→ltb, Bytes, ret, arith,
}
use rpiweatherd.CLib.Text.{Malloc, strcpy}
use rpiweatherd.Data.KeyValues.{KeyValueList, key_value_list_alloc, emplace_all}
use rpiweatherd.Data.KeyValues.Bounds.{IsValid, emplaced}
use rpiweatherd.Database.Fetch.{exec_key_value_query}
use rpiweatherd.Database.Fetch.Rows.{exec_formatted_count_query-pos, prepare-some}
use rpiweatherd.Database.Sqlite.{
  Sqlite, sqlcmd_select_stats, sqlcmd_count_initial_stats, stat_name_total_requests,
}
use rpiweatherd.Database.Thread.{pairs_of, add_pairs, add_stats, increase_stat, db_thread_message}
use rpiweatherd.Http.Params.{HttpCmd}
use rpiweatherd.Http.Parser.Parts.{Available, strdup-some}
use rpiweatherd.Listener.Codes.{success, msgtype_stats}
use rpiweatherd.Listener.Message.{Message, key_values}
use rpiweatherd.Listener.Statistics.{Host, gethostname, host_pairs, statistics_command_callback}
use rpiweatherd.Data.KeyValues.Room.{
  pair_of, map-emplaced, map-pairs_of, length-pairs_of, emplace_all-capacity, emplace_all_room,
}

-- The answers of the data base: the count of the statistics, which is a bound on their rows, and no
-- more than a fetch takes.
pub record Counts {F : Type 0} (sql : Sqlite F) (db : sql.Db) (n : ℕ) : Type 0 where
  pub counts : sql.prepares db sqlcmd_count_initial_stats ≡ true
  pub counted : sql.first_int db sqlcmd_count_initial_stats ≡ some (pos n)
  pub few : n ≤ 2048
  pub selects : sql.prepares db sqlcmd_select_stats ≡ true
  pub enough : length (sql.text_rows db sqlcmd_select_stats) ≤ n

module _ {F : Type 0} (sql : Sqlite F) (to_farenheit : F → F) (malloc : Malloc)
    (m : Available malloc) (db : sql.Db) (n : ℕ) (c : Counts sql db n) where
  abbrev stored : List (Option Bytes × Option Bytes)
  stored = sql.text_rows db sqlcmd_select_stats

  empty_of :
      (size : ℕ)
      → key_value_list_alloc malloc size ≡ some (record { length = 0; capacity = size; pairs = [] })
  unfolding key_value_list_alloc
  empty_of size = rw (m 12, m (8 * size)) refl

  -- What the query for the statistics gives.
  exec_key_value_query-stored :
      (errcode : ℤ)
      → (list : KeyValueList) × (exec_key_value_query sql to_farenheit malloc db
            (some sqlcmd_count_initial_stats)
            (some sqlcmd_select_stats)
            errcode
          ≡ (some list, errcode))
        × (list.pairs ≡ map (emplaced malloc) stored)
  unfolding exec_key_value_query
  exec_key_value_query-stored errcode =
      let count =
        exec_formatted_count_query-pos sql to_farenheit malloc db true sqlcmd_count_initial_stats n
          c.counts c.counted in
      let empty : KeyValueList = record { length = 0; capacity = n; pairs = [] } in
      let (pairs, _) =
        emplace_all_room malloc stored empty (record { counted = refl; fits = omega arith })
          (omega (arith, c.enough)) in
      (
        emplace_all malloc stored empty,
        rw
            (
              exec_key_value_query,
              count,
              empty_of n,
              count,
              le→ltb 2048 n c.few,
              prepare-some sql to_farenheit malloc db true sqlcmd_select_stats c.selects,
            )
            refl,
        pairs,
      )

  -- What the callback makes of a message.
  abbrev asked : Message F → KeyValueList → Message F
  asked msg list = record msg {
    payload = key_values list;
    mtype = msgtype_stats;
    fselectq = some sqlcmd_select_stats;
    fcountq = some sqlcmd_count_initial_stats;
  }

  statistics_command_callback-asked :
      (host : Host) (cmd : HttpCmd) (msg : Message F)
      → cmd.length ≡ 0
      → length host.hostname < 64
      → length host.version < 64
      → (list : KeyValueList) × (statistics_command_callback sql to_farenheit malloc db host cmd msg
          ≡ ret (success, asked msg list))
        × IsValid list
        × (list.pairs ≡ map pair_of (host_pairs host))
        × (list.length ≡ 5)
        × (list.capacity ≡ n + 5)
  unfolding statistics_command_callback gethostname strcpy host_pairs
  statistics_command_callback-asked host cmd msg plain name version =
      let count =
        exec_formatted_count_query-pos sql to_farenheit malloc db true sqlcmd_count_initial_stats n
          c.counts c.counted in
      let wide : (n + 5) % 2 ^ 32 ≡ n + 5 = omega (arith, c.few) in
      let empty : KeyValueList = record { length = 0; capacity = n + 5; pairs = [] } in
      let (pairs, valid) =
        emplace_all_room malloc (host_pairs host) empty
          (record { counted = refl; fits = omega arith }) (omega arith) in
      let same = pairs ∙ map-emplaced malloc m (host_pairs host) in
      (
        emplace_all malloc (host_pairs host) empty,
        rw
            (
              statistics_command_callback,
              plain,
              lt→ltb (length host.hostname) 64 name,
              lt→ltb (length host.version) 64 version,
              count,
              wide,
              empty_of (n + 5),
              strdup-some malloc sqlcmd_select_stats m,
              strdup-some malloc sqlcmd_count_initial_stats m,
            )
            refl,
        valid,
        same,
        sym valid.counted ∙ ap length same,
        emplace_all-capacity malloc (host_pairs host) empty,
      )

  -- The statistics command and the thread of the data base together answer a client. Memory is
  -- available, the command has no parameters, the texts of the system fit, and the data base counts
  -- its statistics, at most 2048 of them, and gives no more rows than that. Then the callback
  -- succeeds, and from its message the thread makes a completed one, with the five pairs of the
  -- system followed by all the rows, in order, in a valid list.
  pub statistics_command_callback-db_thread_message :
      (host : Host) (cmd : HttpCmd) (msg : Message F)
      → cmd.length ≡ 0
      → length host.hostname < 64
      → length host.version < 64
      → (msg' : Message F) × (list : KeyValueList) × (statistics_command_callback sql to_farenheit
            malloc db host cmd msg
          ≡ ret (success, msg'))
        × (db_thread_message sql to_farenheit malloc db msg'
            ≡ ret (
              increase_stat sql to_farenheit malloc db stat_name_total_requests,
              some (record msg' { payload = key_values list; is_completed = true }),
            ))
        × (list.pairs ≡ map pair_of (host_pairs host) ++ map pair_of stored)
        × IsValid list
  unfolding db_thread_message add_stats add_pairs
  statistics_command_callback-db_thread_message host cmd msg plain name version =
      let (list, called, valid, pairs, size, capacity) =
        statistics_command_callback-asked host cmd msg plain name version in
      let (kvlist, queried, rows) = exec_key_value_query-stored msg.retcode in
      let count = ap length rows ∙ length-map (emplaced malloc) stored in
      let (all, valid') =
        emplace_all_room malloc (pairs_of kvlist.pairs) list valid
          (omega (arith, size, capacity, count, length-pairs_of kvlist.pairs, c.enough)) in
      (
        asked msg list,
        emplace_all malloc (pairs_of kvlist.pairs) list,
        called,
        rw (queried) refl,
        all
            ∙ ap (◌++◌ list.pairs)
                (map-pairs_of malloc m kvlist.pairs ∙ rows ∙ map-emplaced malloc m stored)
            ∙ ap (λ ps. ps ++ map pair_of stored) pairs,
        valid',
      )
