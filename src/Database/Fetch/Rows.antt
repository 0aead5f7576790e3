-- ===== src/Database/Fetch/Rows.antt =====
-- What a fetch makes of the rows.
use rpiweatherd.Base.{
  length-map, ℕ, suc, ◌+◌, ◌*◌, ◌≤◌, ◌≡◌, ◌≢◌, refl, ℤ, pos, Bool, true, Option, none, some, List,
  [], ◌∷◌, map, ltb, leb, if◌then◌else◌, Bytes, length, All, ret, fault, write_overflow, arith,
  Bool-cases, inl, inr,
}
use rpiweatherd.CLib.Text.{Malloc, strdup_set}
use rpiweatherd.Http.Parser.Parts.{Available, strdup-some}
use rpiweatherd.Data.Entries.{Entry, entrylist_alloc, sizeof_entry, sizeof_entrylist}
use rpiweatherd.Database.Sqlite.{Row, Sqlite, dbhandler_success, dbhandler_too_many_entries}
use rpiweatherd.Database.Fetch.{
  prepare, exec_formatted_count_query, fetch_row, fetch_rows, exec_fetch_query,
}

-- The texts of a row are not NULL.
pub record IsComplete {F : Type 0} (row : Row F) : Type 0 where
  pub dated : row.record_date ≢ none
  pub located : row.location ≢ none
  pub named : row.device_name ≢ none

strdup_set-some :
    (malloc : Malloc) (o : Option Bytes) → Available malloc → o ≢ none → strdup_set malloc o ≡ ret o
unfolding strdup_set
strdup_set-some malloc none m h = absurd (h refl)
strdup_set-some malloc (some s) m h = rw (strdup-some malloc s m) refl

module _ {F : Type 0} (sql : Sqlite F) (to_farenheit : F → F) (malloc : Malloc) (db : sql.Db)
    (keep : Bool) where
  -- The entry of a row: its values, the temperature in Farenheit unless it is kept.
  abbrev pub entry_of : Row F → Entry F
  entry_of row = record {
    id = row.id;
    record_date = row.record_date;
    temperature = if keep then row.temperature else to_farenheit row.temperature;
    humidity = row.humidity;
    location = row.location;
    device_name = row.device_name;
  }

  fetch_row-entry_of :
      (row : Row F)
      → Available malloc
      → IsComplete row
      → fetch_row sql to_farenheit malloc db keep row ≡ ret (entry_of row)
  unfolding fetch_row
  fetch_row-entry_of row m c =
      rw
        (
          strdup_set-some malloc row.record_date m c.dated,
          strdup_set-some malloc row.location m c.located,
          strdup_set-some malloc row.device_name m c.named,
        )
        refl

  fetch_rows-entry_of :
      (capacity i : ℕ) (rows : List (Row F))
      → Available malloc
      → All IsComplete rows
      → i ≤ capacity
      → fetch_rows sql to_farenheit malloc db keep capacity i rows
        ≡ (if leb (i + length rows) capacity then ret (map entry_of rows) else fault write_overflow)
  unfolding fetch_rows
  fetch_rows-entry_of capacity i [] m c h = ground arith
  fetch_rows-entry_of capacity i (row ∷ rows) m c h = elim (Bool-cases (ltb i capacity)) [
    | inl room ↦
        rw
          (
            room,
            fetch_row-entry_of row m c.0,
            fetch_rows-entry_of capacity (suc i) rows m c.1 (ground arith),
          )
          (ground arith)
    | inr full ↦ rw full (ground arith)
  ]

  pub prepare-some :
      (query : Bytes)
      → sql.prepares db query ≡ true
      → prepare sql to_farenheit malloc db (some query) ≡ some query
  unfolding prepare
  prepare-some query p = rw p refl

  pub exec_formatted_count_query-pos :
      (query : Bytes) (n : ℕ)
      → sql.prepares db query ≡ true
      → sql.first_int db query ≡ some (pos n)
      → exec_formatted_count_query sql to_farenheit malloc db (some query) ≡ n
  unfolding exec_formatted_count_query
  exec_formatted_count_query-pos query n p first =
      rw (exec_formatted_count_query, prepare-some query p, first) refl

  allocated :
      (n : ℕ)
      → Available malloc
      → entrylist_alloc {F = F} malloc n ≡ some (record { size = 0; capacity = n; entries = [] })
  unfolding entrylist_alloc
  allocated n m = rw (m sizeof_entrylist, m (sizeof_entry * n)) refl

  -- A fetch whose statements can be prepared, whose counting statement gives a number that is not
  -- negative, and whose rows have no NULL texts, if memory is available: a count above 2048 is
  -- refused with its code; else the rows become the entries of the list, one for one and in order,
  -- if there are at most as many as were counted; one row more is written past the end of the
  -- array.
  pub exec_fetch_query-entry_of :
      (count_query select_query : Bytes) (errcode : ℤ) (n : ℕ)
      → Available malloc
      → sql.prepares db count_query ≡ true
      → sql.first_int db count_query ≡ some (pos n)
      → sql.prepares db select_query ≡ true
      → All IsComplete (sql.rows db select_query)
      → exec_fetch_query sql to_farenheit malloc db
          (some count_query)
          (some select_query)
          keep
          errcode
        ≡ (if ltb 2048 n
            then ret (none, dbhandler_too_many_entries)
            else if leb (length (sql.rows db select_query)) n
            then ret (
              some (record {
                size = length (sql.rows db select_query);
                capacity = n;
                entries = map entry_of (sql.rows db select_query);
              }),
              dbhandler_success,
            )
            else fault write_overflow)
  unfolding exec_fetch_query
  exec_fetch_query-entry_of count_query select_query errcode n m cp cn sp c =
      elim (Bool-cases (ltb 2048 n)) [
        | inl many ↦
            rw (exec_fetch_query, exec_formatted_count_query-pos count_query n cp cn, many) refl
        | inr few ↦
            rw
              (
                exec_fetch_query,
                exec_formatted_count_query-pos count_query n cp cn,
                few,
                allocated n m,
                prepare-some select_query sp,
                exec_formatted_count_query-pos count_query n cp cn,
                fetch_rows-entry_of n 0 (sql.rows db select_query) m c (omega arith),
              )
              (ground (arith, length-map entry_of (sql.rows db select_query)))
      ]
