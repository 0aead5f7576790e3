-- ===== src/System/Answers.antt =====
-- A request for a number of entries on its way through the threads: a worker's round reads it, the
-- thread of the data base answers it, and a later round of any worker sends the answer.
use rpiweatherd.Base.{
  ℕ, ◌≤◌, ◌<◌, ◌≡◌, pos, Bool, true, some, List, ◌==◌, map, Bytes, length, codes, All, Free,
}
use rpiweatherd.CLib.Decimal.Laws.{IsInt}
use rpiweatherd.Data.Entries.{Entry, EntryList}
use rpiweatherd.Data.Json.Results.{DistinctIds}
use rpiweatherd.Database.Sqlite.{dbhandler_success}
use rpiweatherd.Database.Fetch.Rows.{IsComplete, entry_of}
use rpiweatherd.Http.Request.Print.{IsLine, print_line}
use rpiweatherd.Listener.Fetch.Select.{select_query, select_message}
use rpiweatherd.Listener.Message.{Message, entry_list}
use rpiweatherd.Listener.Queries.{count_select_n, select_n}
use rpiweatherd.Listener.Table.{Services}
use rpiweatherd.Listener.Worker.{Worker}

-- The line of a request for `n` entries.
pub record IsRequest (method proto : Bytes) (n : ℕ) : Type 0 where
  pub line : IsLine method (codes "fetch") (select_query n) proto
  pub no_nul : Free (λ c. c == 0) (print_line method (codes "fetch") (select_query n) proto)
  pub positive : 0 < n
  pub few : n ≤ 2048

module _ {F : Type 0} (services : Services F) (db : services.sql.Db) where
  -- The entries that a client is to see.
  abbrev pub answers : Bool → ℕ → List (Entry F)
  answers celsius n =
      map (entry_of services.sql services.to_farenheit services.malloc db celsius)
        (services.sql.rows db (select_n (pos n)))

  -- What SQLite and the data base have to bring: `SELECT n;` gives n, LIMIT is kept, no text is
  -- NULL, and ids are of type int and differ.
  pub record IsStored (celsius : Bool) (n : ℕ) : Type 0 where
    pub counts : services.sql.prepares db (count_select_n (pos n)) ≡ true
    pub counted : services.sql.first_int db (count_select_n (pos n)) ≡ some (pos n)
    pub selects : services.sql.prepares db (select_n (pos n)) ≡ true
    pub limited : length (services.sql.rows db (select_n (pos n))) ≤ n
    pub complete : All IsComplete (services.sql.rows db (select_n (pos n)))
    pub int_ids : All (λ e. IsInt e.id) (answers celsius n)
    pub distinct : DistinctIds (answers celsius n)

  abbrev pub found : Bool → ℕ → EntryList F
  found celsius n = record {
    size = length (services.sql.rows db (select_n (pos n)));
    capacity = n;
    entries = answers celsius n;
  }

  abbrev pub stored : Bool → ℕ → Message F → Message F
  stored celsius n msg = record (select_message n msg) {
    payload = entry_list (found celsius n);
    retcode = dbhandler_success;
    is_completed = true;
  }
