-- ===== src/Database/Start.antt =====
-- src/dbhandler.c: init_dbhandler, with the texts of include/dbhandler.h. The codes that SQLite
-- returns for a text are a parameter.
use rpiweatherd.Base.{
  ℕ, ◌+◌, ℤ, pos, neg, Bool, not, List, [], ◌∷◌, ◌==◌, ◌≡◌, true, if◌then◌else◌, Bytes, codes, All,
  arith,
}

unfoldable pub sqlcmd_table_creation_queries : List Bytes
sqlcmd_table_creation_queries =
    codes
      "CREATE TABLE IF NOT EXISTS tblData(ID INTEGER PRIMARY KEY AUTOINCREMENT, RECORD_DATE TEXT NOT NULL, TEMPERATURE FLOAT NOT NULL, HUMIDITY FLOAT NOT NULL, LOCATION TEXT NOT NULL, DEVICE_NAME TEXT NOT NULL);"
    ∷ codes
        "CREATE TABLE IF NOT EXISTS tblStats(KEY TEXT PRIMARY KEY NOT NULL, DISPLAY_NAME TEXT NOT NULL,VALUE INTEGER NOT NULL);"
    ∷ []

unfoldable pub sqlcmd_insert_initial_stats : Bytes
sqlcmd_insert_initial_stats =
    codes
      "INSERT OR IGNORE INTO tblStats VALUES('total_requests', 'Total count of requests', 0),('total_entries', 'Total count of entries', 0);"

-- The loop over the texts: the codes are added up.
unfoldable pub add_codes : (Bytes → ℕ) → List Bytes → ℕ → ℕ
add_codes exec [] result = result
add_codes exec (sqlcmd ∷ sqlcmds) result = add_codes exec sqlcmds (result + exec sqlcmd)

-- `opened` and `queue_opened` say whether the data base and its message queue could be opened. A
-- thread that cannot be created is only logged.
unfoldable pub init_dbhandler : Bool → (Bytes → ℕ) → Bool → ℤ
unfolding add_codes
init_dbhandler opened exec queue_opened =
    let result =
      add_codes exec sqlcmd_table_creation_queries 0 + exec sqlcmd_insert_initial_stats in
    if not opened
    then neg 1
    else if not (result == 0)
    then neg 1
    else if not queue_opened
    then neg 1
    else pos 1

add_codes-zero :
    (exec : Bytes → ℕ) (sqlcmds : List Bytes) (result : ℕ)
    → add_codes exec sqlcmds result ≡ 0
    → (result ≡ 0) × All (λ sqlcmd. exec sqlcmd ≡ 0) sqlcmds
unfolding add_codes
add_codes-zero exec [] result h = (h, tt)
add_codes-zero exec (sqlcmd ∷ sqlcmds) result h =
    let (sum, rest) = add_codes-zero exec sqlcmds (result + exec sqlcmd) h in
    (omega (arith, sum), (omega (arith, sum), rest))

-- If the handler of the data base starts, each of the three texts was executed without an error.
pub init_dbhandler-prepared :
    (opened : Bool) (exec : Bytes → ℕ) (queue_opened : Bool)
    → init_dbhandler opened exec queue_opened ≡ pos 1
    → (opened ≡ true)
      × All (λ sqlcmd. exec sqlcmd ≡ 0) sqlcmd_table_creation_queries
      × (exec sqlcmd_insert_initial_stats ≡ 0)
      × (queue_opened ≡ true)
unfolding init_dbhandler
init_dbhandler-prepared opened exec queue_opened h =
    let created = add_codes-zero exec sqlcmd_table_creation_queries 0 in ground (arith, created)
