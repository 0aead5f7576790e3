-- ===== src/Database/Sqlite.antt =====
-- What the code uses of SQLite, and the codes and texts of include/dbhandler.h.
use rpiweatherd.Base.{
  ℕ, suc, ◌-◌, ◌^◌, ℤ, pos, negsuc, neg, Bool, Option, List, ◌++◌, Bytes, codes, eq_ℤ,
  if◌then◌else◌,
}

-- A row of the data table as the columns are read.
pub record Row (F : Type 0) : Type 0 where
  pub id : ℤ
  pub record_date : Option Bytes
  pub temperature : F
  pub humidity : F
  pub location : Option Bytes
  pub device_name : Option Bytes

-- The data base. A text that cannot be prepared has no rows. `insert` is the statement that writes
-- an entry, none where it fails.
pub record Sqlite (F : Type 0) : Type 1 where
  pub Db : Type 0
  pub prepares : Db → Bytes → Bool
  pub first_int : Db → Bytes → Option ℤ
  pub rows : Db → Bytes → List (Row F)
  pub text_rows : Db → Bytes → List (Option Bytes × Option Bytes)
  pub exec : Db → Bytes → Db
  pub insert : Db → F → F → Option Bytes → Option Bytes → Option Db

abbrev pub dbhandler_max_fetched_entries : ℕ
dbhandler_max_fetched_entries = 2048

abbrev pub dbhandler_success : ℤ
dbhandler_success = pos 0

abbrev pub dbhandler_too_many_entries : ℤ
dbhandler_too_many_entries = neg 1

abbrev pub dbhandler_sql_error : ℤ
dbhandler_sql_error = neg 2

abbrev pub dbhandler_no_memory : ℤ
dbhandler_no_memory = neg 3

abbrev pub stat_name_total_requests : Bytes
stat_name_total_requests = codes "total_requests"

abbrev pub stat_name_total_entries : Bytes
stat_name_total_entries = codes "total_entries"

unfoldable pub sqlcmd_increase_stat : Bytes → Bytes
sqlcmd_increase_stat stat_name =
    codes "UPDATE tblStats SET VALUE = VALUE + 1 WHERE KEY = '" ++ (stat_name ++ codes "';")

unfoldable pub sqlcmd_select_stats : Bytes
sqlcmd_select_stats = codes "SELECT DISPLAY_NAME, VALUE FROM tblStats"

unfoldable pub sqlcmd_count_initial_stats : Bytes
sqlcmd_count_initial_stats = codes "SELECT COUNT(*) FROM tblStats"

unfoldable pub dbhandler_strerror : ℤ → Bytes
dbhandler_strerror errcode =
    if eq_ℤ errcode dbhandler_success
    then codes "Success"
    else if eq_ℤ errcode dbhandler_too_many_entries
    then codes "Too many entires to fetch. See documentation for more information."
    else if eq_ℤ errcode dbhandler_sql_error
    then codes "Internal SQL error"
    else if eq_ℤ errcode dbhandler_no_memory
    then codes "Out of memory."
    else codes "General DBHANDLER error."

-- An `int` as a `size_t` of 32 bits.
abbrev pub to_size : ℤ → ℕ
to_size (pos n) = n
to_size (negsuc n) = 2 ^ 32 - suc n
