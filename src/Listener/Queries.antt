-- ===== src/Listener/Queries.antt =====
-- include/dbhandler.h: the SQL texts of a fetch; src/dbhandler.c: format_query, which cuts its text
-- at 511 bytes.
use rpiweatherd.Base.{ℕ, ℤ, ◌∷◌, ◌++◌, Bytes, codes, take}
use rpiweatherd.CLib.Decimal.{decimal_ℤ, print_f}

abbrev pub sql_command_buffer_size : ℕ
sql_command_buffer_size = 512

abbrev pub format_query : Bytes → Bytes
format_query text = take 511 text

unfoldable pub by_date : ℕ → ℤ → Bytes
by_date operator t =
    codes "tblData WHERE datetime(RECORD_DATE) "
    ++ (operator ∷ (codes " datetime(" ++ (print_f t ++ codes ", 'unixepoch', 'localtime');")))

unfoldable pub by_date_range : ℤ → ℤ → Bytes
by_date_range t u =
    codes "BETWEEN datetime("
    ++ (print_f t
        ++ (codes ", 'unixepoch', 'localtime') AND datetime("
            ++ (print_f u ++ codes ", 'unixepoch', 'localtime');")))

unfoldable pub count_by_date : ℕ → ℤ → Bytes
count_by_date operator t = format_query (codes "SELECT COUNT(*) FROM " ++ by_date operator t)

unfoldable pub read_by_date : ℕ → ℤ → Bytes
read_by_date operator t = format_query (codes "SELECT * FROM " ++ by_date operator t)

unfoldable pub count_by_date_range : ℤ → ℤ → Bytes
count_by_date_range t u =
    format_query
      (codes "SELECT COUNT(*) FROM tblData WHERE datetime(RECORD_DATE) " ++ by_date_range t u)

unfoldable pub read_by_date_range : ℤ → ℤ → Bytes
read_by_date_range t u =
    format_query (codes "SELECT * FROM tblData WHERE datetime(RECORD_DATE) " ++ by_date_range t u)

unfoldable pub count_select_n : ℤ → Bytes
count_select_n n = format_query (codes "SELECT " ++ (decimal_ℤ n ++ codes ";"))

unfoldable pub select_n : ℤ → Bytes
select_n n = format_query (codes "SELECT * FROM tblData LIMIT " ++ (decimal_ℤ n ++ codes ";"))
