-- ===== src/Config/File.antt =====
-- src/confighandler.c: write_config_file, parse_config_file and init_current_config. The ini parser
-- is a parameter.
pub mod RoundTrip
use rpiweatherd.Base.{
  ℕ, ℤ, pos, Bool, Option, none, some, List, [], ◌∷◌, ◌++◌, Bytes, codes, Outcome, ret, fault,
  null_pointer, ◌>>=◌,
}
use rpiweatherd.CLib.Text.{Malloc}
use rpiweatherd.CLib.Decimal.{decimal_ℤ}
use rpiweatherd.Config.{Config, Parsing, inih_callback}

-- The lines that are written.
pub data Line : Type 0 where
  section : Bytes → Line
  setting : Bytes → Bytes → Line
  blank : Line

unfoldable pub print_line : Line → Bytes
print_line (section name) = b'[' ∷ (name ++ (b']' ∷ 10 ∷ []))
print_line (setting name value) = name ++ (b'=' ∷ (value ++ (10 ∷ [])))
print_line blank = 10 ∷ []

-- A string that is printed with "%s".
abbrev pub printed : Option Bytes → Outcome Bytes
printed none = fault null_pointer
printed (some s) = ret s

unfoldable pub write_config_file : Config → Outcome (List Line)
unfolding decimal_ℤ
write_config_file c = do
  measure_location ← printed c.measure_location
  query_interval ← printed c.query_interval
  device_name ← printed c.device_name
  ret (
      section (codes "General")
      ∷ setting (codes "measure_location") measure_location
      ∷ setting (codes "query_interval") query_interval
      ∷ blank
      ∷ section (codes "Device Configuration")
      ∷ setting (codes "device_name") device_name
      ∷ setting (codes "device_config") (decimal_ℤ c.device_config)
      ∷ blank
      ∷ section (codes "Server Configuration")
      ∷ setting (codes "comm_port") (decimal_ℤ c.comm_port)
      ∷ setting (codes "num_worker_threads") (decimal_ℤ c.num_worker_threads)
      ∷ [])

-- The callback, which takes a name and a value, and `ini_parse` on the file of a path.
abbrev pub Handler : Type 0
Handler = Bytes → Bytes → Parsing → ℤ × Parsing

abbrev pub IniParse : Type 0
IniParse = Bytes → Handler → Parsing → ℤ × Parsing

-- The flag, the configuration, and errno.
unfoldable pub parse_config_file : Malloc → IniParse → Bytes → Config → Bool → ℤ × Config × Bool
unfolding inih_callback
parse_config_file malloc ini_parse path c erange =
    let (parse_flag, st) =
      ini_parse path (inih_callback malloc)
        (record { config = c; temp_count = 0; erange = erange }) in
    (parse_flag, record st.config { config_count = st.temp_count }, st.erange)
