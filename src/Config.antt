-- ===== src/Config.antt =====
-- src/confighandler.c and include/confighandler.h: the configuration, the callback that the ini
-- parser calls for each of its entries, and the check of the result.
pub mod Errors
pub mod Counter
pub mod File
pub mod Reload
use rpiweatherd.Base.{
  ℕ, ◌+◌, ℤ, pos, negsuc, neg, Bool, true, false, not, ◌==◌, ◌||◌, Option, none, some, List, [],
  ◌∷◌, ltb, is_neg, eq_ℤ, if◌then◌else◌, Bytes, codes, str_eq, Outcome, ret, fault, null_pointer,
  read_overflow, ◌>>=◌,
}
use rpiweatherd.CLib.Text.{Malloc, strdup}
use rpiweatherd.CLib.Decimal.{strtol}
use rpiweatherd.Device.Table.{Device, supported_devices}

abbrev pub config_error_comm_port : ℤ
config_error_comm_port = neg 1

abbrev pub config_error_device_config : ℤ
config_error_device_config = neg 2

abbrev pub config_error_num_wthreads : ℤ
config_error_num_wthreads = neg 3

abbrev pub config_num_worker_threads_max : ℕ
config_num_worker_threads_max = 4

-- rpiwd_config.
pub record Config : Type 0 where
  pub config_count : ℕ
  pub measure_location : Option Bytes
  pub device_name : Option Bytes
  pub device_config : ℤ
  pub query_interval : Option Bytes
  pub comm_port : ℤ
  pub num_worker_threads : ℤ

-- The configuration, the static counter, and whether errno is ERANGE.
pub record Parsing : Type 0 where
  pub config : Config
  pub temp_count : ℕ
  pub erange : Bool

abbrev pub count_entry : Parsing → ℤ × Parsing
count_entry st = (pos 1, record st { temp_count = st.temp_count + 1 })

-- A number that was read and stored: an error if errno is ERANGE.
abbrev pub number_entry : ℤ → Bool → Parsing → ℤ × Parsing
number_entry error range_error st =
    let st' = record st { erange = st.erange || range_error } in
    if st'.erange then (error, st') else count_entry st'

-- The switch over the name of an entry.
unfoldable pub set_entry : Malloc → Bytes → Bytes → Parsing → ℤ × Parsing
unfolding str_eq strdup strtol
set_entry malloc name value st =
    let c = st.config in
    let (number, range_error) = strtol value in
    if str_eq name (codes "measure_location")
    then count_entry (record st { config = record c { measure_location = strdup malloc value } })
    else if str_eq name (codes "query_interval")
    then count_entry (record st { config = record c { query_interval = strdup malloc value } })
    else if str_eq name (codes "device_name")
    then count_entry (record st { config = record c { device_name = strdup malloc value } })
    else if str_eq name (codes "device_config")
    then number_entry config_error_device_config range_error
        (record st { config = record c { device_config = number } })
    else if str_eq name (codes "units")
    then count_entry st
    else if str_eq name (codes "comm_port")
    then number_entry config_error_comm_port range_error
        (record st { config = record c { comm_port = number } })
    else if str_eq name (codes "num_worker_threads")
    then number_entry config_error_num_wthreads range_error
        (record st { config = record c { num_worker_threads = number } })
    else (pos 0, st)

unfoldable pub inih_callback : Malloc → Bytes → Bytes → Parsing → ℤ × Parsing
inih_callback malloc name [] st = (pos 0, st)
inih_callback malloc name (c ∷ value) st = set_entry malloc name (c ∷ value) st

-- The loop over the supported devices. A name that is not set is a null pointer.
unfoldable pub is_supported_device : Option Bytes → List Device → Outcome Bool
unfolding str_eq
is_supported_device device_name [] = fault read_overflow
is_supported_device device_name (d ∷ ds) =
    let later = is_supported_device device_name ds in
    elim d.device_name [
      | none ↦ ret false
      | some supported ↦ elim device_name [
        | none ↦ fault null_pointer
        | some name ↦ if str_eq name supported then ret true else later
      ]
    ]

abbrev pub count_if : Bool → ℕ
count_if b = if b then 1 else 0

abbrev pub is_unset : Option Bytes → Bool
is_unset none = true
is_unset (some s) = false

-- Whether the number of worker threads is 0, negative or above the maximum.
abbrev pub has_bad_threads : ℤ → Bool
has_bad_threads (pos n) = n == 0 || ltb config_num_worker_threads_max n
has_bad_threads (negsuc n) = true

-- The number of errors.
unfoldable pub config_has_errors : Config → Outcome ℕ
config_has_errors c = do
  nameflag ← is_supported_device c.device_name supported_devices
  ret (
      count_if (is_unset c.measure_location)
      + count_if (not nameflag)
      + count_if (is_unset c.query_interval)
      + count_if (has_bad_threads c.num_worker_threads))
