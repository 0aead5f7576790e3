-- ===== src/Tests/Start.antt =====
-- The configuration, the table of devices and the queries of a round on concrete values.
use rpiweatherd.Base.{
  ℕ, ℤ, pos, neg, ◌≡◌, ◌≢◌, ◌↔◌, refl, true, false, none, some, [], ◌∷◌, if◌then◌else◌, codes,
  str_eq, ret, fault, null_pointer, arith, ◌==◌,
}
use rpiweatherd.CLib.Text.{read_digits}
use rpiweatherd.Tests.Values.{home}
use rpiweatherd.Device.Dht11.{
  Pin, dht11_query_callback, read_bits, wait_change, finish_query, devretcode_data_failure,
}
use rpiweatherd.Device.Table.{
  Devices, dht11_row, closing_row, retcode_device_init_ok, device_init_by_name,
  device_query_current,
}
use rpiweatherd.Device.Table.Selection.{device_query_current-init}
use rpiweatherd.Config.{Parsing, config_has_errors}
use rpiweatherd.Config.Errors.{IsUsable, config_has_errors_iff}
use rpiweatherd.Daemon.{query_data, written}
use rpiweatherd.Daemon.Attempts.{is_named, query_data_fuel}

abbrev high : Pin
high read = true

device_query_current-init_example :
    (st : Devices) × (device_init_by_name
        (codes "dht22")
        4
        (record { table = dht11_row 0 ∷ closing_row ∷ []; selected = none })
      ≡ ret (retcode_device_init_ok, st))
    × (device_query_current (read_digits 0) (λ pin. high) st (some (0 ∷ 0 ∷ [])) ≡ (
        if str_eq (codes "dht11") (codes "dht22")
        then dht11_query_callback (read_digits 0) high (some (0 ∷ 0 ∷ []))
        else fault null_pointer))
device_query_current-init_example =
    device_query_current-init (read_digits 0) (λ pin. high) (some (0 ∷ 0 ∷ [])) (codes "dht22") 4 0
      none

config_has_errors_iff_example : (config_has_errors home ≡ ret 0) ↔ IsUsable home
config_has_errors_iff_example = config_has_errors_iff home

abbrev first_entry : Parsing
first_entry = record { config = home; temp_count = 0; erange = false }

-- The third query succeeds.
abbrev third_time : ℕ → ℤ
third_time n = if n == 2 then pos 0 else neg 2

third_time_named : (n : ℕ) → is_named (third_time n) ≡ true
third_time_named n = ground arith

query_data_fuel_example : query_data third_time 64 0 0 ≢ none
query_data_fuel_example = query_data_fuel third_time 64 0 0 third_time_named (omega arith)

third_query : query_data third_time 64 0 0 ≡ some (written 2)
unfolding query_data
third_query = refl

silent_sensor :
    dht11_query_callback (read_digits 0) high (some (0 ∷ 0 ∷ []))
    ≡ ret (devretcode_data_failure, some (0 ∷ 0 ∷ []))
unfolding dht11_query_callback read_bits wait_change finish_query
silent_sensor = refl
