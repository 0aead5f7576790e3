-- ===== src/Device/Table.antt =====
-- src/device.c: the table of supported devices and the selected device.
pub mod Selection
use rpiweatherd.Base.{
  ℕ, suc, ℤ, pos, neg, Bool, Option, none, some, List, [], ◌∷◌, if◌then◌else◌, Bytes, codes, str_eq,
  get_elem?, Outcome, ret, fault, null_pointer, read_overflow, ◌>>=◌,
}
use rpiweatherd.Device.Dht11.{Pin, dht11_query_callback}

abbrev pub retcode_device_init_ok : ℤ
retcode_device_init_ok = pos 0

abbrev pub retcode_device_init_unknown : ℤ
retcode_device_init_unknown = neg 1

-- The callbacks of a row, which is none for null pointers.
pub data Driver : Type 0 where
  dht11 : Driver

pub record Device : Type 0 where
  pub device_name : Option Bytes
  pub pin_data : ℕ
  pub driver : Option Driver

-- The row of the sensor with its pin, and the row that closes the table.
abbrev pub dht11_row : ℕ → Device
dht11_row pin = record { device_name = some (codes "dht11"); pin_data = pin; driver = some dht11 }

abbrev pub closing_row : Device
closing_row = record { device_name = none; pin_data = 0; driver = none }

-- The static variables: the table, and the index of the selected device, none for a null pointer.
pub record Devices : Type 0 where
  pub table : List Device
  pub selected : Option ℕ

abbrev pub supported_devices : List Device
supported_devices = dht11_row 0 ∷ closing_row ∷ []

-- The loop: the row it stops at, which is the closing row if no name fits, and the table with the
-- pin set.
unfoldable pub select_device : Bytes → ℕ → List Device → Outcome (ℕ × List Device)
unfolding str_eq
select_device device_name data_pin [] = fault read_overflow
select_device device_name data_pin (d ∷ ds) =
    let later = select_device device_name data_pin ds in
    elim d.device_name [
      | none ↦ ret (0, d ∷ ds)
      | some name ↦
          if str_eq name device_name
          then ret (0, record d { pin_data = data_pin } ∷ ds)
          else (do (i, ds') ← later; ret (suc i, d ∷ ds'))
    ]

-- The pointer that the loop ends with is never null, so that the code for an unknown device is
-- never returned.
unfoldable pub device_init_by_name : Bytes → ℕ → Devices → Outcome (ℤ × Devices)
device_init_by_name device_name data_pin st = do
  (i, table) ← select_device device_name data_pin st.table
  ret (retcode_device_init_ok, record { table = table; selected = some i })

-- The selected row with its driver, for a call through it.
unfoldable pub current_driver : Devices → Outcome (Device × Driver)
current_driver st = elim st.selected [
  | none ↦ fault null_pointer
  | some i ↦ elim (get_elem? st.table i) [
    | none ↦ fault read_overflow
    | some d ↦ elim d.driver [ none ↦ fault null_pointer | some driver ↦ ret (d, driver) ]
  ]
]

-- `levels` are the levels that the reads of each pin return.
unfoldable pub device_test_current : (ℕ → Pin) → Devices → Outcome Bool
device_test_current levels st = do (d, _) ← current_driver st; ret (levels d.pin_data 0)

unfoldable pub device_query_current :
    {F : Type 0}
    → (Bytes → F)
    → (ℕ → Pin)
    → Devices
    → Option (List F)
    → Outcome (ℤ × Option (List F))
device_query_current atof levels st arr = do
  (d, _) ← current_driver st
  dht11_query_callback atof (levels d.pin_data) arr
