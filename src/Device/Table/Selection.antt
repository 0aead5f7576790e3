-- ===== src/Device/Table/Selection.antt =====
-- What is queried once a device was selected.
use rpiweatherd.Base.{
  ℕ, ◌≡◌, refl, Option, some, List, [], ◌∷◌, if◌then◌else◌, Bytes, codes, str_eq, ret, fault,
  null_pointer, Bool-cases, inl, inr,
}
use rpiweatherd.Device.Dht11.{Pin, dht11_query_callback}
use rpiweatherd.Device.Table.{
  dht11_row, closing_row, Devices, retcode_device_init_ok, select_device, device_init_by_name,
  current_driver, device_query_current,
}

-- Selecting a device in the table of supported devices succeeds whatever its name, whatever pin
-- was set and whatever was selected before. A query behind it is the sensor's query at the given
-- pin if the name is the sensor's; else it calls a null pointer.
pub device_query_current-init :
    {F : Type 0} (atof : Bytes → F) (levels : ℕ → Pin) (arr : Option (List F)) (name : Bytes)
    (pin : ℕ) (p : ℕ) (s : Option ℕ)
    → (st : Devices) × (device_init_by_name name pin
          (record { table = dht11_row p ∷ closing_row ∷ []; selected = s })
        ≡ ret (retcode_device_init_ok, st))
      × (device_query_current atof levels st arr ≡ (
          if str_eq (codes "dht11") name
          then dht11_query_callback atof (levels pin) arr
          else fault null_pointer))
unfolding device_init_by_name select_device device_query_current current_driver
device_query_current-init atof levels arr name pin p s =
    elim (Bool-cases (str_eq (codes "dht11") name)) [
      | inl known ↦ (
        record { table = dht11_row pin ∷ closing_row ∷ []; selected = some 0 },
        rw known refl,
        rw known refl,
      )
      | inr unknown ↦ (
        record { table = dht11_row p ∷ closing_row ∷ []; selected = some 1 },
        rw unknown refl,
        rw unknown refl,
      )
    ]
