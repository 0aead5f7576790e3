-- ===== src/Tests/Devices.antt =====
-- The sensor's bits and the lists of pairs on concrete values.
use rpiweatherd.Base.{
  ◌≡◌, ◌++◌, ◌+◌, ◌-◌, ◌%◌, ◌==◌, refl, true, false, none, some, List, Option, [], ◌∷◌, Bytes,
  codes, map, take, ret, if◌then◌else◌, ◌>>=◌, replicate, Bool, arith,
}
use rpiweatherd.Tests.Values.{all_fits}
use rpiweatherd.CLib.Text.{read_digits}
use rpiweatherd.Device.Dht11.{
  no_bits, finish_query, print_pair, devretcode_success, devretcode_data_failure,
}
use rpiweatherd.Device.Dht11.Bits.{store_bits, byte_value, finish_query_five}
use rpiweatherd.Data.KeyValues.{KeyValueList, emplace_all}
use rpiweatherd.Data.KeyValues.Bounds.{IsValid, emplaced, emplace_all_lem}

abbrev zeros : List Bool
zeros = replicate 8 false

-- 41 in eight bits.
abbrev forty_one : List Bool
forty_one = false ∷ false ∷ true ∷ false ∷ true ∷ false ∷ false ∷ true ∷ []

finish_query_five_example :
    (store_bits (forty_one ++ (zeros ++ (zeros ++ (zeros ++ forty_one)))) no_bits >>= λ st.
    ret (finish_query (read_digits 0) st (some (0 ∷ 0 ∷ []))))
    ≡ ret (
        if byte_value forty_one
          == (byte_value forty_one + byte_value zeros + byte_value zeros + byte_value zeros) % 256
        then (
          devretcode_success,
          some (
              read_digits 0 (print_pair (byte_value zeros) (byte_value zeros))
              ∷ read_digits 0 (print_pair (byte_value forty_one) (byte_value zeros))
              ∷ []),
        )
        else (devretcode_data_failure, some (0 ∷ 0 ∷ [])))
finish_query_five_example =
    finish_query_five forty_one zeros zeros zeros forty_one (read_digits 0) 0 0 [] refl refl refl
      refl refl

abbrev room_for_one : KeyValueList
room_for_one = record { length = 0; capacity = 1; pairs = [] }

abbrev two_pairs : List (Option Bytes × Option Bytes)
two_pairs = (some (codes "a"), some (codes "1")) ∷ (some (codes "b"), none) ∷ []

room_for_one-IsValid : IsValid room_for_one
room_for_one-IsValid = record { counted = refl; fits = omega arith }

emplace_all_lem_example :
    ((emplace_all all_fits two_pairs room_for_one).pairs
      ≡ [] ++ take (1 - 0) (map (emplaced all_fits) two_pairs))
    × IsValid (emplace_all all_fits two_pairs room_for_one)
emplace_all_lem_example = emplace_all_lem all_fits two_pairs room_for_one room_for_one-IsValid
