-- ===== src/Config/Counter.antt =====
-- What the callback counts, and what it refuses.
use rpiweatherd.Base.{◌+◌, pos, ◌≡◌, ◌≢◌, ◌⊎◌, [], ◌∷◌, Bytes, arith}
use rpiweatherd.CLib.Text.{Malloc}
use rpiweatherd.Config.{Parsing, set_entry, inih_callback}

-- The counter goes up by one for an entry that the callback accepts, with the code 1, and stays for
-- every other entry.
pub inih_callback-temp_count :
    (malloc : Malloc) (name value : Bytes) (st : Parsing)
    → (((inih_callback malloc name value st).0 ≡ pos 1)
        × ((inih_callback malloc name value st).1.temp_count ≡ st.temp_count + 1))
      ⊎ (((inih_callback malloc name value st).0 ≢ pos 1)
          × ((inih_callback malloc name value st).1.temp_count ≡ st.temp_count))
unfolding inih_callback set_entry
inih_callback-temp_count malloc name [] st = ground arith
inih_callback-temp_count malloc name (c ∷ value) st = ground arith
